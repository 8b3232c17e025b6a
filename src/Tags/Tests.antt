-- ===== src/Tags/Tests.antt =====
-- Runs, and the theorems at concrete sets.
use spectatord.Base.{ℕ, ◌<◌, ◌≡◌, refl, arith, map, [], ◌∷◌, some, true, false, ◌↔◌, if◌then◌else◌}
use spectatord.CText.{chars, text_eq}
use spectatord.Tags.{
  StrRef, Tags, empty_tags, insert, add_all, at, tags_eq, has, move_assign, lower_bound, store_at,
  size,
}
use spectatord.Tags.Order.{IsSorted, insert-IsSorted}
use spectatord.Tags.Lookup.{at-insert, at-add_all, or_else}
use spectatord.Tags.Equality.{tags_eq_iff}
use spectatord.Tags.Storage.{IsStored, insert-IsStored, move_assign_overflow}

abbrev app : StrRef
app = chars "app"

abbrev zone : StrRef
zone = chars "zone"

abbrev two_tags : Tags
two_tags = insert (insert empty_tags zone (chars "a")) app (chars "web")

abbrev same_tags : Tags
same_tags = insert (insert empty_tags app (chars "web")) zone (chars "a")

two_tags-IsSorted : IsSorted two_tags.entries
two_tags-IsSorted =
    insert-IsSorted (insert empty_tags zone (chars "a")) app (chars "web")
      (insert-IsSorted empty_tags zone (chars "a") tt)

same_tags-IsSorted : IsSorted same_tags.entries
same_tags-IsSorted =
    insert-IsSorted (insert empty_tags app (chars "web")) zone (chars "a")
      (insert-IsSorted empty_tags app (chars "web") tt)

-- A key that is there gets the new value.
overwrites : at (insert two_tags zone (chars "b")) zone ≡ some (chars "b")
unfolding at insert lower_bound store_at
overwrites = refl

at-insert_example :
    at (insert two_tags zone (chars "b")) app
    ≡ (if text_eq zone app then some (chars "b") else at two_tags app)
at-insert_example = at-insert two_tags zone (chars "b") app two_tags-IsSorted

insert-IsSorted_run : IsSorted (insert two_tags (chars "node") (chars "n")).entries
insert-IsSorted_run = insert-IsSorted two_tags (chars "node") (chars "n") two_tags-IsSorted

at-add_all_run : at (add_all two_tags same_tags) app ≡ or_else (at same_tags app) (at two_tags app)
at-add_all_run = at-add_all two_tags same_tags app two_tags-IsSorted same_tags-IsSorted

tags_eq_iff_example :
    (tags_eq two_tags same_tags ≡ true) ↔ ((j : StrRef) → at two_tags j ≡ at same_tags j)
tags_eq_iff_example = tags_eq_iff two_tags same_tags two_tags-IsSorted same_tags-IsSorted

abbrev nine_tags : Tags
nine_tags = record {
  entries = map (λ (c : ℕ). record { key = c ∷ []; value = app }) (chars "abcdefghi");
  capacity_ = 9;
  allocated = 9;
}

nine_tags_no_zone : has nine_tags zone ≡ false
unfolding has lower_bound
nine_tags_no_zone = refl

move_assign_overflow_example :
    (insert (move_assign 0 empty_tags nine_tags) zone app).allocated
    < size (insert (move_assign 0 empty_tags nine_tags) zone app)
move_assign_overflow_example = move_assign_overflow nine_tags zone app refl refl nine_tags_no_zone

nine_tags-IsStored : IsStored nine_tags
nine_tags-IsStored = record { fits = omega arith; exact = refl }

insert-IsStored_example : IsStored (insert nine_tags zone app)
insert-IsStored_example = insert-IsStored nine_tags zone app nine_tags-IsStored
