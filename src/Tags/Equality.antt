-- ===== src/Tags/Equality.antt =====
-- `operator==` of spectator/tags.h, and sets of tags as maps.
use spectatord.Base.{
  ◌≡◌, refl, sym, ap, ◌∙◌, List, [], ◌∷◌, ◌↔◌, true, false, ◌==◌, arith, length, if◌then◌else◌,
}
use spectatord.CText.Order.{text_eq→eq, text_eq_refl, strcmp_irrefl, strcmp_trans}
use spectatord.Tags.{StrRef, Tag, Tags, tags_eq, entries_eq, at}
use spectatord.Tags.Order.{IsSorted}
use spectatord.Tags.Lookup.{find_value, find_value-Above, at-find_value}

pub entries_eq→eq : (xs ys : List Tag) → entries_eq xs ys ≡ true → xs ≡ ys
entries_eq→eq [] [] h = refl
entries_eq→eq [] (y ∷ ys) h = cc
entries_eq→eq (x ∷ xs) [] h = cc
entries_eq→eq (x ∷ xs) (y ∷ ys) h =
    ground (arith, entries_eq→eq xs ys, text_eq→eq x.key y.key, text_eq→eq x.value y.value)

pub entries_eq_refl : (xs : List Tag) → entries_eq xs xs ≡ true
entries_eq_refl [] = refl
entries_eq_refl (x ∷ xs) =
    ground (arith, entries_eq_refl xs, text_eq_refl x.key, text_eq_refl x.value)

entries_eq-length : (xs ys : List Tag) → entries_eq xs ys ≡ true → length xs ≡ length ys
entries_eq-length xs ys h = ap length (entries_eq→eq xs ys h)

-- The shortcuts on the sizes change nothing: equality is that of the entries.
tags_eq-entries :
    (xs ys : List Tag)
    → (if length xs == length ys
        then (if length xs == 0 then true else entries_eq xs ys)
        else false)
      ≡ entries_eq xs ys
tags_eq-entries [] [] = refl
tags_eq-entries [] (y ∷ ys) = ground arith
tags_eq-entries (x ∷ xs) ys = ground (arith, entries_eq-length (x ∷ xs) ys)

pub tags_eq-entries_eq : (t u : Tags) → tags_eq t u ≡ entries_eq t.entries u.entries
unfolding tags_eq
tags_eq-entries_eq t u = tags_eq-entries t.entries u.entries

module _ (x y : Tag) (xs ys : List Tag) (s : IsSorted (x ∷ xs)) (r : IsSorted (y ∷ ys))
    (h : (j : StrRef) → find_value (x ∷ xs) j ≡ find_value (y ∷ ys) j) where
  heads_eq : (x.key ≡ y.key) × (x.value ≡ y.value)
  unfolding find_value
  heads_eq = ground (
    arith,
    h x.key,
    h y.key,
    find_value-Above y.key x.key ys,
    find_value-Above x.key y.key xs,
    strcmp_trans x.key y.key x.key,
    strcmp_irrefl x.key,
    text_eq→eq x.key y.key,
    text_eq→eq y.key x.key,
    text_eq_refl x.key,
    text_eq_refl y.key,
    s.0,
    r.0,
  )

  tails_agree : (j : StrRef) → find_value xs j ≡ find_value ys j
  unfolding find_value
  tails_agree j = ground (
    arith,
    heads_eq,
    h j,
    find_value-Above y.key j ys,
    find_value-Above x.key j xs,
    strcmp_irrefl x.key,
    text_eq→eq x.key j,
    s.0,
    r.0,
  )

-- Sorted entries with the same value at each key are the same entries.
pub entries_ext :
    (xs ys : List Tag)
    → IsSorted xs
    → IsSorted ys
    → ((j : StrRef) → find_value xs j ≡ find_value ys j)
    → xs ≡ ys
unfolding find_value
entries_ext [] [] s r h = refl
entries_ext [] (y ∷ ys) s r h = ground (arith, h y.key, text_eq_refl y.key)
entries_ext (x ∷ xs) [] s r h = ground (arith, h x.key, text_eq_refl x.key)
entries_ext (x ∷ xs) (y ∷ ys) s r h =
    let tail : xs ≡ ys = entries_ext xs ys s.1 r.1 (tails_agree x y xs ys s r h) in
    ground (arith, heads_eq x y xs ys s r h, tail)

-- Two sorted sets are equal by `operator==` exactly if `at` agrees on them at every key.
pub tags_eq_iff :
    (t u : Tags)
    → IsSorted t.entries
    → IsSorted u.entries
    → (tags_eq t u ≡ true) ↔ ((j : StrRef) → at t j ≡ at u j)
tags_eq_iff t u s r = (same, ext)
  where
    same : tags_eq t u ≡ true → (j : StrRef) → at t j ≡ at u j
    same h j =
        at-find_value t j s
        ∙ ap (λ e. find_value e j)
            (entries_eq→eq t.entries u.entries (sym (tags_eq-entries_eq t u) ∙ h))
        ∙ sym (at-find_value u j r)

    ext : ((j : StrRef) → at t j ≡ at u j) → tags_eq t u ≡ true
    ext h =
        tags_eq-entries_eq t u
        ∙ ap (entries_eq t.entries) (
            sym (
              entries_ext t.entries u.entries s r
                (λ j. sym (at-find_value t j s) ∙ h j ∙ at-find_value u j r)))
        ∙ entries_eq_refl t.entries
