-- ===== src/Program/CommonTagsFlag.antt =====
-- The flag of the common tags in bin/spectatord_main.cc: keys and values, separated by commas.
pub mod Complete
use spectatord.Base.{
  ◌>>=◌, ℕ, ◌≡◌, refl, List, [], ◌∷◌, ◌++◌, Option, none, some, false, ◌==◌, ◌||◌, if◌then◌else◌,
  arith,
}
use spectatord.HttpClient.Url.{
  find_char, before_char, is_empty, Lacks, find_char-Lacks, before_char-Lacks,
}
use spectatord.Admin.CommonTags.{CommonTags, update_common_tag}

abbrev put_first : ℕ → List (List ℕ) → List (List ℕ)
put_first c [] = (c ∷ []) ∷ []
put_first c (piece ∷ pieces) = (c ∷ piece) ∷ pieces

-- `StrSplit(text, ',')`: there is always a piece.
unfoldable pub split : ℕ → List ℕ → List (List ℕ)
split k [] = [] ∷ []
split k (c ∷ s) = if c == k then [] ∷ split k s else put_first c (split k s)

abbrev pub pair_of : List ℕ → List ℕ → Option (List ℕ × List ℕ)
pair_of key [] = none
pair_of key (c ∷ value) = if is_empty key || is_empty value then none else some (key, value)

-- A piece in two at its first `=`, neither of them empty.
unfoldable pub key_value : List ℕ → Option (List ℕ × List ℕ)
key_value piece = pair_of (before_char piece b'=') (find_char piece b'=')

-- The loop over the pieces.
unfoldable pub add_pieces : CommonTags → List (List ℕ) → Option CommonTags
add_pieces tags [] = some tags
add_pieces tags (piece ∷ pieces) = do
  kv ← key_value piece
  add_pieces (update_common_tag tags kv.0 kv.1) pieces

unfoldable pub parse_common_tags : List ℕ → Option CommonTags
unfolding split add_pieces key_value
parse_common_tags text = add_pieces [] (split b',' text)

-- Tags as they are written.
abbrev pub print_tag : List ℕ × List ℕ → List ℕ
print_tag t = t.0 ++ b'=' ∷ t.1

abbrev pub print_common_tags : List ℕ × List ℕ → List (List ℕ × List ℕ) → List ℕ
print_common_tags t [] = print_tag t
print_common_tags t (u ∷ ts) = print_tag t ++ b',' ∷ print_common_tags u ts

abbrev pub Plain : List ℕ × List ℕ → Type 0
Plain t =
    Lacks b'=' t.0 × Lacks b',' (print_tag t) × (is_empty t.0 ≡ false) × (is_empty t.1 ≡ false)

abbrev pub AllPlain : List (List ℕ × List ℕ) → Type 0
AllPlain [] = Unit {0}
AllPlain (t ∷ ts) = Plain t × AllPlain ts

abbrev pub update_each : CommonTags → List (List ℕ × List ℕ) → CommonTags
update_each tags [] = tags
update_each tags (t ∷ ts) = update_each (update_common_tag tags t.0 t.1) ts

split-Lacks : (k : ℕ) (s : List ℕ) → Lacks k s → split k s ≡ s ∷ []
unfolding split
split-Lacks k [] h = refl
split-Lacks k (c ∷ s) h = rw (h.0, split-Lacks k s h.1) refl

split-more : (k : ℕ) (s rest : List ℕ) → Lacks k s → split k (s ++ k ∷ rest) ≡ s ∷ split k rest
unfolding split
split-more k [] rest h = ground arith
split-more k (c ∷ s) rest h = rw (h.0, split-more k s rest h.1) refl

key_value-print_tag : (t : List ℕ × List ℕ) → Plain t → key_value (print_tag t) ≡ some t
unfolding key_value
key_value-print_tag t p =
    rw (find_char-Lacks b'=' t.0 t.1 p.0, before_char-Lacks b'=' t.0 t.1 p.0, p.2, p.3) refl

-- Written tags are read back, a later one of a key in place of an earlier one: keys without `=`, no commas, and
-- neither keys nor values empty.
pub parse_common_tags-print :
    (t : List ℕ × List ℕ) (ts : List (List ℕ × List ℕ))
    → AllPlain (t ∷ ts)
    → parse_common_tags (print_common_tags t ts) ≡ some (update_each [] (t ∷ ts))
unfolding parse_common_tags
parse_common_tags-print t ts p = from [] t ts p
  where
    from :
        (tags : CommonTags) (t : List ℕ × List ℕ) (ts : List (List ℕ × List ℕ))
        → AllPlain (t ∷ ts)
        → add_pieces tags (split b',' (print_common_tags t ts)) ≡ some (update_each tags (t ∷ ts))
    from tags t [] p = rw (split-Lacks b',' (print_tag t) p.0.1, key_value-print_tag t p.0) refl
    from tags t (u ∷ ts) p =
        rw (split-more b',' (print_tag t) (print_common_tags u ts) p.0.1, key_value-print_tag t p.0)
          (from (update_common_tag tags t.0 t.1) u ts p.1)
