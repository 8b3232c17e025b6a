-- ===== src/Admin/MeterName.antt =====
-- `parse_id` of admin/admin_server.cc: the id of a meter behind `DELETE /metrics/g/`.
use spectatord.Base.{
  ℕ, zero, suc, ◌<◌, ◌≡◌, refl, ap, List, [], ◌∷◌, ◌++◌, false, length, length-append, drop,
  if◌then◌else◌, arith,
}
use spectatord.Tags.{Tags, empty_tags, copy}
use spectatord.Id.{MeterId, make_id, add, intern_str}
use spectatord.HttpClient.Url.{
  find_char, before_char, is_empty, Lacks, find_char-Lacks, before_char-Lacks, find_char-none,
  before_char-all,
}

-- The loop, from behind a comma on; each round goes past one, so the length of the text is fuel enough.
unfoldable pub parse_tags : ℕ → Tags → List ℕ → Tags
parse_tags zero tags s = tags
parse_tags (suc fuel) tags s =
    let k_pos = find_char s b'=' in
    let value = drop 1 k_pos in
    let v_pos = find_char value b',' in
    let tags' = add tags (before_char s b'=') (before_char value b',') in
    let rest = parse_tags fuel tags' (drop 1 v_pos) in
    if is_empty k_pos then tags else if is_empty v_pos then tags' else rest

unfoldable pub parse_id : List ℕ → MeterId
unfolding parse_tags
parse_id id_str =
    let pos = find_char id_str b',' in
    if is_empty pos
    then make_id (intern_str id_str) empty_tags
    else make_id (intern_str (before_char id_str b','))
        (copy (parse_tags (length id_str) empty_tags (drop 1 pos)))

-- Tags as they are written, and behind a name.
abbrev pub print_tags : List (List ℕ × List ℕ) → List ℕ
print_tags [] = []
print_tags (t ∷ []) = t.0 ++ b'=' ∷ t.1
print_tags (t ∷ u ∷ ts) = t.0 ++ b'=' ∷ (t.1 ++ b',' ∷ print_tags (u ∷ ts))

abbrev pub add_each : Tags → List (List ℕ × List ℕ) → Tags
add_each tags [] = tags
add_each tags (t ∷ ts) = add_each (add tags t.0 t.1) ts

-- Keys without `=`, and values without a comma.
abbrev pub Plain : List (List ℕ × List ℕ) → Type 0
Plain [] = Unit {0}
Plain (t ∷ ts) = Lacks b'=' t.0 × Lacks b',' t.1 × Plain ts

not-empty : (k : ℕ) (s : List ℕ) → is_empty (k ∷ s) ≡ false
not-empty k s = refl

parse_tags-print_tags :
    (fuel : ℕ) (tags : Tags) (t : List ℕ × List ℕ) (ts : List (List ℕ × List ℕ))
    → length ts < fuel
    → Plain (t ∷ ts)
    → parse_tags fuel tags (print_tags (t ∷ ts)) ≡ add_each tags (t ∷ ts)
unfolding parse_tags
parse_tags-print_tags zero tags t ts h p = absurd (omega (arith, h))
parse_tags-print_tags (suc fuel) tags t [] h p =
    rw
      (
        find_char-Lacks b'=' t.0 t.1 p.0,
        before_char-Lacks b'=' t.0 t.1 p.0,
        find_char-none b',' t.1 p.1,
        before_char-all b',' t.1 p.1,
      )
      refl
parse_tags-print_tags (suc fuel) tags t (u ∷ ts) h p =
    let more = print_tags (u ∷ ts) in
    rw
      (
        find_char-Lacks b'=' t.0 (t.1 ++ b',' ∷ more) p.0,
        before_char-Lacks b'=' t.0 (t.1 ++ b',' ∷ more) p.0,
        find_char-Lacks b',' t.1 more p.1,
        before_char-Lacks b',' t.1 more p.1,
      )
      (parse_tags-print_tags fuel (add tags t.0 t.1) u ts (omega (arith, h)) p.2)

length-print_tags :
    (t : List ℕ × List ℕ) (ts : List (List ℕ × List ℕ)) → length ts < length (print_tags (t ∷ ts))
length-print_tags t [] = omega (arith, length-append t.0 (b'=' ∷ t.1))
length-print_tags t (u ∷ ts) = omega (
  arith,
  length-print_tags u ts,
  length-append t.0 (b'=' ∷ (t.1 ++ b',' ∷ print_tags (u ∷ ts))),
  length-append t.1 (b',' ∷ print_tags (u ∷ ts)),
)

-- A name, and tags behind it, are read back as the id of that name with the tags added in order; the name and the
-- values are without commas, and the keys without `=`.
pub parse_id-print_tags :
    (name : List ℕ) (t : List ℕ × List ℕ) (ts : List (List ℕ × List ℕ))
    → Lacks b',' name
    → Plain (t ∷ ts)
    → parse_id (name ++ b',' ∷ print_tags (t ∷ ts))
      ≡ make_id (intern_str name) (copy (add_each empty_tags (t ∷ ts)))
unfolding parse_id
parse_id-print_tags name t ts hn p =
    let rest = print_tags (t ∷ ts) in
    rw (find_char-Lacks b',' name rest hn, before_char-Lacks b',' name rest hn)
      (ap (λ tags. make_id (intern_str name) (copy tags))
        (parse_tags-print_tags (length (name ++ b',' ∷ rest)) empty_tags t ts
          (omega (arith, length-print_tags t ts, length-append name (b',' ∷ rest))) p))
