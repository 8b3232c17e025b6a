-- ===== src/Program/CommonTagsFlag/Complete.antt =====
-- The texts that the loop over the tags of a flag takes, in bin/spectatord_main.cc, and written tags.
use spectatord.Base.{
  ℕ, ◌≡◌, refl, sym, ap, ◌∙◌, List, [], ◌∷◌, ◌++◌, none, some, false, ◌==◌, ◌⊎◌, inl, inr,
  Bool-cases, Option-cases, subst, arith,
}
use spectatord.HttpClient.Url.{find_char, before_char, is_empty, Lacks}
use spectatord.Admin.CommonTags.{CommonTags, update_common_tag}
use spectatord.Program.CommonTagsFlag.{
  split, pair_of, key_value, add_pieces, parse_common_tags, print_tag, print_common_tags, Plain,
  AllPlain, update_each, parse_common_tags-print,
}

-- A text that is written from tags, and the map that these tags make.
abbrev pub TagList : List ℕ → CommonTags → Type 0
TagList text tags =
    (t : List ℕ × List ℕ) × (ts : List (List ℕ × List ℕ)) × AllPlain (t ∷ ts)
    × (text ≡ print_common_tags t ts)
    × (tags ≡ update_each [] (t ∷ ts))

-- Pieces with a character between two.
abbrev join : ℕ → List ℕ → List (List ℕ) → List ℕ
join k p [] = p
join k p (q ∷ ps) = p ++ k ∷ join k q ps

abbrev AllLack : ℕ → List (List ℕ) → Type 0
AllLack k [] = Unit {0}
AllLack k (p ∷ ps) = Lacks k p × AllLack k ps

abbrev Pieces : ℕ → List ℕ → List (List ℕ) → Type 0
Pieces k s pieces =
    (p : List ℕ) × (ps : List (List ℕ)) × (pieces ≡ p ∷ ps) × AllLack k (p ∷ ps) × (s ≡ join k p ps)

join-cons : (k c : ℕ) (p : List ℕ) (ps : List (List ℕ)) → c ∷ join k p ps ≡ join k (c ∷ p) ps
join-cons k c p [] = refl
join-cons k c p (q ∷ ps) = refl

split-Pieces : (k : ℕ) (s : List ℕ) → Pieces k s (split k s)
unfolding split
split-Pieces k [] = ([], [], refl, (tt, tt), refl)
split-Pieces k (c ∷ s) =
    let (p, ps, e, lacks, j) = split-Pieces k s in
    elim (Bool-cases (c == k)) [
      | inl h ↦
          let same : c ≡ k = ground (arith, h) in
          ([], p ∷ ps, rw (h, e) refl, (tt, lacks), ap (λ x. x ∷ s) same ∙ ap (λ r. k ∷ r) j)
      | inr h ↦ (
        c ∷ p,
        ps,
        rw (h, e) refl,
        ((h, lacks.0), lacks.1),
        ap (λ r. c ∷ r) j ∙ join-cons k c p ps,
      )
    ]

-- A piece is cut at its first such character.
cut :
    (k : ℕ) (s : List ℕ)
    → (find_char s k ≡ [])
      ⊎ ((rest : List ℕ) × (find_char s k ≡ k ∷ rest)
          × (s ≡ before_char s k ++ k ∷ rest)
          × Lacks k (before_char s k))
cut k [] = inl refl
cut k (c ∷ s) = elim (Bool-cases (c == k)) [
  | inl h ↦
      let same : c ≡ k = ground (arith, h) in
      inr (s, rw h (ap (λ x. x ∷ s) same), rw h (ap (λ x. x ∷ s) same), rw h tt)
  | inr h ↦ elim (cut k s) [
    | inl e ↦ inl (rw h e)
    | inr (rest, e, j, lacks) ↦ inr (rest, rw h e, rw h (ap (λ r. c ∷ r) j), rw h (h, lacks))
  ]
]

pair_of-some :
    (key rest : List ℕ) (t : List ℕ × List ℕ)
    → pair_of key (b'=' ∷ rest) ≡ some t
    → ((key, rest) ≡ t) × (is_empty key ≡ false) × (is_empty rest ≡ false)
pair_of-some key rest t h = elim (Bool-cases (is_empty key)) [
  | inl e ↦ absurd (cc (rw e at h))
  | inr e ↦ elim (Bool-cases (is_empty rest)) [
    | inl g ↦ absurd (cc (rw (e, g) at h))
    | inr g ↦ (cc (rw (e, g) at h), e, g)
  ]
]

-- What `key_value` takes is a written tag.
abbrev IsTag : List ℕ → List ℕ × List ℕ → Type 0
IsTag piece t =
    (piece ≡ print_tag t) × Lacks b'=' t.0 × (is_empty t.0 ≡ false) × (is_empty t.1 ≡ false)

key_value-IsTag : (piece : List ℕ) (t : List ℕ × List ℕ) → key_value piece ≡ some t → IsTag piece t
unfolding key_value
key_value-IsTag piece t h = elim (cut b'=' piece) [
  | inl e ↦ absurd (cc (rw e at h))
  | inr (rest, e, j, lacks) ↦
      let (same, g, f) = pair_of-some (before_char piece b'=') rest t (rw e at h) in
      subst (IsTag piece) same (j, lacks, g, f)
]

key_value-Plain :
    (piece : List ℕ) (t : List ℕ × List ℕ)
    → Lacks b',' piece
    → key_value piece ≡ some t
    → (piece ≡ print_tag t) × Plain t
key_value-Plain piece t lacks h =
    let (e, l, k, v) = key_value-IsTag piece t h in (e, (l, subst (Lacks b',') e lacks, k, v))

-- What the loop takes, from some tags on.
abbrev Taken : List ℕ → CommonTags → CommonTags → Type 0
Taken text tags result =
    (t : List ℕ × List ℕ) × (ts : List (List ℕ × List ℕ)) × AllPlain (t ∷ ts)
    × (text ≡ print_common_tags t ts)
    × (result ≡ update_each tags (t ∷ ts))

add_pieces-Taken :
    (p : List ℕ) (ps : List (List ℕ)) (tags result : CommonTags)
    → AllLack b',' (p ∷ ps)
    → add_pieces tags (p ∷ ps) ≡ some result
    → Taken (join b',' p ps) tags result
unfolding add_pieces
add_pieces-Taken p [] tags result lacks h = elim (Option-cases (key_value p)) [
  | inl e ↦ absurd (cc (rw e at h))
  | inr (t, e) ↦
      let (same, plain) = key_value-Plain p t lacks.0 e in
      (t, [], (plain, tt), same, cc (rw e at h))
]
add_pieces-Taken p (q ∷ ps) tags result lacks h = elim (Option-cases (key_value p)) [
  | inl e ↦ absurd (cc (rw e at h))
  | inr (t, e) ↦
      let (same, plain) = key_value-Plain p t lacks.0 e in
      let (u, us, plains, j, made) =
        add_pieces-Taken q ps (update_common_tag tags t.0 t.1) result lacks.1 (rw e at h) in
      (
        t,
        u ∷ us,
        (plain, plains),
        ap (λ r. r ++ b',' ∷ join b',' q ps) same ∙ ap (λ r. print_tag t ++ b',' ∷ r) j,
        made,
      )
]

-- `parse_common_tags` takes the texts of written tags alone.
parse_common_tags-TagList :
    (text : List ℕ) (tags : CommonTags) → parse_common_tags text ≡ some tags → TagList text tags
unfolding parse_common_tags
parse_common_tags-TagList text tags h =
    let (p, ps, e, lacks, j) = split-Pieces b',' text in
    subst (λ x. Taken x [] tags) (sym j) (add_pieces-Taken p ps [] tags lacks (rw e at h))

-- A text is refused exactly if it is not that of written tags, and taken for the map that they make.
pub parse_common_tags-cases :
    (text : List ℕ)
    → ((parse_common_tags text ≡ none) × ((tags : CommonTags) → ¬ TagList text tags))
      ⊎ ((tags : CommonTags) × (parse_common_tags text ≡ some tags) × TagList text tags)
parse_common_tags-cases text = elim (Option-cases (parse_common_tags text)) [
  | inl e ↦ inl (
    e,
    λ tags (t, ts, plain, written, made).
        absurd (cc (e, ap parse_common_tags written, parse_common_tags-print t ts plain)),
  )
  | inr (tags, e) ↦ inr (tags, e, parse_common_tags-TagList text tags e)
]
