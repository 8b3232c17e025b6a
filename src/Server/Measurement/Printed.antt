-- ===== src/Server/Measurement/Printed.antt =====
-- What the parser reads from a measurement that is written as `name,k=v,...:value`.
use spectatord.Base.{
  ℕ, zero, suc, ◌+◌, ◌≤◌, ◌<◌, ◌≡◌, refl, ap, ap₂, ◌∙◌, List, [], ◌∷◌, ◌++◌, some, true, false,
  ◌==◌, ◌||◌, not, if◌then◌else◌, length, drop, get_or, arith, length-append,
}
use spectatord.CText.{c_str, find_if, deref, isspace}
use spectatord.Float.{Float}
use spectatord.Tags.{Tags, empty_tags, copy}
use spectatord.Id.{add, make_id, intern_str}
use spectatord.Server.{CLib}
use spectatord.Server.Measurement.Scan.{
  all_chars, key_char, value_char, all_tags, printed_tags, added, take-append, get_or-append,
  find_equals, find_end, drop-at, drop-key, find_from-drop, substr-drop, regroup, length-regroup,
}
use spectatord.Server.Measurement.{
  is_name_end, is_equals, substr, find_from, TagLoop, stop, tag_loop, read_value, after_name,
  get_measurement, Value, ParseResult, unable_to_parse_value, measured,
}

tag_loop_step :
    (fuel : ℕ) (str : List ℕ) (p k_pos v_pos : ℕ) (tags : Tags)
    → (get_or str p 0 == b':') ≡ false
    → find_from is_equals str (p + 1) ≡ some k_pos
    → find_from is_name_end str (k_pos + 1) ≡ some v_pos
    → tag_loop (suc fuel) str p tags
      ≡ tag_loop fuel str v_pos (add tags (substr str (p + 1) k_pos) (substr str (k_pos + 1) v_pos))
unfolding tag_loop
tag_loop_step fuel str p k_pos v_pos tags h k v = rw (tag_loop, h, k, v) refl

-- A round of the loop, from the text before the tag on.
tag_loop_round :
    (fuel : ℕ) (before k v ys : List ℕ) (c : ℕ) (tags : Tags)
    → all_chars key_char k ≡ true
    → all_chars value_char v ≡ true
    → is_name_end c ≡ true
    → let str = before ++ b',' ∷ (k ++ b'=' ∷ (v ++ c ∷ ys)) in
      tag_loop (suc fuel) str (length before) tags
      ≡ tag_loop fuel str (length before + 1 + length k + 1 + length v) (add tags k v)
tag_loop_round fuel before k v ys c tags hk hv hc =
    let str = before ++ b',' ∷ (k ++ b'=' ∷ (v ++ c ∷ ys)) in
    let key_at = drop-at before (k ++ b'=' ∷ (v ++ c ∷ ys)) b',' (length before + 1) refl in
    let value_at =
      drop-key before k (v ++ c ∷ ys) b',' b'=' (length before + 1 + length k + 1) refl in
    tag_loop_step fuel str (length before) _ _ tags
      (ap (λ d. d == b':') (get_or-append before (k ++ b'=' ∷ (v ++ c ∷ ys)) b','))
      (find_from-drop is_equals str _ (length before + 1) (length k) key_at (find_equals k _ hk))
      (find_from-drop is_name_end str _ (length before + 1 + length k + 1) (length v) value_at
        (find_end v ys c hv hc))
    ∙ ap₂
        (λ (key value : List ℕ).
          tag_loop fuel str (length before + 1 + length k + 1 + length v) (add tags key value))
        (substr-drop str k _ (length before + 1) (length before + 1 + length k) key_at refl)
        (substr-drop str v _ (length before + 1 + length k + 1)
          (length before + 1 + length k + 1 + length v) value_at refl)

-- The text that the loop starts with, and the position at which it is to stop.
abbrev at_end : List ℕ → List (List ℕ × List ℕ) → List ℕ
at_end before [] = before
at_end before ((k, v) ∷ kvs) = at_end (before ++ b',' ∷ (k ++ b'=' ∷ v)) kvs

tag_loop-colon :
    (fuel : ℕ) (before rest : List ℕ) (tags : Tags)
    → tag_loop (suc fuel) (before ++ b':' ∷ rest) (length before) tags ≡ stop (length before) tags
unfolding tag_loop
tag_loop-colon fuel before rest tags = rw (tag_loop, get_or-append before rest b':') refl

tag_loop_moved :
    (fuel : ℕ) (before k v r : List ℕ) (tags : Tags) (result : TagLoop)
    → tag_loop fuel
        ((before ++ b',' ∷ (k ++ b'=' ∷ v)) ++ r)
        (length (before ++ b',' ∷ (k ++ b'=' ∷ v)))
        tags
      ≡ result
    → tag_loop fuel
        (before ++ b',' ∷ (k ++ b'=' ∷ (v ++ r)))
        (length before + 1 + length k + 1 + length v)
        tags
      ≡ result
tag_loop_moved fuel before k v r tags result h =
    ap₂ (λ (str : List ℕ) (p : ℕ). tag_loop fuel str p tags) (regroup before k v r b',' b'=')
      (length-regroup before k v b',' b'=')
    ∙ h

tag_loop-printed_tags :
    (kvs : List (List ℕ × List ℕ)) (fuel : ℕ) (before rest : List ℕ) (tags : Tags)
    → all_tags kvs ≡ true
    → length kvs < fuel
    → tag_loop fuel (before ++ printed_tags kvs (b':' ∷ rest)) (length before) tags
      ≡ stop (length (at_end before kvs)) (added tags kvs)
tag_loop-printed_tags kvs zero before rest tags h e = ground arith
tag_loop-printed_tags [] (suc fuel) before rest tags h e = tag_loop-colon fuel before rest tags
tag_loop-printed_tags ((k, v) ∷ []) (suc fuel) before rest tags h e =
    tag_loop_round fuel before k v rest b':' tags (ground arith) (ground arith) refl
    ∙ tag_loop_moved fuel before k v (b':' ∷ rest) (add tags k v) _ (
        tag_loop-printed_tags [] fuel (before ++ b',' ∷ (k ++ b'=' ∷ v)) rest (add tags k v) refl
          (omega arith))
tag_loop-printed_tags ((k, v) ∷ (j, w) ∷ kvs) (suc fuel) before rest tags h e =
    tag_loop_round fuel before k v (j ++ b'=' ∷ (w ++ printed_tags kvs (b':' ∷ rest))) b',' tags
      (ground arith) (ground arith) refl
    ∙ tag_loop_moved fuel before k v (printed_tags ((j, w) ∷ kvs) (b':' ∷ rest)) (add tags k v) _ (
        tag_loop-printed_tags ((j, w) ∷ kvs) fuel (before ++ b',' ∷ (k ++ b'=' ∷ v)) rest
          (add tags k v) (ground arith) (omega arith))

drop-printed_tags :
    (kvs : List (List ℕ × List ℕ)) (before value : List ℕ)
    → drop (length (at_end before kvs) + 1) (before ++ printed_tags kvs (b':' ∷ value)) ≡ value
drop-printed_tags [] before value = drop-at before value b':' (length before + 1) refl
drop-printed_tags ((k, v) ∷ kvs) before value =
    let before' = before ++ b',' ∷ (k ++ b'=' ∷ v) in
    ap (drop (length (at_end before' kvs) + 1))
      (regroup before k v (printed_tags kvs (b':' ∷ value)) b',' b'=')
    ∙ drop-printed_tags kvs before' value

pub c_str-value : (v r : List ℕ) → all_chars value_char v ≡ true → c_str (v ++ r) ≡ v ++ c_str r
c_str-value [] r h = refl
c_str-value (c ∷ v) r h = ground (arith, c_str-value v r)

c_str-key : (k r : List ℕ) → all_chars key_char k ≡ true → c_str (k ++ r) ≡ k ++ c_str r
c_str-key [] r h = refl
c_str-key (c ∷ k) r h = ground (arith, c_str-key k r)

c_str-printed_tags :
    (kvs : List (List ℕ × List ℕ)) (value : List ℕ)
    → all_tags kvs ≡ true
    → c_str (printed_tags kvs (b':' ∷ value)) ≡ printed_tags kvs (b':' ∷ c_str value)
c_str-printed_tags [] value h = refl
c_str-printed_tags ((k, v) ∷ kvs) value h =
    ap (λ r. b',' ∷ r)
      (c_str-key k _ (ground arith)
        ∙ ap (λ r. k ++ b'=' ∷ r)
            (c_str-value v _ (ground arith)
              ∙ ap (λ r. v ++ r) (c_str-printed_tags kvs value (ground arith))))

find_name :
    (kvs : List (List ℕ × List ℕ)) (name rest : List ℕ)
    → all_chars value_char name ≡ true
    → find_if is_name_end (name ++ printed_tags kvs (b':' ∷ rest)) ≡ some (length name)
find_name [] name rest h = find_end name rest b':' h refl
find_name ((k, v) ∷ kvs) name rest h = find_end name _ b',' h refl

length-printed_tags :
    (kvs : List (List ℕ × List ℕ)) (rest : List ℕ) → length kvs ≤ length (printed_tags kvs rest)
length-printed_tags [] rest = omega arith
length-printed_tags ((k, v) ∷ kvs) rest = omega (
  arith,
  length-append k (b'=' ∷ (v ++ printed_tags kvs rest)),
  length-append v (printed_tags kvs rest),
  length-printed_tags kvs rest,
)

enough_fuel :
    (kvs : List (List ℕ × List ℕ)) (before rest : List ℕ)
    → length kvs < suc (length (before ++ printed_tags kvs (b':' ∷ rest)))
enough_fuel kvs before rest = omega (
  arith,
  length-append before (printed_tags kvs (b':' ∷ rest)),
  length-printed_tags kvs (b':' ∷ rest),
)

module _ {F : Float} (lib : CLib F) where
  -- The number at the start of a text, and how many characters it has.
  abbrev pub number_of : ℕ → List ℕ → Value F × ℕ
  number_of type text =
      if type == b'U'
      then (Value.u (lib.strtoull text).0, (lib.strtoull text).1)
      else (Value.d (lib.strtod text).0, (lib.strtod text).1)

  -- What is to come of a name, tags and the text of a value: an error without a number at its start, else the number for
  -- the name with the tags, and a warning if what follows the number is neither the end nor a space.
  abbrev pub expected : ℕ → List ℕ → Tags → List ℕ → ParseResult F
  expected type name tags text =
      let number = number_of type text in
      let next = deref (drop number.1 text) in
      if number.1 == 0
      then unable_to_parse_value
      else measured (make_id (intern_str name) (copy tags)) number.0
          (not (next == 0 || isspace next))

  pub read_value-expected :
      (type : ℕ) (p name value : List ℕ) (i : ℕ) (tags : Tags)
      → drop (i + 1) p ≡ value
      → read_value lib type p name i tags ≡ expected type name tags value
  unfolding read_value
  read_value-expected type p name value i tags h = rw (read_value, h) (ground arith)

  -- The name of a measurement that is printed ends where its tags or its value begin.
  after_name-printed :
      (type c : ℕ) (name value : List ℕ) (kvs : List (List ℕ × List ℕ)) (p : List ℕ)
      → c_str p ≡ (c ∷ name) ++ printed_tags kvs (b':' ∷ c_str value)
      → all_tags kvs ≡ true
      → drop (length (at_end (c ∷ name) kvs) + 1) p ≡ value
      → after_name lib type p (some (suc (length name)))
        ≡ expected type (c ∷ name) (added empty_tags kvs) value
  after_name-printed type c name value [] p e h d =
      let rest = b':' ∷ c_str value in
      rw (e, get_or-append name (c_str value) b':', take-append name rest)
        (read_value-expected type p (c ∷ name) value (suc (length name)) empty_tags d)
  after_name-printed type c name value ((k, v) ∷ kvs) p e h d =
      let rest = printed_tags ((k, v) ∷ kvs) (b':' ∷ c_str value) in
      let ended =
        tag_loop-printed_tags ((k, v) ∷ kvs) (suc (length ((c ∷ name) ++ rest))) (c ∷ name)
          (c_str value) empty_tags h (enough_fuel ((k, v) ∷ kvs) (c ∷ name) (c_str value)) in
      rw
        (
          e,
          get_or-append name (k ++ b'=' ∷ (v ++ printed_tags kvs (b':' ∷ c_str value))) b',',
          take-append name rest,
          ended,
        )
        (read_value-expected type p (c ∷ name) value (length (at_end (c ∷ name) ((k, v) ∷ kvs)))
          (added empty_tags ((k, v) ∷ kvs)) d)

  -- A measurement that is printed as a name, tags and a value is read back: with a name of one character at least that
  -- holds no `,`, no `:` and no terminator, keys without `=` and terminators, and values like the name, the result is an
  -- error if no number stands behind the colon, else that number for the id of this name with these tags added in order,
  -- with a warning if the number is followed by what is neither the end nor a space.
  pub get_measurement-printed :
      (type c : ℕ) (name value : List ℕ) (kvs : List (List ℕ × List ℕ))
      → all_chars value_char (c ∷ name) ≡ true
      → all_tags kvs ≡ true
      → get_measurement lib type ((c ∷ name) ++ printed_tags kvs (b':' ∷ value))
        ≡ expected type (c ∷ name) (added empty_tags kvs) value
  unfolding get_measurement
  get_measurement-printed type c name value kvs hn h =
      let p = (c ∷ name) ++ printed_tags kvs (b':' ∷ value) in
      let e : c_str p ≡ (c ∷ name) ++ printed_tags kvs (b':' ∷ c_str value) =
        c_str-value (c ∷ name) _ hn ∙ ap (λ r. (c ∷ name) ++ r) (c_str-printed_tags kvs value h) in
      ap (after_name lib type p)
        (ap (find_if is_name_end) e ∙ find_name kvs (c ∷ name) (c_str value) hn)
      ∙ after_name-printed type c name value kvs p e h (drop-printed_tags kvs (c ∷ name) value)
