-- ===== src/Server/Measurement/Overrun.antt =====
-- What the parser reads from a measurement that ends behind a comma.
use spectatord.Base.{
  ℕ, suc, ◌+◌, ◌≡◌, refl, ap, ◌∙◌, List, [], ◌∷◌, ◌++◌, none, some, true, length, drop, arith,
}
use spectatord.CText.{c_str, find_if}
use spectatord.Float.{Float}
use spectatord.Tags.{Tags, empty_tags}
use spectatord.Server.{CLib}
use spectatord.Server.Measurement.Printed.{c_str-value, expected, read_value-expected}
use spectatord.Server.Measurement.Scan.{
  all_chars, value_char, take-append, get_or-append, find_end, drop-at, drop-key,
}
use spectatord.Server.Measurement.{
  is_name_end, is_equals, find_from, stop, tag_loop, after_name, get_measurement,
}

module _ {F : Float} (lib : CLib F) where
  no_equals :
      (before : List ℕ) → find_if is_equals (drop (length before + 1) (before ++ b',' ∷ [])) ≡ none
  no_equals before = ap (find_if is_equals) (drop-at before [] b',' (length before + 1) refl)

  cut_loop :
      (fuel : ℕ) (before : List ℕ) (tags : Tags)
      → tag_loop (suc fuel) (before ++ b',' ∷ []) (length before) tags
        ≡ stop (length before + 1) tags
  unfolding tag_loop
  cut_loop fuel before tags =
      rw (tag_loop, get_or-append before [] b',', find_from, no_equals before) refl

  after_name_overrun :
      (type c : ℕ) (name p after : List ℕ)
      → c_str p ≡ (c ∷ name) ++ b',' ∷ []
      → drop (length (c ∷ name) + 1 + 1) p ≡ after
      → after_name lib type p (some (suc (length name)))
        ≡ expected lib type (c ∷ name) empty_tags after
  after_name_overrun type c name p after e d =
      rw
        (
          e,
          get_or-append name [] b',',
          take-append name (b',' ∷ []),
          cut_loop (length ((c ∷ name) ++ b',' ∷ [])) (c ∷ name) empty_tags,
        )
        (read_value-expected lib type p (c ∷ name) after (length (c ∷ name) + 1) empty_tags d)

  -- A measurement that ends behind the comma after its name gets its value from the memory behind the terminator: the
  -- number that stands there, for the id of the name without tags, or the error that no number stands there.
  pub get_measurement_overrun :
      (type c : ℕ) (name after : List ℕ)
      → all_chars value_char (c ∷ name) ≡ true
      → get_measurement lib type ((c ∷ name) ++ b',' ∷ 0 ∷ after)
        ≡ expected lib type (c ∷ name) empty_tags after
  unfolding get_measurement
  get_measurement_overrun type c name after hn =
      let p = (c ∷ name) ++ b',' ∷ 0 ∷ after in
      let e : c_str p ≡ (c ∷ name) ++ b',' ∷ [] = c_str-value (c ∷ name) (b',' ∷ 0 ∷ after) hn in
      let behind : drop (length (c ∷ name) + 1 + 1) p ≡ after =
        drop-key (c ∷ name) [] after b',' 0 (length (c ∷ name) + 1 + 1) (omega arith) in
      ap (after_name lib type p) (ap (find_if is_name_end) e ∙ find_end (c ∷ name) [] b',' hn refl)
      ∙ after_name_overrun type c name p after e behind
