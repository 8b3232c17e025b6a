-- ===== src/Server/Measurement.antt =====
-- `get_measurement` of server/spectatord.cc: a name, tags and a value from `name,k=v,...:value`.
pub mod Scan
pub mod Printed
pub mod Overrun
use spectatord.Base.{
  ℕ, zero, suc, ◌+◌, ◌-◌, List, Option, none, some, Bool, true, false, ◌==◌, ◌||◌, ◌&&◌, not,
  length, take, drop, get_or, if◌then◌else◌,
}
use spectatord.CText.{deref, c_str, find_if, isspace}
use spectatord.Float.{Float}
use spectatord.Tags.{Tags, empty_tags, copy}
use spectatord.Id.{MeterId, add, make_id, intern_str}
use spectatord.Server.{CLib}

-- The union `valueT`: the member written last. The other one is read through the bits.
pub data Value (F : Float) : Type 0 where
  d : F.Double → Value F
  u : ℕ → Value F

abbrev pub value_d : (F : Float) → Value F → F.Double
value_d F (d x) = x
value_d F (u n) = F.of_bits n

abbrev pub value_u : (F : Float) → Value F → ℕ
value_u F (d x) = F.bits x
value_u F (u n) = n

-- A result carries the warning that trailing characters give.
pub data ParseResult (F : Float) : Type 0 where
  missing_name missing_value unable_to_parse_value : ParseResult F
  measured : MeterId → Value F → Bool → ParseResult F

abbrev pub is_name_end : ℕ → Bool
is_name_end c = c == b',' || c == b':'

-- `substr(from, to - from)`
abbrev pub substr : List ℕ → ℕ → ℕ → List ℕ
substr str from to = take (to - from) (drop from str)

-- `find` and `find_first_of` from a position on.
abbrev pub find_from : (ℕ → Bool) → List ℕ → ℕ → Option ℕ
find_from test str from = elim (find_if test (drop from str)) [
  | none ↦ none
  | some i ↦ some (from + i)
]

-- How the loop over the tags ends: at a position with the tags, without a value, or out of fuel.
pub data TagLoop : Type 0 where
  stop : ℕ → Tags → TagLoop
  no_value : TagLoop
  stuck : TagLoop

abbrev pub is_equals : ℕ → Bool
is_equals c = c == b'='

-- `while (measurement_str[pos] != ':')`. Each round moves on by a character at least.
unfoldable pub tag_loop : ℕ → List ℕ → ℕ → Tags → TagLoop
tag_loop zero str pos tags = stuck
tag_loop (suc fuel) str pos tags = elim (get_or str pos 0 == b':') [
  | true ↦ stop pos tags
  | false ↦ elim (find_from is_equals str (pos + 1)) [
    | none ↦ stop (pos + 1) tags
    | some k_pos ↦ elim (find_from is_name_end str (k_pos + 1)) [
      | none ↦ no_value
      | some v_pos ↦
          tag_loop fuel str v_pos
            (add tags (substr str (pos + 1) k_pos) (substr str (k_pos + 1) v_pos))
    ]
  ]
]

module _ {F : Float} (lib : CLib F) where
  -- From `++pos` on: `p` is the memory, in which the position may lie behind the terminator.
  unfoldable pub read_value : ℕ → List ℕ → List ℕ → ℕ → Tags → ParseResult F
  read_value type p name pos tags =
      let value_str = drop (pos + 1) p in
      let value : Value F × ℕ =
        if type == b'U'
        then (u (lib.strtoull value_str).0, (lib.strtoull value_str).1)
        else (d (lib.strtod value_str).0, (lib.strtod value_str).1) in
      let last_char = deref (drop value.1 value_str) in
      if value.1 == 0
      then unable_to_parse_value
      else measured (make_id (intern_str name) (copy tags)) value.0
          (not (last_char == 0) && not (isspace last_char))

  abbrev pub after_tags : ℕ → List ℕ → List ℕ → TagLoop → ParseResult F
  after_tags type p name (stop pos tags) = read_value type p name pos tags
  after_tags type p name no_value = missing_value
  after_tags type p name stuck = missing_value

  abbrev pub after_name : ℕ → List ℕ → Option ℕ → ParseResult F
  after_name type p none = missing_name
  after_name type p (some zero) = missing_name
  after_name type p (some (suc i)) =
      let str = c_str p in
      let name = take (suc i) str in
      if get_or str (suc i) 0 == b','
      then after_tags type p name (tag_loop (suc (length str)) str (suc i) empty_tags)
      else read_value type p name (suc i) empty_tags

  -- `get_measurement`, of the memory at a pointer.
  unfoldable pub get_measurement : ℕ → List ℕ → ParseResult F
  unfolding read_value tag_loop
  get_measurement type p = after_name type p (find_if is_name_end (c_str p))
