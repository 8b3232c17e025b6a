-- ===== src/Publisher/Payload.antt =====
-- `measurements_to_json` of spectator/publisher.h and what it calls: a table of all strings, then for each
-- measurement its tags as indices into the table, an operation and a value. A `find` that is not to fail, and that
-- the code asserts, gives `none` where it does.
pub mod Reader
pub mod Table
pub mod TagBytes
pub mod EntryBytes
pub mod StringBytes
pub mod RoundTrip
pub mod Total
use spectatord.Base.{
  ◌>>=◌, ℕ, suc, ◌+◌, ◌/◌, ◌≡◌, List, [], ◌∷◌, ◌++◌, foldl, Option, none, some, Bool, true, false,
  ◌||◌, length, if◌then◌else◌,
}
use spectatord.CText.{text_eq}
use spectatord.Float.{Float}
use spectatord.Tags.{StrRef, Tag, Tags, at, size}
use spectatord.Id.Refs
use spectatord.Meter.{Measurement}
use spectatord.Smile.{init, append_size, append_double, append_string}

-- `StrTable`, in the order of iteration.
abbrev pub StrTable : Type 0
StrTable = List (StrRef × ℕ)

abbrev pub has_key : StrRef → List StrRef → Bool
has_key s [] = false
has_key s (t ∷ ts) = text_eq t s || has_key s ts

-- `strings[key] = 0`
abbrev pub put_key : List StrRef → StrRef → List StrRef
put_key ts s = if has_key s ts then ts else s ∷ ts

-- The loop over tags.
abbrev pub put_tags : List StrRef → List Tag → List StrRef
put_tags ts [] = ts
put_tags ts (tag ∷ tags) = put_tags (put_key (put_key ts tag.key) tag.value) tags

-- `for (auto& kv : strings) kv.second = idx++`
abbrev pub number : ℕ → List StrRef → StrTable
number idx [] = []
number idx (s ∷ ts) = (s, idx) ∷ number (suc idx) ts

-- `strings.find`
unfoldable pub find : StrRef → StrTable → Option ℕ
find s [] = none
find s ((t, i) ∷ strings) = if text_eq t s then some i else find s strings

-- The loop that appends the strings.
abbrev pub append_strings : List ℕ → List StrRef → List ℕ
append_strings payload [] = payload
append_strings payload (s ∷ ts) = append_strings (append_string payload s) ts

-- `op_from_tags`: `Op::Add` is 0, and `Op::Max` is 10.
abbrev pub is_stat : Option StrRef → StrRef → Bool
is_stat none s = false
is_stat (some t) s = text_eq t s

unfoldable pub op_from_tags : Tags → ℕ
op_from_tags tags =
    let stat = at tags Refs.statistic in
    if is_stat stat Refs.count
      || is_stat stat Refs.total_amount
      || is_stat stat Refs.total_time
      || is_stat stat Refs.total_of_squares
      || is_stat stat Refs.percentile
    then 0
    else 10

unfoldable pub add_tags : List ℕ → StrTable → List Tag → Option (List ℕ)
add_tags payload strings [] = some payload
add_tags payload strings (tag ∷ tags) = do
  k ← find tag.key strings
  v ← find tag.value strings
  add_tags (append_size (append_size payload k) v) strings tags

unfoldable pub get_common_ids : StrTable → List Tag → Option (List ℕ)
get_common_ids strings [] = some []
get_common_ids strings (tag ∷ tags) = do
  k ← find tag.key strings
  v ← find tag.value strings
  ids ← get_common_ids strings tags
  some (k ∷ v ∷ ids)

-- `for (auto i : common_ids) payload->Append(i)`
abbrev pub append_sizes : List ℕ → List ℕ → List ℕ
append_sizes payload [] = payload
append_sizes payload (i ∷ is) = append_sizes (append_size payload i) is

module _ (F : Float) where
  -- The loop over measurements of `build_str_table`.
  abbrev pub put_measurements : List StrRef → List (Measurement F) → List StrRef
  put_measurements ts [] = ts
  put_measurements ts (m ∷ ms) =
      put_measurements (put_tags (put_key ts m.id.name) m.id.tags.entries) ms

  -- The keys of the table of `build_str_table`, as they come in.
  unfoldable pub str_keys : List Tag → List (Measurement F) → List StrRef
  str_keys common_tags ms = put_measurements (put_key (put_tags [] common_tags) Refs.name) ms

  -- `append_measurement`
  unfoldable pub append_measurement : List ℕ → StrTable → List ℕ → Measurement F → Option (List ℕ)
  append_measurement payload strings common_ids m = do
    let total_tags = size m.id.tags + 1 + length common_ids / 2
    let start = append_sizes (append_size payload total_tags) common_ids
    tagged ← add_tags start strings m.id.tags.entries
    name_idx ← find Refs.name strings
    name_value_idx ← find m.id.name strings
    let named = append_size (append_size tagged name_idx) name_value_idx
    some (append_double (append_size named (op_from_tags m.id.tags)) (F.bits m.value))

  unfoldable pub append_measurements :
      List ℕ → StrTable → List ℕ → List (Measurement F) → Option (List ℕ)
  append_measurements payload strings common_ids [] = some payload
  append_measurements payload strings common_ids (m ∷ ms) = do
    payload' ← append_measurement payload strings common_ids m
    append_measurements payload' strings common_ids ms

  -- `measurements_to_json`. The hash table of the sources comes from a library: `order` is its order of iteration.
  unfoldable pub measurements_to_json :
      (List StrRef → List StrRef) → List Tag → List (Measurement F) → Option (List ℕ)
  unfolding str_keys append_measurements get_common_ids
  measurements_to_json order common_tags ms = do
    let keys = order (str_keys common_tags ms)
    let strings = number 0 keys
    let payload = append_strings (append_size init (length keys)) keys
    common_ids ← get_common_ids strings common_tags
    append_measurements payload strings common_ids ms
