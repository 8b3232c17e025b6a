-- ===== src/Publisher/Payload/RoundTrip.antt =====
-- `measurements_to_json` of spectator/publisher.h, and the reader of the format.
use spectatord.Base.{
  ℕ, zero, suc, ◌^◌, ◌≤◌, ◌<◌, ◌≡◌, refl, sym, ap, subst, ◌∙◌, List, [], ◌∷◌, ◌++◌, some, true,
  false, arith, length, append_assoc, append-nil, length-append, map, ◌>>=◌,
}
use spectatord.Float.{Float}
use spectatord.Tags.{StrRef, Tag}
use spectatord.Id.Refs
use spectatord.Meter.{Measurement}
use spectatord.Smile.{init, result, append_size}
use spectatord.Smile.RoundTrip.{append_size_lem}
use spectatord.Publisher.Payload.{
  has_key, number, str_keys, append_strings, append_measurements, measurements_to_json,
}
use spectatord.Publisher.Payload.Table.{
  HasTags-Includes, HasMeasurements, HasMeasurements-Includes, str_keys-has,
}
use spectatord.Publisher.Payload.TagBytes.{
  read_int-append_size, Precomputed, get_common_ids-Precomputed,
}
use spectatord.Publisher.Payload.Reader.{
  Entry, is_end, read_entry, read_entries, read_body, read_payload,
}
use spectatord.Publisher.Payload.EntryBytes.{
  entry_of, AllFit, Appended, append_measurement-Appended,
}
use spectatord.Publisher.Payload.StringBytes.{
  AllAscii, Reorders, append_strings_lem, read_strings-append_strings, Permᴰ-length, Permᴰ-Includes,
  Permᴰ-AllAscii,
}

is_end-long : (bytes rest : List ℕ) → 2 ≤ length bytes → is_end (bytes ++ rest) ≡ false
is_end-long [] rest h = absurd (omega (arith, h))
is_end-long (b ∷ []) rest h = absurd (omega (arith, h))
is_end-long (b ∷ c ∷ bytes) rest h = refl

module _ (F : Float) (common_tags : List Tag) where
  module _ (ts : List StrRef) (small : length ts < 2 ^ 19)
      (common : Precomputed ts small common_tags) where
    record AppendedAll (ms : List (Measurement F)) : Type 0 where
      bytes : List ℕ
      appended :
          (payload : List ℕ)
          → append_measurements F payload (number 0 ts) common.ids ms ≡ some (payload ++ bytes)
      back :
          (fuel : ℕ)
          → length ms < fuel
          → read_entries fuel ts (bytes ++ 0xF9 ∷ []) ≡ some (map (entry_of F common_tags) ms)
      long : length ms ≤ length bytes

    read_end : (fuel : ℕ) → 0 < fuel → read_entries fuel ts (0xF9 ∷ []) ≡ some []
    unfolding read_entries
    read_end zero h = absurd (omega (arith, h))
    read_end (suc fuel) h = refl

    entries_step :
        (fuel : ℕ) (bytes rest : List ℕ) (e : Entry) (es : List Entry)
        → is_end bytes ≡ false
        → read_entry ts bytes ≡ some (e, rest)
        → read_entries fuel ts rest ≡ some es
        → read_entries (suc fuel) ts bytes ≡ some (e ∷ es)
    unfolding read_entries
    entries_step fuel bytes rest e es n h hs = rw (read_entries, n) (rw (h, hs) refl)

    read_more :
        (m : Measurement F) (ms : List (Measurement F))
        (one : Appended F common_tags ts small common m) (more : AppendedAll ms) (fuel : ℕ)
        → suc (length ms) < fuel
        → read_entries fuel ts ((one.bytes ++ more.bytes) ++ 0xF9 ∷ [])
          ≡ some (entry_of F common_tags m ∷ map (entry_of F common_tags) ms)
    unfolding read_entries
    read_more m ms one more zero h = absurd (omega (arith, h))
    read_more m ms one more (suc fuel) h =
        let rest = more.bytes ++ 0xF9 ∷ [] in
        ap (read_entries (suc fuel) ts) (append_assoc one.bytes more.bytes (0xF9 ∷ []))
        ∙ entries_step fuel _ rest _ _ (is_end-long one.bytes rest one.long) (one.back rest)
            (more.back fuel (omega (arith, h)))

    append_measurements-AppendedAll :
        (ms : List (Measurement F))
        → AllFit F common_tags ms
        → has_key Refs.name ts ≡ true
        → HasMeasurements F ts ms
        → AppendedAll ms
    unfolding append_measurements read_entries
    append_measurements-AppendedAll [] fits hk hm = record {
      bytes = [];
      appended = λ payload. ap some (sym (append-nil payload));
      back = read_end;
      long = omega arith;
    }
    append_measurements-AppendedAll (m ∷ ms) fits hk hm =
        let one = append_measurement-Appended F common_tags ts small common m fits.0 hm.0 hk hm.1 in
        let more = append_measurements-AppendedAll ms fits.1 hk hm.2 in
        record {
          bytes = one.bytes ++ more.bytes;
          appended = λ payload.
              rw (one.appended payload)
                (more.appended _ ∙ ap some (append_assoc payload one.bytes more.bytes));
          back = read_more m ms one more;
          long = omega (arith, one.long, more.long, length-append one.bytes more.bytes);
        }

  -- What the writer relies on for a batch: the table has fewer than 2 ^ 19 strings, of ASCII, and all entries fit.
  pub record Sendable (order : List StrRef → List StrRef) (ms : List (Measurement F)) : Type 0 where
    pub reorders : Reorders order
    pub few : length (str_keys F common_tags ms) < 2 ^ 19
    pub ascii : AllAscii (str_keys F common_tags ms)
    pub fit : AllFit F common_tags ms

  table : List StrRef → List ℕ
  table ts = append_size [] (length ts) ++ append_strings [] ts

  table_lem :
      (ts : List StrRef) (bytes : List ℕ)
      → append_strings (append_size init (length ts)) ts ++ bytes ≡ init ++ (table ts ++ bytes)
  unfolding table
  table_lem ts bytes =
      ap (λ p. p ++ bytes)
        (append_strings_lem ts _
          ∙ ap (λ p. p ++ append_strings [] ts) (append_size_lem init (length ts))
          ∙ append_assoc init (append_size [] (length ts)) (append_strings [] ts))
      ∙ append_assoc init (append_size [] (length ts) ++ append_strings [] ts) bytes

  read_body-table :
      (ts : List StrRef) (bytes : List ℕ) (fuel : ℕ)
      → length ts < 2 ^ 19
      → AllAscii ts
      → read_body fuel (table ts ++ bytes) ≡ read_entries fuel ts bytes
  unfolding table
  read_body-table ts bytes fuel small ascii =
      ap (read_body fuel) (append_assoc (append_size [] (length ts)) (append_strings [] ts) bytes)
      ∙ rw
          (
            read_int-append_size (length ts) (append_strings [] ts ++ bytes) small,
            read_strings-append_strings ts bytes ascii,
          )
          refl

  read_payload-init :
      (ts : List StrRef) (bytes : List ℕ) (es : List Entry)
      → length ts < 2 ^ 19
      → AllAscii ts
      → ((fuel : ℕ) → length bytes < fuel → read_entries fuel ts (bytes ++ 0xF9 ∷ []) ≡ some es)
      → read_payload (result (init ++ (table ts ++ bytes))) ≡ some es
  unfolding read_payload result init
  read_payload-init ts bytes es small ascii h =
      let fuel = length ((init ++ (table ts ++ bytes)) ++ 0xF9 ∷ []) in
      ap (read_body fuel) (append_assoc (table ts) bytes (0xF9 ∷ []))
      ∙ read_body-table ts (bytes ++ 0xF9 ∷ []) fuel small ascii
      ∙ h fuel (
          omega
            (arith, length-append (table ts ++ bytes) (0xF9 ∷ []), length-append (table ts) bytes))

  -- The reader gets back from a payload, in order, each measurement with the common tags, its own tags and its name, its
  -- operation and the bits of its value. No lookup of a string fails. The strings are ASCII and fewer than 2 ^ 19, as are
  -- the tags of a measurement; the table is written in any order of iteration.
  pub read_payload-measurements_to_json :
      (order : List StrRef → List StrRef) (ms : List (Measurement F))
      → Sendable order ms
      → (measurements_to_json F order common_tags ms >>= λ payload. read_payload (result payload))
        ≡ some (map (entry_of F common_tags) ms)
  unfolding measurements_to_json
  read_payload-measurements_to_json order ms ok =
      let keys = str_keys F common_tags ms in
      let ts = order keys in
      let d = ok.reorders keys in
      let has = str_keys-has F common_tags ms in
      let small = subst (λ n. n < 2 ^ 19) (Permᴰ-length d) ok.few in
      let inc = Permᴰ-Includes d in
      let common =
        get_common_ids-Precomputed ts small common_tags
          (HasTags-Includes common_tags keys ts inc has.0) in
      let all =
        append_measurements-AppendedAll ts small common ms ok.fit (inc Refs.name has.1)
          (HasMeasurements-Includes F ms keys ts inc has.2) in
      rw (common.looked_up, all.appended _, table_lem ts all.bytes)
        (read_payload-init ts all.bytes _ small (Permᴰ-AllAscii d ok.ascii)
          (λ fuel h. all.back fuel (omega (arith, all.long, h))))
