-- ===== src/Publisher/Payload/EntryBytes.antt =====
-- The bytes of `append_measurement`, in spectator/publisher.h, and the reader of entries.
use spectatord.Base.{
  ℕ, suc, ◌+◌, ◌/◌, ◌^◌, ◌≤◌, ◌<◌, ◌≡◌, refl, ap, ap₂, ◌∙◌, List, [], ◌∷◌, ◌++◌, some, true, arith,
  length, append_assoc, append-nil, length-append,
}
use spectatord.Float.{Float}
use spectatord.Tags.{StrRef, Tag, Tags, size}
use spectatord.Id.Refs
use spectatord.Meter.{Measurement}
use spectatord.Smile.{append_size, append_double}
use spectatord.Smile.RoundTrip.{append_size_lem, append_double_lem}
use spectatord.Publisher.Payload.{has_key, number, append_sizes, append_measurement, op_from_tags}
use spectatord.Publisher.Payload.Table.{HasTags, find-Indexed}
use spectatord.Publisher.Payload.TagBytes.{
  pairs, read_int-append_size, read_float-append_double, Written, Written-tag, Written-none,
  Written-append, Precomputed, add_tags-Added,
}
use spectatord.Publisher.Payload.Reader.{Entry, read_tags, read_entry}

flat :
    (p a b c d e f g : List ℕ)
    → ((((((p ++ a) ++ b) ++ c) ++ d) ++ e) ++ f) ++ g
      ≡ p ++ (a ++ ((b ++ (c ++ (d ++ (e ++ [])))) ++ (f ++ g)))
flat p a b c d e f g = simp (append_assoc, append-nil)

five : (a b c d e : List ℕ) → (a ++ (b ++ (c ++ d))) ++ e ≡ a ++ (b ++ (c ++ (d ++ e)))
five a b c d e = simp (append_assoc)

ends_long : (a b c : List ℕ) (l : ℕ) → 2 ≤ length (a ++ (b ++ (c ++ append_double [] l)))
unfolding append_double
ends_long a b c l = omega (
  arith,
  length-append a (b ++ (c ++ append_double [] l)),
  length-append b (c ++ append_double [] l),
  length-append c (append_double [] l),
)

module _ (F : Float) (common_tags : List Tag) where
  -- What the backend is to see of a measurement: the common tags, its own, and its name; the operation; the value's bits.
  abbrev pub entry_of : Measurement F → Entry
  entry_of m = record {
    tags = pairs common_tags ++ (pairs m.id.tags.entries ++ (Refs.name, m.id.name) ∷ []);
    op = op_from_tags m.id.tags;
    bits = F.bits m.value;
  }

  -- The number of tags has a short form, and the value has 64 bits.
  abbrev pub Fits : Measurement F → Type 0
  Fits m = (length common_tags + size m.id.tags + 1 < 2 ^ 19) × (F.bits m.value < 2 ^ 64)

  abbrev pub AllFit : List (Measurement F) → Type 0
  AllFit [] = Unit {0}
  AllFit (m ∷ ms) = Fits m × AllFit ms

  op-small : (tags : Tags) → op_from_tags tags < 2 ^ 19
  unfolding op_from_tags
  op-small tags = ground arith

  module _ (ts : List StrRef) (small : length ts < 2 ^ 19)
      (common : Precomputed ts small common_tags) where
    pub record Appended (m : Measurement F) : Type 0 where
      pub bytes : List ℕ
      pub appended :
          (payload : List ℕ)
          → append_measurement F payload (number 0 ts) common.ids m ≡ some (payload ++ bytes)
      pub back : (rest : List ℕ) → read_entry ts (bytes ++ rest) ≡ some (entry_of m, rest)
      pub long : 2 ≤ length bytes

    length-pairs : (tags : List Tag) → length (pairs tags) ≡ length tags
    length-pairs [] = refl
    length-pairs (tag ∷ tags) = ap suc (length-pairs tags)

    -- What follows the start of an entry.
    whole :
        (payload own : List ℕ) (total k v op bits : ℕ)
        → append_double
            (append_size
              (append_size
                (append_size (append_sizes (append_size payload total) common.ids ++ own) k)
                v)
              op)
            bits
          ≡ payload
            ++ (append_size [] total
                ++ ((common.bytes ++ (own ++ (append_size [] k ++ (append_size [] v ++ []))))
                    ++ (append_size [] op ++ append_double [] bits)))
    whole payload own total k v op bits =
        append_double_lem _ bits
        ∙ ap (λ p. p ++ append_double [] bits)
            (append_size_lem _ op
              ∙ ap (λ p. p ++ append_size [] op)
                  (append_size_lem _ v
                    ∙ ap (λ p. p ++ append_size [] v)
                        (append_size_lem _ k
                          ∙ ap (λ p. (p ++ own) ++ append_size [] k)
                              (common.added _
                                ∙ ap (λ p. p ++ common.bytes) (append_size_lem payload total)))))
        ∙ flat payload (append_size [] total) common.bytes own (append_size [] k) (append_size [] v)
            (append_size [] op) (append_double [] bits)

    read_one :
        (m : Measurement F) (total : ℕ) (tag_bytes rest : List ℕ)
        → total < 2 ^ 19
        → total ≡ length (entry_of m).tags + 0
        → Written ts small (entry_of m).tags tag_bytes
        → F.bits m.value < 2 ^ 64
        → read_entry ts (
            (append_size [] total
              ++ (tag_bytes
                  ++ (append_size [] (op_from_tags m.id.tags)
                      ++ append_double [] (F.bits m.value))))
            ++ rest)
          ≡ some (entry_of m, rest)
    unfolding read_entry read_tags op_from_tags
    read_one m total tag_bytes rest ht e w hb =
        let op = op_from_tags m.id.tags in
        let last = append_double [] (F.bits m.value) ++ rest in
        ap (read_entry ts) (
          five (append_size [] total) tag_bytes (append_size [] op)
            (append_double [] (F.bits m.value)) rest)
        ∙ rw
            (
              read_int-append_size total (tag_bytes ++ (append_size [] op ++ last)) ht,
              w total 0 (append_size [] op ++ last) e,
              append-nil (entry_of m).tags,
              read_int-append_size op last (op-small m.id.tags),
              read_float-append_double (F.bits m.value) rest hb,
            )
            refl

    count_tags :
        (m : Measurement F) → length (entry_of m).tags ≡ length common_tags + (size m.id.tags + 1)
    count_tags m =
        length-append (pairs common_tags) _
        ∙ ap₂ (λ a b. a + b) (length-pairs common_tags)
            (length-append (pairs m.id.tags.entries) _
              ∙ ap (λ a. a + 1) (length-pairs m.id.tags.entries))

    pub append_measurement-Appended :
        (m : Measurement F)
        → Fits m
        → has_key m.id.name ts ≡ true
        → has_key Refs.name ts ≡ true
        → HasTags ts m.id.tags.entries
        → Appended m
    unfolding append_measurement
    append_measurement-Appended m fits hn hk ht =
        let k = find-Indexed ts Refs.name hk in
        let v = find-Indexed ts m.id.name hn in
        let own = add_tags-Added ts small m.id.tags.entries ht in
        let total = size m.id.tags + 1 + length common.ids / 2 in
        let tag_bytes =
          common.bytes
          ++ (own.bytes ++ (append_size [] k.place ++ (append_size [] v.place ++ []))) in
        record {
          bytes =
              append_size [] total
              ++ (tag_bytes
                  ++ (append_size [] (op_from_tags m.id.tags)
                      ++ append_double [] (F.bits m.value)));
          appended = λ payload.
              rw (own.added _, k.found, v.found)
                (ap some (
                  whole payload own.bytes total k.place v.place (op_from_tags m.id.tags)
                    (F.bits m.value)));
          back = λ rest.
              read_one m total tag_bytes rest (omega (arith, common.doubled, fits.0))
                (omega (arith, common.doubled, count_tags m))
                (Written-append ts small (pairs common_tags) _ common.bytes _ common.written (
                  Written-append ts small (pairs m.id.tags.entries) _ own.bytes _ own.written (
                    Written-tag ts small Refs.name m.id.name k.place v.place [] [] k.inside k.there
                      v.inside v.there (Written-none ts small))))
                fits.1;
          long =
              ends_long (append_size [] total) tag_bytes (append_size [] (op_from_tags m.id.tags))
                (F.bits m.value);
        }
