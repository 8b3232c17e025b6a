-- ===== src/Publisher/Payload/Table.antt =====
-- The table of strings of spectator/publisher.h, and the indices into it.
use spectatord.Base.{
  ℕ, suc, ◌+◌, ◌<◌, ◌≡◌, ap, ◌∙◌, List, [], ◌∷◌, some, true, arith, length, get_elem?, Bool-cases,
  inl, inr,
}
use spectatord.CText.{text_eq}
use spectatord.CText.Order.{text_eq→eq, text_eq_refl}
use spectatord.Float.{Float}
use spectatord.Tags.{StrRef, Tag}
use spectatord.Id.Refs
use spectatord.Meter.{Measurement}
use spectatord.Publisher.Payload.{
  has_key, put_key, put_tags, number, find, put_measurements, str_keys,
}

-- Keys of one list are keys of the other.
abbrev pub Includes : List StrRef → List StrRef → Type 0
Includes ts us = (s : StrRef) → has_key s ts ≡ true → has_key s us ≡ true

abbrev pub HasTags : List StrRef → List Tag → Type 0
HasTags ts [] = Unit {0}
HasTags ts (tag ∷ tags) =
    (has_key tag.key ts ≡ true) × (has_key tag.value ts ≡ true) × HasTags ts tags

put_key-has : (ts : List StrRef) (s : StrRef) → has_key s (put_key ts s) ≡ true
put_key-has ts s = ground (arith, text_eq_refl s)

put_key-Includes : (ts : List StrRef) (s : StrRef) → Includes ts (put_key ts s)
put_key-Includes ts s u h = ground arith

put_tags-Includes : (tags : List Tag) (ts : List StrRef) → Includes ts (put_tags ts tags)
put_tags-Includes [] ts u h = h
put_tags-Includes (tag ∷ tags) ts u h =
    put_tags-Includes tags _ u
      (put_key-Includes (put_key ts tag.key) tag.value u (put_key-Includes ts tag.key u h))

pub HasTags-Includes :
    (tags : List Tag) (ts us : List StrRef) → Includes ts us → HasTags ts tags → HasTags us tags
HasTags-Includes [] ts us i h = tt
HasTags-Includes (tag ∷ tags) ts us i h =
    (i tag.key h.0, i tag.value h.1, HasTags-Includes tags ts us i h.2)

put_tags-HasTags : (tags : List Tag) (ts : List StrRef) → HasTags (put_tags ts tags) tags
put_tags-HasTags [] ts = tt
put_tags-HasTags (tag ∷ tags) ts =
    let one = put_key ts tag.key in
    let two = put_key one tag.value in
    (
      put_tags-Includes tags two tag.key
          (put_key-Includes one tag.value tag.key (put_key-has ts tag.key)),
      put_tags-Includes tags two tag.value (put_key-has one tag.value),
      put_tags-HasTags tags two,
    )

module _ (F : Float) where
  abbrev pub HasMeasurements : List StrRef → List (Measurement F) → Type 0
  HasMeasurements ts [] = Unit {0}
  HasMeasurements ts (m ∷ ms) =
      (has_key m.id.name ts ≡ true) × HasTags ts m.id.tags.entries × HasMeasurements ts ms

  pub HasMeasurements-Includes :
      (ms : List (Measurement F)) (ts us : List StrRef)
      → Includes ts us
      → HasMeasurements ts ms
      → HasMeasurements us ms
  HasMeasurements-Includes [] ts us i h = tt
  HasMeasurements-Includes (m ∷ ms) ts us i h = (
    i m.id.name h.0,
    HasTags-Includes m.id.tags.entries ts us i h.1,
    HasMeasurements-Includes ms ts us i h.2,
  )

  put_measurements-Includes :
      (ms : List (Measurement F)) (ts : List StrRef) → Includes ts (put_measurements F ts ms)
  put_measurements-Includes [] ts u h = h
  put_measurements-Includes (m ∷ ms) ts u h =
      put_measurements-Includes ms _ u
        (put_tags-Includes m.id.tags.entries _ u (put_key-Includes ts m.id.name u h))

  put_measurements-HasMeasurements :
      (ms : List (Measurement F)) (ts : List StrRef) → HasMeasurements (put_measurements F ts ms) ms
  put_measurements-HasMeasurements [] ts = tt
  put_measurements-HasMeasurements (m ∷ ms) ts =
      let one = put_key ts m.id.name in
      let two = put_tags one m.id.tags.entries in
      (
        put_measurements-Includes ms two m.id.name
            (put_tags-Includes m.id.tags.entries one m.id.name (put_key-has ts m.id.name)),
        HasTags-Includes m.id.tags.entries two _ (put_measurements-Includes ms two)
            (put_tags-HasTags m.id.tags.entries one),
        put_measurements-HasMeasurements ms two,
      )

  -- The table of a batch holds the common tags, the key of names, and all strings of the measurements.
  pub str_keys-has :
      (common_tags : List Tag) (ms : List (Measurement F))
      → let ts = str_keys F common_tags ms in
        HasTags ts common_tags × (has_key Refs.name ts ≡ true) × HasMeasurements ts ms
  unfolding str_keys
  str_keys-has common_tags ms =
      let one = put_tags [] common_tags in
      let two = put_key one Refs.name in
      (
        HasTags-Includes common_tags two _ (put_measurements-Includes ms two) (
            HasTags-Includes common_tags one two (put_key-Includes one Refs.name)
              (put_tags-HasTags common_tags [])),
        put_measurements-Includes ms two Refs.name (put_key-has one Refs.name),
        put_measurements-HasMeasurements ms two,
      )

-- A string's index is that of a place where the table has it.
record Found (ts : List StrRef) (from : ℕ) (s : StrRef) : Type 0 where
  place : ℕ
  found : find s (number from ts) ≡ some (from + place)
  there : get_elem? ts place ≡ some s
  inside : place < length ts

find-Found : (ts : List StrRef) (from : ℕ) (s : StrRef) → has_key s ts ≡ true → Found ts from s
unfolding find
find-Found [] from s h = absurd (cc h)
find-Found (t ∷ ts) from s h = elim (Bool-cases (text_eq t s)) [
  | inl e ↦ record {
    place = 0;
    found = rw e (ap some (omega arith));
    there = ap some (text_eq→eq t s e);
    inside = omega arith;
  }
  | inr e ↦
      let rest = find-Found ts (suc from) s (rw e at h) in
      record {
        place = suc rest.place;
        found = rw e (rest.found ∙ ap some (omega arith));
        there = rest.there;
        inside = omega (arith, rest.inside);
      }
]

pub record Indexed (ts : List StrRef) (s : StrRef) : Type 0 where
  pub place : ℕ
  pub found : find s (number 0 ts) ≡ some place
  pub there : get_elem? ts place ≡ some s
  pub inside : place < length ts

pub find-Indexed : (ts : List StrRef) (s : StrRef) → has_key s ts ≡ true → Indexed ts s
find-Indexed ts s h =
    let f = find-Found ts 0 s h in
    record {
      place = f.place;
      found = f.found ∙ ap some (omega arith);
      there = f.there;
      inside = f.inside;
    }
