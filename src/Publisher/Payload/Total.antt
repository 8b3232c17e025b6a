-- ===== src/Publisher/Payload/Total.antt =====
-- The lookups of strings that `measurements_to_json` makes, in spectator/publisher.h.
use spectatord.Base.{ℕ, ◌≡◌, refl, List, [], ◌∷◌, Option, some, true}
use spectatord.Float.{Float}
use spectatord.Tags.{StrRef, Tag}
use spectatord.Id.Refs
use spectatord.Meter.{Measurement}
use spectatord.Publisher.Payload.{
  has_key, number, str_keys, add_tags, get_common_ids, append_measurement, append_measurements,
  measurements_to_json,
}
use spectatord.Publisher.Payload.Table.{
  HasTags, HasTags-Includes, HasMeasurements, HasMeasurements-Includes, str_keys-has, find-Indexed,
}
use spectatord.Publisher.Payload.StringBytes.{Reorders, Permᴰ-Includes}

abbrev Defined {ℓ} : {A : Type ℓ} → Option A → Type ℓ
Defined {A = A} o = (a : A) × (o ≡ some a)

module _ (ts : List StrRef) where
  add_tags-Defined :
      (tags : List Tag) (payload : List ℕ)
      → HasTags ts tags
      → Defined (add_tags payload (number 0 ts) tags)
  unfolding add_tags
  add_tags-Defined [] payload h = (payload, refl)
  add_tags-Defined (tag ∷ tags) payload h =
      rw ((find-Indexed ts tag.key h.0).found, (find-Indexed ts tag.value h.1).found)
        (add_tags-Defined tags _ h.2)

  get_common_ids-Defined :
      (tags : List Tag) → HasTags ts tags → Defined (get_common_ids (number 0 ts) tags)
  unfolding get_common_ids
  get_common_ids-Defined [] h = ([], refl)
  get_common_ids-Defined (tag ∷ tags) h =
      let k = find-Indexed ts tag.key h.0 in
      let v = find-Indexed ts tag.value h.1 in
      let (ids, e) = get_common_ids-Defined tags h.2 in
      (k.place ∷ v.place ∷ ids, rw (k.found, v.found, e) refl)

  module _ (F : Float) (common_ids : List ℕ) (name : has_key Refs.name ts ≡ true) where
    append_measurement-Defined :
        (m : Measurement F) (payload : List ℕ)
        → has_key m.id.name ts ≡ true
        → HasTags ts m.id.tags.entries
        → Defined (append_measurement F payload (number 0 ts) common_ids m)
    unfolding append_measurement
    append_measurement-Defined m payload hn ht =
        rw
          (
            (add_tags-Defined m.id.tags.entries _ ht).1,
            (find-Indexed ts Refs.name name).found,
            (find-Indexed ts m.id.name hn).found,
          )
          (_, refl)

    append_measurements-Defined :
        (ms : List (Measurement F)) (payload : List ℕ)
        → HasMeasurements F ts ms
        → Defined (append_measurements F payload (number 0 ts) common_ids ms)
    unfolding append_measurements
    append_measurements-Defined [] payload h = (payload, refl)
    append_measurements-Defined (m ∷ ms) payload h =
        rw (append_measurement-Defined m payload h.0 h.1).1 (append_measurements-Defined ms _ h.2)

-- A batch always has a payload: no lookup of a string fails, in whatever order the table is iterated.
pub measurements_to_json-Defined :
    (F : Float) (order : List StrRef → List StrRef) (common_tags : List Tag)
    (ms : List (Measurement F))
    → Reorders order
    → (payload : List ℕ) × (measurements_to_json F order common_tags ms ≡ some payload)
unfolding measurements_to_json
measurements_to_json-Defined F order common_tags ms reorders =
    let keys = str_keys F common_tags ms in
    let ts = order keys in
    let inc = Permᴰ-Includes (reorders keys) in
    let has = str_keys-has F common_tags ms in
    let (ids, e) =
      get_common_ids-Defined ts common_tags (HasTags-Includes common_tags keys ts inc has.0) in
    rw e (
      append_measurements-Defined ts F ids (inc Refs.name has.1) ms _
        (HasMeasurements-Includes F ms keys ts inc has.2))
