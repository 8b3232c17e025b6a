-- ===== src/Admin/CommonTags/Laws.antt =====
-- What a request for the common tags does, in admin/admin_server.cc.
use spectatord.Base.{
  ℕ, ◌≡◌, refl, ap, ◌∙◌, List, [], ◌∷◌, Option, none, some, true, false, if◌then◌else◌, arith, inl,
  inr, ◌⊎◌, Option-cases, Bool-cases, subst,
}
use spectatord.CText.{chars, text_eq}
use spectatord.CText.Order.{text_eq→eq, text_eq_refl}
use spectatord.Admin.CommonTags.{
  CommonTags, erase_common_tag, update_common_tag, Json, is_allowed, refusal, set_one, set_all,
  set_common_tags, lookup,
}

-- What a key is to have after the entries: the last of its values, where an empty one stands for none.
abbrev value_or : Option (List ℕ) → Option (List ℕ) → Option (List ℕ)
value_or none old = old
value_or (some []) old = none
value_or (some (c ∷ v)) old = some (c ∷ v)

unfoldable pub posted : List ℕ → List (List ℕ × Option (List ℕ)) → Option (List ℕ) → Option (List ℕ)
posted k [] old = old
posted k (e ∷ entries) old = posted k entries (if text_eq e.0 k then value_or e.1 old else old)

text_eq-chain : (a b c : List ℕ) → text_eq a b ≡ true → text_eq a c ≡ text_eq b c
text_eq-chain a b c h = ap (λ t. text_eq t c) (text_eq→eq a b h)

text_eq-right : (a b c : List ℕ) → text_eq b c ≡ true → text_eq a b ≡ text_eq a c
text_eq-right a b c h = ap (text_eq a) (text_eq→eq b c h)

lookup-erase :
    (tags : CommonTags) (k j : List ℕ)
    → lookup (erase_common_tag tags k) j ≡ (if text_eq k j then none else lookup tags j)
unfolding lookup erase_common_tag
lookup-erase [] k j = ground arith
lookup-erase (tag ∷ tags) k j =
    ground (arith, lookup-erase tags k j, text_eq-chain tag.0 k j, text_eq-right tag.0 k j)

lookup-update :
    (tags : CommonTags) (k v j : List ℕ)
    → lookup (update_common_tag tags k v) j ≡ (if text_eq k j then some v else lookup tags j)
unfolding lookup update_common_tag
lookup-update [] k v j = ground arith
lookup-update (tag ∷ tags) k v j =
    ground (arith, lookup-update tags k v j, text_eq-chain tag.0 k j, text_eq-right tag.0 k j)

lookup-set_one :
    (tags : CommonTags) (k : List ℕ) (v : Option (List ℕ)) (j : List ℕ)
    → lookup (set_one tags k v) j
      ≡ (if text_eq k j then value_or v (lookup tags j) else lookup tags j)
lookup-set_one tags k none j = ground arith
lookup-set_one tags k (some []) j = lookup-erase tags k j
lookup-set_one tags k (some (c ∷ v)) j = lookup-update tags k (c ∷ v) j

lookup-set_all :
    (entries : List (List ℕ × Option (List ℕ))) (tags : CommonTags) (k : List ℕ)
    → lookup (set_all tags entries) k ≡ posted k entries (lookup tags k)
unfolding set_all posted
lookup-set_all [] tags k = refl
lookup-set_all (e ∷ entries) tags k =
    lookup-set_all entries (set_one tags e.0 e.1) k
    ∙ ap (posted k entries) (lookup-set_one tags e.0 e.1 k)

-- A key that may be set, and an object whose keys all may be set and whose values all are texts.
abbrev pub MaySet : List (List ℕ) → List ℕ → Type 0
MaySet [] k = ⊥
MaySet (t ∷ allowed_tags) k = (t ≡ k) ⊎ MaySet allowed_tags k

abbrev pub IsText : Option (List ℕ) → Type 0
IsText none = ⊥
IsText (some v) = Unit {0}

abbrev pub Settable : List (List ℕ) → List (List ℕ × Option (List ℕ)) → Type 0
Settable allowed_tags [] = Unit {0}
Settable allowed_tags (e ∷ entries) =
    MaySet allowed_tags e.0 × IsText e.1 × Settable allowed_tags entries

is_allowed-MaySet :
    (allowed_tags : List (List ℕ)) (k : List ℕ)
    → is_allowed allowed_tags k ≡ true
    → MaySet allowed_tags k
is_allowed-MaySet [] k h = absurd (cc h)
is_allowed-MaySet (t ∷ allowed_tags) k h = elim (Bool-cases (text_eq t k)) [
  | inl e ↦ inl (text_eq→eq t k e)
  | inr e ↦ inr (is_allowed-MaySet allowed_tags k (ground (arith, h, e)))
]

MaySet-is_allowed :
    (allowed_tags : List (List ℕ)) (k : List ℕ)
    → MaySet allowed_tags k
    → is_allowed allowed_tags k ≡ true
MaySet-is_allowed [] k h = elim h [ ]
MaySet-is_allowed (t ∷ allowed_tags) k (inl e) = rw (ap (λ x. text_eq x k) e, text_eq_refl k) refl
MaySet-is_allowed (t ∷ allowed_tags) k (inr h) = ground (arith, MaySet-is_allowed allowed_tags k h)

-- The message that is due to the first entry that is refused.
pub data Refuses (allowed_tags : List (List ℕ))
    : List (List ℕ × Option (List ℕ)) → List ℕ → Type 0 where
  key_refused :
      {k : List ℕ} {v : Option (List ℕ)} {entries : List (List ℕ × Option (List ℕ))}
      → ¬ MaySet allowed_tags k
      → Refuses allowed_tags ((k, v) ∷ entries) (chars "only allowed tags may be set")
  value_refused :
      {k : List ℕ} {entries : List (List ℕ × Option (List ℕ))}
      → MaySet allowed_tags k
      → Refuses allowed_tags ((k, none) ∷ entries) (chars "tag values must be strings")
  later :
      {k v message : List ℕ} {entries : List (List ℕ × Option (List ℕ))}
      → MaySet allowed_tags k
      → Refuses allowed_tags entries message
      → Refuses allowed_tags ((k, some v) ∷ entries) message

not-allowed :
    (allowed_tags : List (List ℕ)) (k : List ℕ)
    → is_allowed allowed_tags k ≡ false
    → ¬ MaySet allowed_tags k
not-allowed allowed_tags k e h = absurd (cc (e, MaySet-is_allowed allowed_tags k h))

refusal-none :
    (allowed_tags : List (List ℕ)) (entries : List (List ℕ × Option (List ℕ)))
    → refusal allowed_tags entries ≡ none
    → Settable allowed_tags entries
unfolding refusal
refusal-none allowed_tags [] h = tt
refusal-none allowed_tags ((k, none) ∷ entries) h = ground arith
refusal-none allowed_tags ((k, some v) ∷ entries) h =
    elim (Bool-cases (is_allowed allowed_tags k)) [
      | inl e ↦ (
        is_allowed-MaySet allowed_tags k e,
        tt,
        refusal-none allowed_tags entries (ground (arith, h, e)),
      )
      | inr e ↦ ground (arith, h, e)
    ]

refusal-some :
    (allowed_tags : List (List ℕ)) (entries : List (List ℕ × Option (List ℕ))) (message : List ℕ)
    → refusal allowed_tags entries ≡ some message
    → Refuses allowed_tags entries message × (¬ Settable allowed_tags entries)
unfolding refusal
refusal-some allowed_tags [] message h = absurd (cc h)
refusal-some allowed_tags ((k, none) ∷ entries) message h =
    elim (Bool-cases (is_allowed allowed_tags k)) [
      | inl e ↦
          let said : chars "tag values must be strings" ≡ message = ground (arith, h, e) in
          (
            subst (Refuses allowed_tags ((k, none) ∷ entries)) said
                (Refuses.value_refused (is_allowed-MaySet allowed_tags k e)),
            λ s. s.1,
          )
      | inr e ↦
          let said : chars "only allowed tags may be set" ≡ message = ground (arith, h, e) in
          (
            subst (Refuses allowed_tags ((k, none) ∷ entries)) said
                (Refuses.key_refused (not-allowed allowed_tags k e)),
            λ s. s.1,
          )
    ]
refusal-some allowed_tags ((k, some v) ∷ entries) message h =
    elim (Bool-cases (is_allowed allowed_tags k)) [
      | inl e ↦
          let rest = refusal-some allowed_tags entries message (ground (arith, h, e)) in
          (Refuses.later (is_allowed-MaySet allowed_tags k e) rest.0, λ s. rest.1 s.2)
      | inr e ↦
          let said : chars "only allowed tags may be set" ≡ message = ground (arith, h, e) in
          (
            subst (Refuses allowed_tags ((k, some v) ∷ entries)) said
                (Refuses.key_refused (not-allowed allowed_tags k e)),
            λ s. not-allowed allowed_tags k e s.0,
          )
    ]

-- If every key of an object may be set, and every value is a text, each key has afterwards what the object gives it, an
-- empty text takes it away, and all other keys keep what they had. Otherwise the first entry that is wrong is answered
-- with its message and a status of 400, and no tag changes.
pub lookup-set_common_tags :
    (allowed_tags : List (List ℕ)) (tags : CommonTags) (entries : List (List ℕ × Option (List ℕ)))
    (k : List ℕ)
    → let done = set_common_tags allowed_tags tags (Json.object entries) in
      (Settable allowed_tags entries
        × (done.1 ≡ 200)
        × (lookup done.0 k ≡ posted k entries (lookup tags k)))
      ⊎ ((message : List ℕ) × Refuses allowed_tags entries message
          × (¬ Settable allowed_tags entries)
          × (done ≡ (tags, 400, message)))
unfolding set_common_tags
lookup-set_common_tags allowed_tags tags entries k =
    elim (Option-cases (refusal allowed_tags entries)) [
      | inl e ↦
          inl (refusal-none allowed_tags entries e, rw e refl, rw e (lookup-set_all entries tags k))
      | inr (message, e) ↦
          let refused = refusal-some allowed_tags entries message e in
          inr (message, refused.0, refused.1, rw e refl)
    ]
