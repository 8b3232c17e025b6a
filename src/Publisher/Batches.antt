-- ===== src/Publisher/Batches.antt =====
-- `send_metrics` of spectator/publisher.h: how the measurements are cut into batches. The loop is on fuel, a
-- unit for each batch.
use spectatord.Base.{
  ◌>>=◌, ℕ, zero, suc, ◌≤◌, ◌<◌, min, ◌≡◌, refl, ap, ◌∙◌, List, [], ◌∷◌, ◌++◌, Option, none, some,
  arith, length, take, drop, length-take, length-drop, take-append-drop,
}

module _ {ℓ} {A : Type ℓ} where
  -- `while (from != end)`
  unfoldable pub batches : ℕ → ℕ → List A → Option (List (List A))
  batches fuel batch_size [] = some []
  batches zero batch_size (m ∷ ms) = none
  batches (suc fuel) batch_size (m ∷ ms) =
      let to_advance = min batch_size (length (m ∷ ms)) in
      do
        rest ← batches fuel batch_size (drop to_advance (m ∷ ms))
        some (take to_advance (m ∷ ms) ∷ rest)

  abbrev pub concat : List (List A) → List A
  concat [] = []
  concat (b ∷ bs) = b ++ concat bs

  -- Every batch holds a measurement, and no more than `batch_size`.
  abbrev pub Sized : ℕ → List (List A) → Type 0
  Sized batch_size [] = Unit {0}
  Sized batch_size (b ∷ bs) = (0 < length b) × (length b ≤ batch_size) × Sized batch_size bs

  -- Some batches that are the measurements in order, none of them empty or too large.
  abbrev pub Batched : ℕ → List A → Option (List (List A)) → Type ℓ
  Batched batch_size ms made =
      (bs : List (List A)) × (made ≡ some bs) × (concat bs ≡ ms) × Sized batch_size bs

  -- With a positive batch size the loop ends, within as many rounds as there are measurements: its batches are the
  -- measurements in order, and each has between one and `batch_size` of them.
  pub batches-Batched :
      (fuel batch_size : ℕ) (ms : List A)
      → 0 < batch_size
      → length ms ≤ fuel
      → Batched batch_size ms (batches fuel batch_size ms)
  unfolding batches
  batches-Batched fuel batch_size [] h enough = ([], refl, refl, tt)
  batches-Batched zero batch_size (m ∷ ms) h enough = absurd (omega (arith, enough))
  batches-Batched (suc fuel) batch_size (m ∷ ms) h enough =
      let n = min batch_size (length (m ∷ ms)) in
      let (bs, made, whole, sized) =
        batches-Batched fuel batch_size (drop n (m ∷ ms)) h
          (omega (arith, length-drop n (m ∷ ms))) in
      (
        take n (m ∷ ms) ∷ bs,
        rw made refl,
        ap (λ t. take n (m ∷ ms) ++ t) whole ∙ take-append-drop n (m ∷ ms),
        (omega (arith, length-take n (m ∷ ms)), omega (arith, length-take n (m ∷ ms)), sized),
      )

  -- With a batch size of 0 the loop never ends.
  pub batches_zero : (fuel : ℕ) (m : A) (ms : List A) → batches fuel 0 (m ∷ ms) ≡ none
  unfolding batches
  batches_zero zero m ms = refl
  batches_zero (suc fuel) m ms =
      let none_taken : min 0 (length (m ∷ ms)) ≡ 0 = omega arith in
      ap (λ n. batches fuel 0 (drop n (m ∷ ms)) >>= λ rest. some (take n (m ∷ ms) ∷ rest))
        none_taken
      ∙ rw (batches_zero fuel m ms) refl
