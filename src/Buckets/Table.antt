-- ===== src/Buckets/Table.antt =====
-- Facts about the generated tables, checked by evaluation over their indices.
use spectatord.Base.{
  ℕ, zero, suc, ◌+◌, ◌-◌, ◌*◌, ◌/◌, ◌^◌, ◌<◌, ◌≡◌, refl, Bool, true, leb, ◌&&◌, ◌||◌, arith, length,
  get_or, if◌then◌else◌, min,
}
use spectatord.Buckets.{init, k_bucket_values, k_power_of4_index}

abbrev pub all_below : ℕ → (ℕ → Bool) → Bool
all_below zero p = true
all_below (suc n) p = p n && all_below n p

pub all_below_sound : (n : ℕ) (p : ℕ → Bool) (x : ℕ) → all_below n p ≡ true → x < n → p x ≡ true
all_below_sound zero p x h lt = absurd (omega arith)
all_below_sound (suc n) p x h lt = ground (arith, all_below_sound n p x)

-- The index of the step `j` above the power of four with exponent `k`.
abbrev pub step_index : ℕ → ℕ → ℕ
step_index k j =
    let pos = j + get_or k_power_of4_index k 0 in
    if leb (length k_bucket_values - 1) pos then length k_bucket_values - 1 else pos + 1

-- The first value above the step, within the power of four and the range of `int64_t`.
abbrev pub step_end : ℕ → ℕ → ℕ
step_end k j = min (min (4 ^ k + (j + 1) * (4 ^ k / 3)) (4 ^ k * 4)) (2 ^ 63)

abbrev pub step_start : ℕ → ℕ → ℕ
step_start k j = 4 ^ k + j * (4 ^ k / 3)

-- Of a step that starts in range: all of it is at most the bucket's value, and its start is at least the value
-- two places below.
abbrev pub step_ok : ℕ → ℕ → Bool
step_ok k j =
    leb (min (4 ^ k * 4) (2 ^ 63)) (step_start k j)
    || (leb (step_end k j) (get_or k_bucket_values (step_index k j) 0 + 1)
        && leb (get_or k_bucket_values (step_index k j - 2) 0) (step_start k j))

steps_table : all_below 31 (λ k. all_below 16 (λ j. step_ok (suc k) j)) ≡ true
unfolding init
steps_table = refl

pub step_ok_lem : (k j : ℕ) → k < 31 → j < 16 → step_ok (suc k) j ≡ true
step_ok_lem k j h g =
    all_below_sound 16 (λ i. step_ok (suc k) i) j
      (all_below_sound 31 (λ i. all_below 16 (λ l. step_ok (suc i) l)) k steps_table h) g
