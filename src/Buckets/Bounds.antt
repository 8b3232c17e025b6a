-- ===== src/Buckets/Bounds.antt =====
-- The bucket of a value, the bound of it, and the bound two buckets down.
use spectatord.Base.{
  ℕ, zero, suc, ◌+◌, ◌-◌, ◌*◌, ◌/◌, ◌%◌, ◌^◌, ◌≤◌, ◌<◌, ◌≡◌, refl, ap, ◌∙◌, Bool, true, false, ltb,
  leb, ◌==◌, ◌&&◌, arith, get_or, if◌then◌else◌, Bool-cases, inl, inr,
}
use native.Mathlib.Nat.{pow-suc, div-add-mod, mod-lt}
use native.Mathlib.Decide.{dec_lt}
use spectatord.Buckets.{
  init, k_bucket_values, high_bit, index_of_large, percentile_bucket_index_of, percentile_bucket,
}
use spectatord.Buckets.Table.{
  all_below, all_below_sound, step_index, step_end, step_start, step_ok_lem,
}

high_bit_bounds :
    (fuel v : ℕ)
    → 0 < v
    → v < 2 ^ fuel
    → (2 ^ high_bit fuel v ≤ v) × (v < 2 * 2 ^ high_bit fuel v) × (high_bit fuel v < fuel)
unfolding high_bit
high_bit_bounds zero v p h = absurd (omega arith)
high_bit_bounds (suc fuel) v p h =
    ground (arith, high_bit_bounds fuel (v / 2), pow-suc 2 fuel, pow-suc 2 (high_bit fuel (v / 2)))

pow_pos : (k : ℕ) → 1 ≤ 4 ^ k
pow_pos zero = omega arith
pow_pos (suc k) = grind (arith, pow-suc 4 k, pow_pos k)

-- A value, or 1 where that is larger: the bound of the first bucket.
abbrev pub max_one : ℕ → ℕ
max_one v = if ltb v 1 then 1 else v

offset_bounds :
    (b d o v : ℕ)
    → 4 ≤ b
    → d ≡ b / 3
    → o ≡ (v - b) / d
    → b ≤ v
    → v < 4 * b
    → (o < 16) × (b + o * d ≤ v) × (v < b + (o + 1) * d)
offset_bounds b d o v h hd ho lo hi =
    let pos : 0 < d = omega arith in
    let split : d * o + (v - b) % d ≡ v - b = rw ho (div-add-mod (v - b) d) in
    let low : (v - b) % d < d = mod-lt (v - b) pos in (grind arith, grind arith, grind arith)

-- The exponent of four and the power of four below a value whose highest bit is at `s`.
abbrev even_bit : ℕ → ℕ
even_bit s = if s % 2 == 1 then s - 1 else s

abbrev base_of : ℕ → ℕ → ℕ
base_of s p = if s % 2 == 1 then p / 2 else p

-- The base is the power of four at or below the value, for each position of the highest bit.
abbrev bit_ok : ℕ → Bool
bit_ok s =
    (base_of s (2 ^ s) == 4 ^ (even_bit s / 2))
    && (leb (2 * 2 ^ s) (4 * 4 ^ (even_bit s / 2))
        && (leb (4 ^ (even_bit s / 2)) (2 ^ s) && ltb (even_bit s / 2) 32))

bit_table : all_below 63 bit_ok ≡ true
bit_table = refl

bit_facts :
    (s : ℕ)
    → s < 63
    → (base_of s (2 ^ s) ≡ 4 ^ (even_bit s / 2))
      × (2 * 2 ^ s ≤ 4 * 4 ^ (even_bit s / 2))
      × (4 ^ (even_bit s / 2) ≤ 2 ^ s)
      × (even_bit s / 2 < 32)
bit_facts s h =
    let ok : bit_ok s ≡ true = all_below_sound 63 bit_ok s bit_table h in ground (arith, ok)

-- The index as a function of the highest bit and the base.
abbrev index_at : ℕ → ℕ → ℕ → ℕ
index_at v s b = step_index (even_bit s / 2) ((v - b) / (b / 3))

index_of_large-index_at :
    (v : ℕ)
    → index_of_large v
      ≡ index_at v
          (high_bit 64 v)
          (base_of (high_bit 64 v) (v / 2 ^ high_bit 64 v * 2 ^ high_bit 64 v))
unfolding index_of_large
index_of_large-index_at v = refl

quotient_one : (v p q r : ℕ) → p ≤ v → v < 2 * p → p * q + r ≡ v → r < p → q ≡ 1
quotient_one v p zero r h k e l = absurd (omega arith)
quotient_one v p (suc zero) r h k e l = refl
quotient_one v p (suc (suc q)) r h k e l = absurd (grind arith)

one_quotient : (v p : ℕ) → p ≤ v → v < 2 * p → v / p * p ≡ p
one_quotient v p h k =
    let split : p * (v / p) + v % p ≡ v = div-add-mod v p in
    let low : v % p < p = mod-lt v (omega arith) in
    ap (λ (q : ℕ). q * p) (quotient_one v p (v / p) (v % p) h k split low) ∙ omega arith

abbrev Placed : ℕ → Type 0
Placed v =
    (k : ℕ) × (j : ℕ) × (k < 31)
    × (j < 16)
    × (index_of_large v ≡ step_index (suc k) j)
    × (step_start (suc k) j ≤ v)
    × (v < step_end (suc k) j)

place :
    (v k : ℕ)
    → 4 < v
    → v < 2 ^ 63
    → k < 32
    → 4 ^ k ≤ v
    → v < 4 * 4 ^ k
    → index_of_large v ≡ step_index k ((v - 4 ^ k) / (4 ^ k / 3))
    → Placed v
place v zero h g l lo hi e = absurd (omega arith)
place v (suc k) h g l lo hi e =
    let big : 4 ≤ 4 ^ suc k = grind (arith, pow-suc 4 k, pow_pos k) in
    let (a, b, c) =
      offset_bounds (4 ^ suc k) (4 ^ suc k / 3) ((v - 4 ^ suc k) / (4 ^ suc k / 3)) v big refl refl
        lo hi in
    (k, (v - 4 ^ suc k) / (4 ^ suc k / 3), omega arith, a, e, b, omega arith)

-- A value above 4 lies in a step of some power of four, whose index is the value's.
step_of : (v : ℕ) → 4 < v → v < 2 ^ 63 → Placed v
step_of v h g = at_bit (high_bit 64 v) refl (high_bit_bounds 64 v (omega arith) (omega arith))
  where
    at_bit :
        (s : ℕ)
        → high_bit 64 v ≡ s
        → (2 ^ high_bit 64 v ≤ v) × (v < 2 * 2 ^ high_bit 64 v) × (high_bit 64 v < 64)
        → Placed v
    at_bit s e w = elim (dec_lt s 63) [
      | yes small ↦
          let (p, q, r) = rw e at w in
          let (f1, f2, f3, f4) = bit_facts s small in
          place v (even_bit s / 2) h g f4 (omega arith) (omega arith)
            (index_of_large-index_at v ∙ rw (e, one_quotient v (2 ^ s) p q, f1) refl)
      | no large ↦
          let (p, q, r) = rw e at w in
          let last : s ≡ 63 = omega arith in absurd (omega (arith, (rw last at p)))
    ]

-- The bounds that a bucket's index is to have.
abbrev Bounded : ℕ → ℕ → Type 0
Bounded v i = (v ≤ get_or k_bucket_values i 0) × (get_or k_bucket_values (i - 2) 0 ≤ max_one v)

small_table :
    all_below 5 (λ v.
      leb v (get_or k_bucket_values v 0) && leb (get_or k_bucket_values (v - 2) 0) (max_one v))
    ≡ true
unfolding init
small_table = refl

small-Bounded : (v : ℕ) → v < 5 → Bounded v v
small-Bounded v h = ground (
  arith,
  all_below_sound 5
      (λ v.
        leb v (get_or k_bucket_values v 0) && leb (get_or k_bucket_values (v - 2) 0) (max_one v))
      v small_table h,
)

large-Bounded : (v : ℕ) → 4 < v → v < 2 ^ 63 → Bounded v (index_of_large v)
large-Bounded v h g =
    let (k, j, hk, hj, e, lo, hi) = step_of v h g in rw e (ground (arith, step_ok_lem k j hk hj))

-- Of an `int64_t` that is not negative the bucket's value is at least the value itself, and the value two
-- buckets below is at most it (or 1, the first bucket, for 0).
pub percentile_bucket_bounds :
    (v : ℕ)
    → v < 2 ^ 63
    → (v ≤ percentile_bucket v)
      × (get_or k_bucket_values (percentile_bucket_index_of v - 2) 0 ≤ max_one v)
unfolding percentile_bucket percentile_bucket_index_of
percentile_bucket_bounds v h = elim (Bool-cases (leb v 4)) [
  | inl e ↦ rw (not_negative v h, e) (small-Bounded v (ground (arith, e)))
  | inr e ↦ rw (not_negative v h, e) (large-Bounded v (ground (arith, e)) h)
]
  where
    not_negative : (v : ℕ) → v < 2 ^ 63 → leb (2 ^ 63) v ≡ false
    not_negative v h = ground arith
