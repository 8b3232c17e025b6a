-- ===== src/Buckets.antt =====
-- spectator/percentile_buckets.cc, and the tables that tools/gen_perc_bucket_values.cc generates for it.
-- An `int64_t` is its bit pattern in 64 bits.
pub mod Table
pub mod Bounds
mod Tests
use spectatord.Base.{
  ℕ, zero, suc, ◌+◌, ◌-◌, ◌*◌, ◌/◌, ◌%◌, ◌^◌, List, [], ◌∷◌, ◌++◌, Bool, true, false, ltb, leb,
  ◌==◌, length, get_or, if◌then◌else◌,
}

-- `a < b` of two `int64_t`.
abbrev pub signed_lt : ℕ → ℕ → Bool
signed_lt a b = ltb ((a + 2 ^ 63) % 2 ^ 64) ((b + 2 ^ 63) % 2 ^ 64)

-- `while (current < next) { bucketValues.push_back(current); current += delta; }`: a power of four gives
-- fewer than 20 values.
unfoldable pub fill : ℕ → ℕ → ℕ → ℕ → List ℕ
fill zero current next delta = []
fill (suc fuel) current next delta =
    let rest = fill fuel ((current + delta) % 2 ^ 64) next delta in
    if signed_lt current next then current ∷ rest else []

-- The values that one round of the loop over `exp` adds. From the exponent 62 on the shift loses all bits.
unfoldable pub round_values : ℕ → List ℕ
unfolding fill
round_values exp =
    let current = 2 ^ exp % 2 ^ 64 in
    let delta = current / 3 in
    let next = (current * 4 % 2 ^ 64 + (2 ^ 64 - delta)) % 2 ^ 64 in fill 20 current next delta

-- `while (exp < 64)`, from `exp` on, with the number of rounds left. The tables are the two vectors.
unfoldable pub init_loop : ℕ → ℕ → List ℕ → List ℕ → List ℕ × List ℕ
unfolding round_values
init_loop zero exp values index = (values, index)
init_loop (suc rounds) exp values index =
    init_loop rounds (exp + 2) (values ++ round_values exp) (index ++ length values ∷ [])

-- `init` of the generator: the exponents 2, 4, ..., 62, and the largest `int64_t` at the end.
unfoldable pub init : List ℕ × List ℕ
unfolding init_loop
init =
    let (values, index) = init_loop 31 2 (1 ∷ 2 ∷ 3 ∷ []) (0 ∷ []) in
    (values ++ (2 ^ 63 - 1) ∷ [], index)

-- `kBucketValues` and `kPowerOf4Index`
abbrev pub k_bucket_values : List ℕ
unfolding init
k_bucket_values = init.0

abbrev pub k_power_of4_index : List ℕ
unfolding init
k_power_of4_index = init.1

-- The position of the highest bit that is set, which is 63 less `__builtin_clzll`.
unfoldable pub high_bit : ℕ → ℕ → ℕ
high_bit zero v = 0
high_bit (suc fuel) v = let rest = high_bit fuel (v / 2) in if ltb v 2 then 0 else suc rest

-- `PercentileBucketIndexOf` behind its early returns, for a positive value.
unfoldable pub index_of_large : ℕ → ℕ
index_of_large v =
    let shift = high_bit 64 v in
    let prev_power_of2 = v / 2 ^ shift * 2 ^ shift in
    let odd = shift % 2 == 1 in
    let shift' = if odd then shift - 1 else shift in
    let base = if odd then prev_power_of2 / 2 else prev_power_of2 in
    let delta = base / 3 in
    let offset = (v - base) / delta in
    let pos = offset + get_or k_power_of4_index (shift' / 2) 0 in
    if leb (length k_bucket_values - 1) pos then length k_bucket_values - 1 else pos + 1

-- `PercentileBucketIndexOf`, of a bit pattern.
unfoldable pub percentile_bucket_index_of : ℕ → ℕ
percentile_bucket_index_of v = if leb (2 ^ 63) v then 0 else if leb v 4 then v else index_of_large v

-- `PercentileBucket`
unfoldable pub percentile_bucket : ℕ → ℕ
percentile_bucket v = get_or k_bucket_values (percentile_bucket_index_of v) 0
