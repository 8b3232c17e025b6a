-- ===== src/Buckets/Tests.antt =====
-- Runs.
use spectatord.Base.{◌≡◌, ◌≤◌, ◌-◌, refl, length, get_or, arith}
use spectatord.Buckets.Bounds.{percentile_bucket_bounds, max_one}
use spectatord.Buckets.{
  k_bucket_values, k_power_of4_index, percentile_bucket_index_of, percentile_bucket, index_of_large,
  init, high_bit,
}

values_length : length k_bucket_values ≡ 276
unfolding init
values_length = refl

index_length : length k_power_of4_index ≡ 32
unfolding init
index_length = refl

index_15 : percentile_bucket_index_of 15 ≡ 15
unfolding percentile_bucket_index_of index_of_large high_bit init
index_15 = refl

percentile_bucket_bounds_example :
    (1_000_000 ≤ percentile_bucket 1_000_000)
    × (get_or k_bucket_values (percentile_bucket_index_of 1_000_000 - 2) 0 ≤ max_one 1_000_000)
percentile_bucket_bounds_example = percentile_bucket_bounds 1_000_000 (omega arith)
