-- ===== src/Float.antt =====
-- The C++ type `double` is hardware that the sources only use: a parameter of the model. `IsIeee` states
-- the facts of IEEE 754 that theorems rely on, each as a law of its own.
pub mod Fixed
use spectatord.Base.{ℕ, ◌≡◌, Bool, true, false, ◌||◌}
use spectatord.Int.{ℤ}

pub record Float : Type 1 where
  pub Double : Type 0
  pub nan : Double
  -- `numeric_limits<double>::lowest()`
  pub lowest : Double
  pub add : Double → Double → Double
  pub sub : Double → Double → Double
  pub mul : Double → Double → Double
  pub div : Double → Double → Double
  pub lt : Double → Double → Bool
  pub eq : Double → Double → Bool
  pub is_nan : Double → Bool
  -- Conversions: of an integer, `static_cast<int64_t>`, `std::lround`, and the 64 bits of
  -- the value, both ways.
  pub of_int : ℤ → Double
  pub to_int64 : Double → ℤ
  pub lround : Double → ℤ
  pub bits : Double → ℕ
  pub of_bits : ℕ → Double

pub record IsIeee (F : Float) : Type 0 where
  pub nan-is_nan : F.is_nan F.nan ≡ true
  -- A comparison with NaN fails.
  pub lt-nan_left : (a b : F.Double) → F.is_nan a ≡ true → F.lt a b ≡ false
  pub lt-nan_right : (a b : F.Double) → F.is_nan b ≡ true → F.lt a b ≡ false
  -- NaN propagates.
  pub add-nan_left : (a b : F.Double) → F.is_nan a ≡ true → F.is_nan (F.add a b) ≡ true
  pub add-nan_right : (a b : F.Double) → F.is_nan b ≡ true → F.is_nan (F.add a b) ≡ true
  pub sub-nan_left : (a b : F.Double) → F.is_nan a ≡ true → F.is_nan (F.sub a b) ≡ true
  pub sub-nan_right : (a b : F.Double) → F.is_nan b ≡ true → F.is_nan (F.sub a b) ≡ true
  pub div-nan_left : (a b : F.Double) → F.is_nan a ≡ true → F.is_nan (F.div a b) ≡ true
  -- An integer is not NaN.
  pub of_int-is_nan : (a : ℤ) → F.is_nan (F.of_int a) ≡ false
  -- `<` is a strict order.
  pub lt_irrefl : (a : F.Double) → F.lt a a ≡ false
  pub lt_trans : (a b c : F.Double) → F.lt a b ≡ true → F.lt b c ≡ true → F.lt a c ≡ true
  -- Only NaN is incomparable.
  pub lt_total :
      (a b c : F.Double)
      → F.is_nan a ≡ false
      → F.is_nan b ≡ false
      → F.is_nan c ≡ false
      → F.lt a b ≡ true
      → (F.lt a c || F.lt c b) ≡ true
  -- `lowest` is a number, equal to itself, and no number is below it.
  pub lowest-is_nan : F.is_nan F.lowest ≡ false
  pub eq_lowest : F.eq F.lowest F.lowest ≡ true
  -- Nothing but `lowest` equals it, and `lowest` is below what is a number and not equal to it.
  pub lt-lowest : (a : F.Double) → F.lt a F.lowest ≡ false
