-- ===== src/Float/Fixed.antt =====
-- A concrete `Float` for examples: integers with a NaN and a lowest value.
use spectatord.Base.{◌≡◌, refl, Bool, true, false, ◌||◌, ◌==◌, arith}
use spectatord.Int.{ℤ, pos, ◌+ℤ◌, ◌-ℤ◌, ◌*ℤ◌, ltb_ℤ, pattern64, signed64}
use spectatord.Float.{Float, IsIeee}

pub data Fixed : Type 0 where
  not_a_number bottom : Fixed
  fin : ℤ → Fixed

abbrev fixed_op : (ℤ → ℤ → ℤ) → Fixed → Fixed → Fixed
fixed_op f not_a_number b = not_a_number
fixed_op f bottom not_a_number = not_a_number
fixed_op f bottom bottom = bottom
fixed_op f bottom (fin b) = bottom
fixed_op f (fin a) not_a_number = not_a_number
fixed_op f (fin a) bottom = bottom
fixed_op f (fin a) (fin b) = fin (f a b)

abbrev fixed_lt : Fixed → Fixed → Bool
fixed_lt not_a_number b = false
fixed_lt bottom not_a_number = false
fixed_lt bottom bottom = false
fixed_lt bottom (fin b) = true
fixed_lt (fin a) not_a_number = false
fixed_lt (fin a) bottom = false
fixed_lt (fin a) (fin b) = ltb_ℤ a b

abbrev fixed_eq : Fixed → Fixed → Bool
fixed_eq not_a_number b = false
fixed_eq bottom not_a_number = false
fixed_eq bottom bottom = true
fixed_eq bottom (fin b) = false
fixed_eq (fin a) not_a_number = false
fixed_eq (fin a) bottom = false
fixed_eq (fin a) (fin b) = pattern64 a == pattern64 b

abbrev fixed_nan : Fixed → Bool
fixed_nan not_a_number = true
fixed_nan bottom = false
fixed_nan (fin a) = false

abbrev fixed_int : Fixed → ℤ
fixed_int not_a_number = pos 0
fixed_int bottom = pos 0
fixed_int (fin a) = a

abbrev pub fixed : Float
fixed = record {
  Double = Fixed;
  nan = not_a_number;
  lowest = bottom;
  add = fixed_op (λ a b. a +ℤ b);
  sub = fixed_op (λ a b. a -ℤ b);
  mul = fixed_op (λ a b. a *ℤ b);
  -- Examples divide by one alone.
  div = fixed_op (λ a b. a);
  lt = fixed_lt;
  eq = fixed_eq;
  is_nan = fixed_nan;
  of_int = λ a. fin a;
  to_int64 = fixed_int;
  lround = fixed_int;
  bits = λ x. pattern64 (fixed_int x);
  of_bits = λ n. fin (signed64 n);
}

op-nan_left : (f : ℤ → ℤ → ℤ) (a b : Fixed) → fixed_nan a ≡ true → fixed_nan (fixed_op f a b) ≡ true
op-nan_left f not_a_number b h = refl
op-nan_left f bottom b h = ground arith
op-nan_left f (fin a) b h = ground arith

op-nan_right :
    (f : ℤ → ℤ → ℤ) (a b : Fixed) → fixed_nan b ≡ true → fixed_nan (fixed_op f a b) ≡ true
op-nan_right f not_a_number b h = refl
op-nan_right f bottom not_a_number h = refl
op-nan_right f bottom bottom h = ground arith
op-nan_right f bottom (fin b) h = ground arith
op-nan_right f (fin a) not_a_number h = refl
op-nan_right f (fin a) bottom h = ground arith
op-nan_right f (fin a) (fin b) h = ground arith

lt-nan_left : (a b : Fixed) → fixed_nan a ≡ true → fixed_lt a b ≡ false
lt-nan_left not_a_number b h = refl
lt-nan_left bottom b h = ground arith
lt-nan_left (fin a) b h = ground arith

lt-nan_right : (a b : Fixed) → fixed_nan b ≡ true → fixed_lt a b ≡ false
lt-nan_right not_a_number b h = refl
lt-nan_right bottom b h = ground arith
lt-nan_right (fin a) b h = ground arith

ltb_ℤ-irrefl : (a : ℤ) → ltb_ℤ a a ≡ false
ltb_ℤ-irrefl a = ground arith

ltb_ℤ-trans : (a b c : ℤ) → ltb_ℤ a b ≡ true → ltb_ℤ b c ≡ true → ltb_ℤ a c ≡ true
ltb_ℤ-trans a b c h g = ground arith

ltb_ℤ-total : (a b c : ℤ) → ltb_ℤ a b ≡ true → (ltb_ℤ a c || ltb_ℤ c b) ≡ true
ltb_ℤ-total a b c h = ground arith

fixed_lt_irrefl : (a : Fixed) → fixed_lt a a ≡ false
fixed_lt_irrefl not_a_number = refl
fixed_lt_irrefl bottom = refl
fixed_lt_irrefl (fin a) = ltb_ℤ-irrefl a

fixed_lt_trans : (a b c : Fixed) → fixed_lt a b ≡ true → fixed_lt b c ≡ true → fixed_lt a c ≡ true
fixed_lt_trans a b c h g = ground arith

lt-total :
    (a b c : Fixed)
    → fixed_nan a ≡ false
    → fixed_nan b ≡ false
    → fixed_nan c ≡ false
    → fixed_lt a b ≡ true
    → (fixed_lt a c || fixed_lt c b) ≡ true
lt-total a b c ha hb hc h = ground arith

lt-bottom : (a : Fixed) → fixed_lt a bottom ≡ false
lt-bottom not_a_number = refl
lt-bottom bottom = refl
lt-bottom (fin a) = refl

pub fixed-IsIeee : IsIeee fixed
fixed-IsIeee = record {
  nan-is_nan = refl;
  lt-nan_left = lt-nan_left;
  lt-nan_right = lt-nan_right;
  add-nan_left = op-nan_left (λ a b. a +ℤ b);
  add-nan_right = op-nan_right (λ a b. a +ℤ b);
  sub-nan_left = op-nan_left (λ a b. a -ℤ b);
  sub-nan_right = op-nan_right (λ a b. a -ℤ b);
  div-nan_left = op-nan_left (λ a b. a);
  of_int-is_nan = λ a. refl;
  lt_irrefl = fixed_lt_irrefl;
  lt_trans = fixed_lt_trans;
  lt_total = lt-total;
  lowest-is_nan = refl;
  eq_lowest = refl;
  lt-lowest = lt-bottom;
}
