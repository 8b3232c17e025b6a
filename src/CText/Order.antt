-- ===== src/CText/Order.antt =====
-- The order of texts by `strcmp`.
use spectatord.Base.{ℕ, ◌≡◌, refl, List, [], ◌∷◌, true, false, arith}
use spectatord.CText.{text_eq, strcmp_lt}

pub text_eq→eq : (s t : List ℕ) → text_eq s t ≡ true → s ≡ t
text_eq→eq [] [] h = refl
text_eq→eq [] (b ∷ t) h = cc
text_eq→eq (a ∷ s) [] h = cc
text_eq→eq (a ∷ s) (b ∷ t) h = ground (arith, text_eq→eq s t)

pub text_eq_refl : (s : List ℕ) → text_eq s s ≡ true
text_eq_refl [] = refl
text_eq_refl (a ∷ s) = ground (arith, text_eq_refl s)

pub strcmp_irrefl : (s : List ℕ) → strcmp_lt s s ≡ false
strcmp_irrefl [] = refl
strcmp_irrefl (a ∷ s) = ground (arith, strcmp_irrefl s)

pub strcmp_trans :
    (s t u : List ℕ) → strcmp_lt s t ≡ true → strcmp_lt t u ≡ true → strcmp_lt s u ≡ true
strcmp_trans [] [] u h k = cc
strcmp_trans [] (b ∷ t) [] h k = cc
strcmp_trans [] (b ∷ t) (c ∷ u) h k = refl
strcmp_trans (a ∷ s) [] u h k = cc
strcmp_trans (a ∷ s) (b ∷ t) [] h k = cc
strcmp_trans (a ∷ s) (b ∷ t) (c ∷ u) h k = ground (arith, strcmp_trans s t u)

-- What is neither less nor equal is greater.
pub strcmp_total :
    (s t : List ℕ) → strcmp_lt s t ≡ false → text_eq s t ≡ false → strcmp_lt t s ≡ true
strcmp_total [] [] h k = cc
strcmp_total [] (b ∷ t) h k = cc
strcmp_total (a ∷ s) [] h k = refl
strcmp_total (a ∷ s) (b ∷ t) h k = ground (arith, strcmp_total s t)

pub text_eq_sym : (s t : List ℕ) → text_eq s t ≡ text_eq t s
text_eq_sym [] [] = refl
text_eq_sym [] (b ∷ t) = refl
text_eq_sym (a ∷ s) [] = refl
text_eq_sym (a ∷ s) (b ∷ t) = ground (arith, text_eq_sym s t)
