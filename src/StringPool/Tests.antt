-- ===== src/StringPool/Tests.antt =====
-- Runs, and the theorems at a concrete pool.
use spectatord.Base.{◌≡◌, refl, [], ◌∷◌, ◌↔◌}
use spectatord.CText.{chars}
use spectatord.StringPool.{sanitize, empty_pool, intern, intern_all, atlas_char}
use spectatord.StringPool.Canonical.{IsValid, intern_canonical}

empty_pool-IsValid : IsValid empty_pool
empty_pool-IsValid = record { agrees = tt; counted = refl; missed = refl; sized = refl }

-- Characters that Atlas does not allow become underscores.
cleans : sanitize (chars "a b/c~") ≡ chars "a_b_c~"
unfolding atlas_char
cleans = refl

intern_canonical_example :
    ((intern empty_pool (chars "a b")).1
      ≡ (intern (intern_all (intern empty_pool (chars "a b")).0 (chars "x" ∷ [])) (chars "a_b")).1)
    ↔ (sanitize (chars "a b") ≡ sanitize (chars "a_b"))
intern_canonical_example =
    intern_canonical empty_pool (chars "a b") (chars "a_b") (chars "x" ∷ []) empty_pool-IsValid
