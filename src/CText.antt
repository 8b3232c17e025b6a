-- ===== src/CText.antt =====
-- Text as C and C++ walk it. Memory from a pointer on is a list of bytes, the terminator 0 included; a
-- pointer into it is a suffix. Past the end of the list the memory reads 0.
pub mod Order
use Prim.Native.String.{String}
use Prim.Native.Char.{code}
use spectatord.Base.{
  ℕ, zero, suc, ◌+◌, ◌-◌, ◌≡◌, List, [], ◌∷◌, ◌++◌, Option, none, some, Bool, true, false, ltb, leb,
  ◌==◌, ◌&&◌, ◌||◌, if◌then◌else◌,
}

-- The characters of a literal.
abbrev pub chars : String → List ℕ
chars String.[] = []
chars (String.◌∷◌ c s) = code c ∷ chars s

-- `*p`
abbrev pub deref : List ℕ → ℕ
deref [] = 0
deref (c ∷ p) = c

-- `++p`
abbrev pub advance : List ℕ → List ℕ
advance [] = []
advance (c ∷ p) = p

-- The C string at a pointer: `std::string_view{p}`.
abbrev pub c_str : List ℕ → List ℕ
c_str [] = []
c_str (c ∷ p) = if c == 0 then [] else c ∷ c_str p

-- `std::strchr`, for a character other than 0: the offset of the first one in the C string.
abbrev pub strchr : ℕ → List ℕ → Option ℕ
strchr k [] = none
strchr k (c ∷ p) =
    if c == 0
    then none
    else if c == k
    then some 0
    else elim (strchr k p) [ none ↦ none | some i ↦ some (suc i) ]

-- The position of the first character that passes the test, as an offset.
abbrev pub find_if : (ℕ → Bool) → List ℕ → Option ℕ
find_if test [] = none
find_if test (c ∷ s) =
    if test c then some 0 else elim (find_if test s) [ none ↦ none | some i ↦ some (suc i) ]

-- `std::isspace` in the C locale.
abbrev pub isspace : ℕ → Bool
isspace c = c == b' ' || (leb 9 c && leb c 13)

abbrev pub text_eq : List ℕ → List ℕ → Bool
text_eq [] [] = true
text_eq [] (b ∷ t) = false
text_eq (a ∷ s) [] = false
text_eq (a ∷ s) (b ∷ t) = (a == b) && text_eq s t

-- `strcmp(s, t) < 0`, of texts with no byte 0.
abbrev pub strcmp_lt : List ℕ → List ℕ → Bool
strcmp_lt [] [] = false
strcmp_lt [] (b ∷ t) = true
strcmp_lt (a ∷ s) [] = false
strcmp_lt (a ∷ s) (b ∷ t) = ltb a b || ((a == b) && strcmp_lt s t)
