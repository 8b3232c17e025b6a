-- ===== src/Smile/RoundTrip.antt =====
-- What the encoder of spectator/smile.cc writes, and the Smile reader of Decode.
use spectatord.Base.{
  ◌-◌, leb, inl, inr, Bool-cases, leb→le, ℕ, ◌+◌, ◌*◌, ◌%◌, ◌^◌, ◌≤◌, ◌<◌, ◌≡◌, refl, ap, ◌∙◌, List,
  [], ◌∷◌, ◌++◌, ◌⊎◌, none, some, arith, length, append_assoc,
}
use spectatord.Smile.{append_size, append_double, append_string, zigzag_encode}
use spectatord.Smile.Decode.{
  as_float, as_string, Token, read_token, read_ranged, read_vint, read_groups, read_chars,
  read_until_end, zigzag_decode,
}

-- The short and the long forms alike only add bytes behind the buffer.
pub append_size_lem : (buffer : List ℕ) (n : ℕ) → append_size buffer n ≡ buffer ++ append_size [] n
unfolding append_size
append_size_lem buffer n = ground arith

zigzag_even : (n : ℕ) → n < 2 ^ 31 → zigzag_encode n ≡ 2 * n
unfolding zigzag_encode
zigzag_even n h = omega arith

zigzag_decode-double : (n : ℕ) → zigzag_decode (2 * n) ≡ some n
unfolding zigzag_decode
zigzag_decode-double n = ground arith

-- An index below 2^31 is read back, unless it needs the form of four groups.
pub read_token-append_size :
    (n : ℕ) (rest : List ℕ)
    → n < 2 ^ 31
    → (n < 2 ^ 19) ⊎ (2 ^ 26 ≤ n)
    → read_token (append_size [] n ++ rest) ≡ some (Token.int n, rest)
unfolding read_token read_ranged read_vint append_size
read_token-append_size n rest h k = ground (arith, zigzag_decode-double n)

-- Of the form of four groups the reader makes nothing: it begins with the byte 0.
pub read_token-append_size_four :
    (n : ℕ) (rest : List ℕ) → 2 ^ 19 ≤ n → n < 2 ^ 26 → read_token (append_size [] n ++ rest) ≡ none
unfolding read_token read_ranged read_vint append_size
read_token-append_size_four n rest h k = ground arith

read_groups_ten :
    (g0 g1 g2 g3 g4 g5 g6 g7 g8 g9 : ℕ) (rest : List ℕ)
    → g0 < 128
    → g1 < 128
    → g2 < 128
    → g3 < 128
    → g4 < 128
    → g5 < 128
    → g6 < 128
    → g7 < 128
    → g8 < 128
    → g9 < 128
    → read_groups 10 0 (g0 ∷ g1 ∷ g2 ∷ g3 ∷ g4 ∷ g5 ∷ g6 ∷ g7 ∷ g8 ∷ g9 ∷ rest)
      ≡ some (
        ((((((((g0 * 128 + g1) * 128 + g2) * 128 + g3) * 128 + g4) * 128 + g5) * 128 + g6) * 128
                    + g7)
                  * 128
                + g8)
              * 128
            + g9,
        rest,
      )
unfolding read_groups
read_groups_ten g0 g1 g2 g3 g4 g5 g6 g7 g8 g9 rest h0 h1 h2 h3 h4 h5 h6 h7 h8 h9 = ground arith

read_token_float : (bytes : List ℕ) → read_token (0x29 ∷ bytes) ≡ as_float (read_groups 10 0 bytes)
unfolding read_token
read_token_float bytes = refl

-- The 64 bits of a value are read back.
pub read_token-append_double :
    (l : ℕ) (rest : List ℕ)
    → l < 2 ^ 64
    → read_token (append_double [] l ++ rest) ≡ some (Token.float l, rest)
unfolding append_double
read_token-append_double l rest h =
    read_token_float _
    ∙ ap as_float (
        read_groups_ten _ _ _ _ _ _ _ _ _ _ rest (omega arith) (omega arith) (omega arith)
          (omega arith) (omega arith) (omega arith) (omega arith) (omega arith) (omega arith)
          (omega arith))
    ∙ ap (λ (v : ℕ). some (Token.float v, rest)) (omega arith)

-- Appending in place is appending the token of an empty buffer.
pub append_double_lem :
    (buffer : List ℕ) (l : ℕ) → append_double buffer l ≡ buffer ++ append_double [] l
unfolding append_double
append_double_lem buffer l = refl

pub append_string_lem : (buffer s : List ℕ) → append_string buffer s ≡ buffer ++ append_string [] s
unfolding append_string
append_string_lem buffer [] = refl
append_string_lem buffer (c ∷ s) = ground (
  arith,
  append_assoc buffer ((0x40 - 1 + length (c ∷ s)) % 256 ∷ []) (c ∷ s),
  append_assoc (buffer ++ (0xE0 ∷ [])) (c ∷ s) (0xFC ∷ []),
  append_assoc buffer (0xE0 ∷ []) ((c ∷ s) ++ (0xFC ∷ [])),
)

read_chars-append : (s rest : List ℕ) → read_chars (length s) (s ++ rest) ≡ some (s, rest)
unfolding read_chars
read_chars-append [] rest = refl
read_chars-append (c ∷ s) rest = rw (read_chars-append s rest)

-- A character of the ASCII range is below 128.
abbrev pub IsAscii : List ℕ → Type 0
IsAscii [] = Unit
IsAscii (c ∷ s) = (c < 128) × IsAscii s

read_until_end-append :
    (s rest : List ℕ) → IsAscii s → read_until_end (s ++ 0xFC ∷ rest) ≡ some (s, rest)
unfolding read_until_end
read_until_end-append [] rest h = refl
read_until_end-append (c ∷ s) rest (hc, h) = ground (arith, read_until_end-append s rest)

read_token_short :
    (t : ℕ) (bytes : List ℕ)
    → 0x40 ≤ t
    → t < 0x80
    → read_token (t ∷ bytes) ≡ as_string (read_chars (t - 0x3F) bytes)
unfolding read_token read_ranged
read_token_short t bytes h k = ground arith

read_token_long : (bytes : List ℕ) → read_token (0xE0 ∷ bytes) ≡ as_string (read_until_end bytes)
unfolding read_token
read_token_long bytes = refl

short_count : (n : ℕ) → n ≤ 64 → (0x40 - 1 + n) % 256 - 0x3F ≡ n
short_count n h = omega arith

read_short :
    (s rest : List ℕ)
    → 1 ≤ length s
    → length s ≤ 64
    → read_token ((0x40 - 1 + length s) % 256 ∷ (s ++ rest)) ≡ some (Token.string s, rest)
read_short s rest h k =
    read_token_short _ (s ++ rest) (omega arith) (omega arith)
    ∙ ap (λ n. as_string (read_chars n (s ++ rest))) (short_count (length s) k)
    ∙ ap as_string (read_chars-append s rest)

read_long :
    (s rest : List ℕ)
    → IsAscii s
    → read_token (0xE0 ∷ ((s ++ 0xFC ∷ []) ++ rest)) ≡ some (Token.string s, rest)
read_long s rest h =
    read_token_long _
    ∙ ap (λ bytes. as_string (read_until_end bytes)) (append_assoc s (0xFC ∷ []) rest)
    ∙ ap as_string (read_until_end-append s rest h)

-- A string of ASCII characters is read back, in each of its three forms.
pub read_token-append_string :
    (s rest : List ℕ)
    → IsAscii s
    → read_token (append_string [] s ++ rest) ≡ some (Token.string s, rest)
unfolding append_string
read_token-append_string [] rest h = unfold read_token in refl
read_token-append_string (c ∷ s) rest h = elim (Bool-cases (leb (length (c ∷ s)) 64)) [
  | inl e ↦ rw e (read_short (c ∷ s) rest (omega arith) (leb→le _ _ e))
  | inr e ↦ rw e (read_long (c ∷ s) rest h)
]
