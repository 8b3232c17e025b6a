-- ===== src/Smile/Decode.antt =====
-- A reader of the Smile tokens that the encoder of spectator/smile.cc uses, after the format's
-- specification: small integers, variable-length integers, 64-bit floats in groups of seven bits,
-- and ASCII strings.
use spectatord.Base.{
  ℕ, zero, suc, ◌+◌, ◌-◌, ◌*◌, ◌/◌, ◌%◌, List, [], ◌∷◌, leb, ltb, ◌==◌, if◌then◌else◌, true, false,
  ◌&&◌, Option, none, some,
}

pub data Token : Type 0 where
  int : ℕ → Token
  float : ℕ → Token
  string : List ℕ → Token
  start_array end_array : Token

-- The groups of an integer: seven bits each, and six in the last, which has the top bit set. An int32
-- takes five at most.
unfoldable pub read_vint : ℕ → ℕ → List ℕ → Option (ℕ × List ℕ)
read_vint zero acc bytes = none
read_vint (suc n) acc [] = none
read_vint (suc n) acc (b ∷ bytes) =
    let more = read_vint n (acc * 128 + b) bytes in
    if leb 128 b then some (acc * 64 + (b - 128), bytes) else more

-- The zigzag form of a number that is not negative is even.
unfoldable pub zigzag_decode : ℕ → Option ℕ
zigzag_decode z = if z % 2 == 0 then some (z / 2) else none

unfoldable pub read_groups : ℕ → ℕ → List ℕ → Option (ℕ × List ℕ)
read_groups zero acc bytes = some (acc, bytes)
read_groups (suc n) acc [] = none
read_groups (suc n) acc (b ∷ bytes) =
    let more = read_groups n (acc * 128 + b) bytes in if ltb b 128 then more else none

unfoldable pub read_chars : ℕ → List ℕ → Option (List ℕ × List ℕ)
read_chars zero bytes = some ([], bytes)
read_chars (suc n) [] = none
read_chars (suc n) (b ∷ bytes) = elim (read_chars n bytes) [
  | none ↦ none
  | some (s, rest) ↦ some (b ∷ s, rest)
]

-- A long string goes up to the end marker.
unfoldable pub read_until_end : List ℕ → Option (List ℕ × List ℕ)
read_until_end [] = none
read_until_end (b ∷ bytes) = elim (b == 0xFC) [
  | true ↦ some ([], bytes)
  | false ↦ elim (read_until_end bytes) [ none ↦ none | some (s, rest) ↦ some (b ∷ s, rest) ]
]

abbrev pub as_int : Option (ℕ × List ℕ) → Option (Token × List ℕ)
as_int none = none
as_int (some (z, rest)) = elim (zigzag_decode z) [ none ↦ none | some n ↦ some (int n, rest) ]

abbrev pub as_float : Option (ℕ × List ℕ) → Option (Token × List ℕ)
as_float none = none
as_float (some (l, rest)) = some (float l, rest)

abbrev pub as_string : Option (List ℕ × List ℕ) → Option (Token × List ℕ)
as_string none = none
as_string (some (s, rest)) = some (string s, rest)

-- The first bytes that carry a length or a value.
unfoldable pub read_ranged : ℕ → List ℕ → Option (Token × List ℕ)
read_ranged t bytes =
    if leb 0x40 t && ltb t 0x80
    then as_string (read_chars (t - 0x3F) bytes)
    else if leb 0xC0 t && ltb t 0xE0
    then as_int (some (t - 0xC0, bytes))
    else none

-- One token from the front. Any other first byte is no token of this subset.
unfoldable pub read_token : List ℕ → Option (Token × List ℕ)
read_token [] = none
read_token (t ∷ bytes) =
    if t == 0x20
    then some (string [], bytes)
    else if t == 0x24
    then as_int (read_vint 5 0 bytes)
    else if t == 0x29
    then as_float (read_groups 10 0 bytes)
    else if t == 0xE0
    then as_string (read_until_end bytes)
    else if t == 0xF8
    then some (start_array, bytes)
    else if t == 0xF9
    then some (end_array, bytes)
    else read_ranged t bytes
