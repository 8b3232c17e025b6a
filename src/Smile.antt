-- ===== src/Smile.antt =====
-- spectator/smile.cc and smile.h: the encoder of the Smile format. A buffer is the list of the bytes
-- appended so far; `compressed_buffer` (gzip) is not modelled.
pub mod Decode
pub mod RoundTrip
mod Tests
use spectatord.Base.{
  ℕ, ◌+◌, ◌-◌, ◌*◌, ◌/◌, ◌%◌, ◌^◌, List, [], ◌∷◌, ◌++◌, leb, length, if◌then◌else◌, Bool,
}

-- A value of type `size_t` has 64 bits.
unfoldable pub zigzag_encode : ℕ → ℕ
zigzag_encode input = input * 2 % 2 ^ 64

abbrev pub k_token_prefix_small_int : ℕ
k_token_prefix_small_int = 0xC0

abbrev pub k_token_int32 : ℕ
k_token_int32 = 0x0

abbrev pub k_byte_int32 : ℕ
k_byte_int32 = 0x24

abbrev pub k_byte_float64 : ℕ
k_byte_float64 = 0x29

-- The part of `Append(size_t)` behind the two short forms, on the zigzag value.
unfoldable pub append_vint : List ℕ → ℕ → List ℕ
append_vint buffer i0 =
    let b0 = 0x80 + i0 % 64 in
    let i1 = i0 / 64 in
    let b1 = i1 % 128 in
    let i2 = i1 / 128 in
    let b2 = i2 % 128 in
    let i3 = i2 / 128 in
    let b3 = i3 % 128 in
    if leb i1 0x7F
    then buffer ++ (k_byte_int32 ∷ i1 ∷ b0 ∷ [])
    else if leb i2 0x7F
    then buffer ++ (k_byte_int32 ∷ i2 ∷ b1 ∷ b0 ∷ [])
    else if leb i3 0x7F
    then buffer ++ (k_token_int32 ∷ i3 ∷ b2 ∷ b1 ∷ b0 ∷ [])
    else buffer ++ (k_byte_int32 ∷ i3 / 128 % 256 ∷ b3 ∷ b2 ∷ b1 ∷ b0 ∷ [])

-- `SmilePayload::Append(size_t)`
unfoldable pub append_size : List ℕ → ℕ → List ℕ
unfolding zigzag_encode append_vint
append_size buffer n =
    let i = zigzag_encode n in
    if leb i 0x3F
    then (if leb i 0x1F
        then buffer ++ ((k_token_prefix_small_int + i) ∷ [])
        else buffer ++ (k_byte_int32 ∷ (0x80 + i) ∷ []))
    else append_vint buffer i

-- `SmilePayload::Append(double)`, given the 64 bits of the value.
unfoldable pub append_double : List ℕ → ℕ → List ℕ
append_double buffer l =
    let hi5 = l / 2 ^ 35 % 2 ^ 32 in
    let b4 = hi5 % 128 in
    let b3 = hi5 / 128 % 128 in
    let b2 = hi5 / 128 / 128 % 128 in
    let b1 = hi5 / 128 / 128 / 128 % 128 in
    let b0 = hi5 / 128 / 128 / 128 / 128 % 256 in
    let mid = l / 2 ^ 28 % 2 ^ 32 in
    let lo4 = l % 2 ^ 32 in
    let c3 = lo4 % 128 in
    let c2 = lo4 / 128 % 128 in
    let c1 = lo4 / 128 / 128 % 128 in
    let c0 = lo4 / 128 / 128 / 128 % 128 in
    buffer ++ (k_byte_float64 ∷ b0 ∷ b1 ∷ b2 ∷ b3 ∷ b4 ∷ mid % 128 ∷ c0 ∷ c1 ∷ c2 ∷ c3 ∷ [])

-- `SmilePayload::Append(std::string_view)`
unfoldable pub append_string : List ℕ → List ℕ → List ℕ
append_string buffer [] = buffer ++ (0x20 ∷ [])
append_string buffer (c ∷ s) =
    let len = length (c ∷ s) in
    if leb len 64
    then (buffer ++ ((0x40 - 1 + len) % 256 ∷ [])) ++ (c ∷ s)
    else ((buffer ++ (0xE0 ∷ [])) ++ (c ∷ s)) ++ (0xFC ∷ [])

-- `Init`: the header and the start of the array.
unfoldable pub init : List ℕ
init = b':' ∷ b')' ∷ 10 ∷ 0 ∷ 0xF8 ∷ []

-- `Result`: the end of the array, before compression.
unfoldable pub result : List ℕ → List ℕ
result buffer = buffer ++ (0xF9 ∷ [])
