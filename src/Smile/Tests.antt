-- ===== src/Smile/Tests.antt =====
-- Runs, and the round trips at concrete values.
use spectatord.Base.{ℕ, ◌≡◌, ◌++◌, List, [], ◌∷◌, some, none, inl, arith}
use spectatord.CText.{chars}
use spectatord.Smile.{append_size, append_double, append_string}
use spectatord.Smile.Decode.{Token, read_token}
use spectatord.Smile.RoundTrip.{
  IsAscii, read_token-append_size, read_token-append_size_four, read_token-append_double,
  read_token-append_string,
}

abbrev tail : List ℕ
tail = 0xFB ∷ []

read_token-append_size_run : read_token (append_size [] 300 ++ tail) ≡ some (Token.int 300, tail)
read_token-append_size_run = read_token-append_size 300 tail (omega arith) (inl (omega arith))

read_token-append_size_four_example : read_token (append_size [] 1_000_000 ++ tail) ≡ none
read_token-append_size_four_example =
    read_token-append_size_four 1_000_000 tail (omega arith) (omega arith)

read_token-append_double_run :
    read_token (append_double [] 4611686018427387904 ++ tail)
    ≡ some (Token.float 4611686018427387904, tail)
read_token-append_double_run = read_token-append_double 4611686018427387904 tail (omega arith)

app-IsAscii : IsAscii (chars "app")
app-IsAscii = (omega arith, (omega arith, (omega arith, tt)))

read_token-append_string_run :
    read_token (append_string [] (chars "app") ++ tail) ≡ some (Token.string (chars "app"), tail)
read_token-append_string_run = read_token-append_string (chars "app") tail app-IsAscii
