-- ===== src/Publisher/Payload/Reader.antt =====
-- How the backend reads a payload, written against the format and not against the encoder: a header, a table of strings,
-- and entries up to the end of the array.
use spectatord.Base.{
  ◌>>=◌, ℕ, zero, suc, List, [], ◌∷◌, Option, none, some, Bool, true, false, ◌==◌, length,
  get_elem?, if◌then◌else◌,
}
use spectatord.Tags.{StrRef}
use spectatord.Smile.Decode.{Token, read_token}

-- An entry as the backend sees it: keys with values, the operation, and the bits of the value.
pub record Entry : Type 0 where
  pub tags : List (StrRef × StrRef)
  pub op : ℕ
  pub bits : ℕ

abbrev pub int_token : Token × List ℕ → Option (ℕ × List ℕ)
int_token (Token.int n, rest) = some (n, rest)
int_token (Token.float n, rest) = none
int_token (Token.string s, rest) = none
int_token (Token.start_array, rest) = none
int_token (Token.end_array, rest) = none

abbrev pub float_token : Token × List ℕ → Option (ℕ × List ℕ)
float_token (Token.int n, rest) = none
float_token (Token.float l, rest) = some (l, rest)
float_token (Token.string s, rest) = none
float_token (Token.start_array, rest) = none
float_token (Token.end_array, rest) = none

abbrev pub string_token : Token × List ℕ → Option (StrRef × List ℕ)
string_token (Token.int n, rest) = none
string_token (Token.float n, rest) = none
string_token (Token.string s, rest) = some (s, rest)
string_token (Token.start_array, rest) = none
string_token (Token.end_array, rest) = none

unfoldable pub read_int : List ℕ → Option (ℕ × List ℕ)
read_int bytes = do t ← read_token bytes; int_token t

unfoldable pub read_float : List ℕ → Option (ℕ × List ℕ)
read_float bytes = do t ← read_token bytes; float_token t

unfoldable pub read_string : List ℕ → Option (StrRef × List ℕ)
read_string bytes = do t ← read_token bytes; string_token t

unfoldable pub read_strings : ℕ → List ℕ → Option (List StrRef × List ℕ)
read_strings zero bytes = some ([], bytes)
read_strings (suc n) bytes = do
  (s, rest) ← read_string bytes
  (ss, rest') ← read_strings n rest
  some (s ∷ ss, rest')

-- An index, as the string of the table that it stands for.
unfoldable pub read_ref : List StrRef → List ℕ → Option (StrRef × List ℕ)
read_ref table bytes = do (i, rest) ← read_int bytes; s ← get_elem? table i; some (s, rest)

unfoldable pub read_tags : List StrRef → ℕ → List ℕ → Option (List (StrRef × StrRef) × List ℕ)
read_tags table zero bytes = some ([], bytes)
read_tags table (suc n) bytes = do
  (k, rest) ← read_ref table bytes
  (v, rest') ← read_ref table rest
  (tags, rest'') ← read_tags table n rest'
  some ((k, v) ∷ tags, rest'')

unfoldable pub read_entry : List StrRef → List ℕ → Option (Entry × List ℕ)
read_entry table bytes = do
  (n, rest) ← read_int bytes
  (tags, rest') ← read_tags table n rest
  (op, rest'') ← read_int rest'
  (bits, rest''') ← read_float rest''
  some (record { tags = tags; op = op; bits = bits }, rest''')

-- The end of the array, and of the payload.
abbrev pub is_end : List ℕ → Bool
is_end [] = false
is_end (b ∷ []) = b == 0xF9
is_end (b ∷ c ∷ bytes) = false

-- Entries up to the end, on fuel.
unfoldable pub read_entries : ℕ → List StrRef → List ℕ → Option (List Entry)
read_entries zero table bytes = none
read_entries (suc fuel) table bytes = elim (is_end bytes) [
  | true ↦ some []
  | false ↦ do (e, rest) ← read_entry table bytes; es ← read_entries fuel table rest; some (e ∷ es)
]

abbrev pub read_body : ℕ → List ℕ → Option (List Entry)
read_body fuel bytes = do
  (n, rest) ← read_int bytes
  (table, rest') ← read_strings n rest
  read_entries fuel table rest'

-- What stands behind a prefix.
unfoldable pub strip : List ℕ → List ℕ → Option (List ℕ)
strip [] bytes = some bytes
strip (a ∷ prefix) [] = none
strip (a ∷ prefix) (b ∷ bytes) = if a == b then strip prefix bytes else none

-- A payload, with its header and the start of the array. Each entry takes a byte at least.
unfoldable pub read_payload : List ℕ → Option (List Entry)
unfolding strip
read_payload bytes = do
  rest ← strip (b':' ∷ b')' ∷ 10 ∷ 0 ∷ 0xF8 ∷ []) bytes
  read_body (length bytes) rest
