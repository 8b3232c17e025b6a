-- ===== src/Sockets/Proc.antt =====
-- server/proc_utils.cc: what the kernel says of its buffers and of the queue of a port. Files are lists of lines, and the
-- number parsers come from the C library.
use spectatord.Base.{
  ℕ, ◌≡◌, refl, List, [], ◌∷◌, ◌++◌, Option, none, some, Bool, false, ◌==◌, ◌&&◌, ◌||◌, ltb, length,
  get_or, if◌then◌else◌,
}
use spectatord.Int.{ℤ, pos, eq_ℤ, is_positive}

-- `kDefault`
abbrev pub k_default : ℤ
k_default = pos 16_777_216

-- What the file of the buffer's limit is: not there, empty or not readable, or a text.
pub data ProcFile : Type 0 where
  missing : ProcFile
  unread : ProcFile
  text : List ℕ → ProcFile

-- The statics of `max_buffer_size`: the last result, and the name that it is for.
pub record Cached : Type 0 where
  pub result : ℤ
  pub last_proc_file : Option ℕ

-- `SimpleAtoi` and the functions of `strtol`.
pub record Parsers : Type 0 where
  pub simple_atoi : List ℕ → Option ℤ
  pub strtol16 : List ℕ → ℤ
  pub strtoul16 : List ℕ → ℕ
  pub strtoul10 : List ℕ → ℕ

pub record UdpInfo : Type 0 where
  pub num_dropped : ℕ
  pub rx_queue_bytes : ℕ

abbrev pub is_separator : ℕ → Bool
is_separator c = c == b' ' || c == b':' || c == 10

abbrev pub push_field : List ℕ → List (List ℕ) → List (List ℕ)
push_field [] fields = fields
push_field (c ∷ field) fields = (c ∷ field) ∷ fields

-- `StrSplit` by any of the separators, with `SkipEmpty`: the field that starts here, and those behind it.
abbrev split_from : List ℕ → List ℕ × List (List ℕ)
split_from [] = ([], [])
split_from (c ∷ s) =
    let (field, fields) = split_from s in
    if is_separator c then ([], push_field field fields) else (c ∷ field, fields)

unfoldable pub fields_of : List ℕ → List (List ℕ)
fields_of line = let (field, fields) = split_from line in push_field field fields

abbrev pub or_else : Option UdpInfo → Option UdpInfo → Option UdpInfo
or_else none o = o
or_else (some i) o = some i

abbrev pub is_last : Option ℕ → ℕ → Bool
is_last none name = false
is_last (some last) name = last == name

module _ (P : Parsers) where
  abbrev pub default_of : Option ℤ → ℤ
  default_of none = k_default
  default_of (some n) = n

  abbrev pub limit_of : ProcFile → ℤ
  limit_of ProcFile.missing = k_default
  limit_of ProcFile.unread = k_default
  limit_of (ProcFile.text s) = default_of (P.simple_atoi s)

  -- The address of a port's line, and its numbers, if the line has all its fields.
  unfoldable pub info_of_line : ℕ → List ℕ → Option UdpInfo
  unfolding fields_of
  info_of_line port line =
      let fields = fields_of line in
      if ltb (length fields) 17
      then none
      else if eq_ℤ (pos port) (P.strtol16 (get_or fields 2 []))
      then some (record {
        num_dropped = P.strtoul10 (get_or fields 16 []);
        rx_queue_bytes = P.strtoul16 (get_or fields 7 []);
      })
      else none

  -- `max_buffer_size`: the statics after the call, the result among them. A name is compared by its pointer.
  unfoldable pub max_buffer_size : Cached → ℕ → ProcFile → Cached
  max_buffer_size c proc_file file =
      if is_positive c.result && is_last c.last_proc_file proc_file
      then c
      else record { result = limit_of file; last_proc_file = some proc_file }

  abbrev pub first_info : ℕ → List (List ℕ) → Option UdpInfo
  first_info port [] = none
  first_info port (line ∷ lines) = or_else (info_of_line port line) (first_info port lines)

  -- `udp_info`: `none` is a file that does not open; the first line is the header.
  unfoldable pub udp_info : ℕ → Option (List (List ℕ)) → Option UdpInfo
  udp_info port none = none
  udp_info port (some []) = none
  udp_info port (some (header ∷ lines)) = first_info port lines

  abbrev Others : ℕ → List (List ℕ) → Type 0
  Others port [] = Unit {0}
  Others port (line ∷ lines) = (info_of_line port line ≡ none) × Others port lines

  -- The numbers of a port are those of its first line behind the header, whatever lines of other ports, or lines that
  -- are too short, stand before it; what follows is not read.
  pub udp_info_first :
      (port : ℕ) (header line : List ℕ) (before after : List (List ℕ)) (i : UdpInfo)
      → Others port before
      → info_of_line port line ≡ some i
      → udp_info port (some (header ∷ (before ++ line ∷ after))) ≡ some i
  unfolding udp_info
  udp_info_first port header line [] after i h e = rw e refl
  udp_info_first port header line (other ∷ before) after i h e =
      rw h.0 (udp_info_first port header line before after i h.1 e)
