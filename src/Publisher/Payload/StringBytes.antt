-- ===== src/Publisher/Payload/StringBytes.antt =====
-- The bytes of the strings of a payload, and the reader of strings.
use spectatord.Base.{
  ℕ, suc, ◌≡◌, refl, sym, ap, subst, ◌∙◌, List, [], ◌∷◌, ◌++◌, some, arith, length, append_assoc,
  append-nil,
}
use spectatord.Tags.{StrRef}
use spectatord.Smile.{append_string}
use spectatord.Smile.RoundTrip.{append_string_lem, IsAscii}
use spectatord.Publisher.Payload.{append_strings}
use spectatord.Publisher.Payload.Table.{Includes}
use spectatord.Publisher.Payload.TagBytes.{read_string-append_string}
use spectatord.Publisher.Payload.Reader.{read_strings}
use mathlib.Core.List.{Permᴰ}

abbrev pub AllAscii : List StrRef → Type 0
AllAscii [] = Unit {0}
AllAscii (s ∷ ts) = IsAscii s × AllAscii ts

pub append_strings_lem :
    (ts : List StrRef) (payload : List ℕ)
    → append_strings payload ts ≡ payload ++ append_strings [] ts
append_strings_lem [] payload = sym (append-nil payload)
append_strings_lem (s ∷ ts) payload =
    append_strings_lem ts _
    ∙ ap (λ p. p ++ append_strings [] ts) (append_string_lem payload s)
    ∙ append_assoc payload (append_string [] s) (append_strings [] ts)
    ∙ ap (λ b. payload ++ b) (sym (append_strings_lem ts (append_string [] s)))

pub read_strings-append_strings :
    (ts : List StrRef) (rest : List ℕ)
    → AllAscii ts
    → read_strings (length ts) (append_strings [] ts ++ rest) ≡ some (ts, rest)
unfolding read_strings
read_strings-append_strings [] rest h = refl
read_strings-append_strings (s ∷ ts) rest h =
    ap (read_strings (suc (length ts))) (
      ap (λ b. b ++ rest) (append_strings_lem ts (append_string [] s))
      ∙ append_assoc (append_string [] s) (append_strings [] ts) rest)
    ∙ rw
        (
          read_string-append_string s (append_strings [] ts ++ rest) h.0,
          read_strings-append_strings ts rest h.1,
        )
        refl

-- An order of iteration visits each key once.
abbrev pub Reorders : (List StrRef → List StrRef) → Type 0
Reorders order = (ts : List StrRef) → Permᴰ ts (order ts)

pub Permᴰ-length : {ts us : List StrRef} → Permᴰ ts us → length ts ≡ length us
Permᴰ-length Permᴰ.nil = refl
Permᴰ-length (Permᴰ.cons e d) = ap suc (Permᴰ-length d)
Permᴰ-length (Permᴰ.swap e₁ e₂) = refl
Permᴰ-length (Permᴰ.trans d₁ d₂) = Permᴰ-length d₁ ∙ Permᴰ-length d₂

pub Permᴰ-Includes : {ts us : List StrRef} → Permᴰ ts us → Includes ts us
Permᴰ-Includes Permᴰ.nil s h = h
Permᴰ-Includes (Permᴰ.cons e d) s h = ground (arith, Permᴰ-Includes d s)
Permᴰ-Includes (Permᴰ.swap e₁ e₂) s h = ground arith
Permᴰ-Includes (Permᴰ.trans d₁ d₂) s h = Permᴰ-Includes d₂ s (Permᴰ-Includes d₁ s h)

pub Permᴰ-AllAscii : {ts us : List StrRef} → Permᴰ ts us → AllAscii ts → AllAscii us
Permᴰ-AllAscii Permᴰ.nil h = h
Permᴰ-AllAscii (Permᴰ.cons e d) h = (subst IsAscii e h.0, Permᴰ-AllAscii d h.1)
Permᴰ-AllAscii (Permᴰ.swap e₁ e₂) h = (subst IsAscii e₂ h.1.0, (subst IsAscii e₁ h.0, h.1.1))
Permᴰ-AllAscii (Permᴰ.trans d₁ d₂) h = Permᴰ-AllAscii d₂ (Permᴰ-AllAscii d₁ h)
