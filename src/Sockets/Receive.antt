-- ===== src/Sockets/Receive.antt =====
-- `start_udp_receive` of server/udp_server.cc and `start_local_receive` of server/local_server.cc: the handler of a
-- datagram. The buffer keeps what earlier datagrams left behind the new one.
use spectatord.Base.{
  ℕ, zero, suc, ◌≤◌, ◌<◌, ◌≡◌, refl, ap, List, [], ◌∷◌, ◌++◌, Option, none, some, Bool, true, false,
  ltb, ◌==◌, length, length-append, length-drop, drop, if◌then◌else◌, arith,
}
use spectatord.CText.{c_str}

-- `std::array<char, 65536> recv_buffer_`
abbrev pub recv_buffer_size : ℕ
recv_buffer_size = 65536

-- The receive puts a datagram, of no more bytes than the buffer has, at its start.
abbrev pub received : List ℕ → List ℕ → List ℕ
received buffer datagram = datagram ++ drop (length datagram) buffer

-- `recv_buffer_[i] = '\0'`: `none` is a write behind the buffer.
abbrev pub put_zero : List ℕ → ℕ → Option (List ℕ)
put_zero [] i = none
put_zero (c ∷ buffer) zero = some (0 ∷ buffer)
put_zero (c ∷ buffer) (suc i) = elim (put_zero buffer i) [ none ↦ none | some b ↦ some (c ∷ b) ]

-- What the handler of a datagram does: nothing, a call with the memory from the buffer on, or a write out of bounds.
pub data Handled : Type 0 where
  skipped : Handled
  message : List ℕ → Handled
  out_of_bounds : Handled

abbrev pub call : Option (List ℕ) → Handled
call none = Handled.out_of_bounds
call (some memory) = Handled.message memory

unfoldable pub handle_datagram : List ℕ → Bool → List ℕ → Handled
handle_datagram buffer err datagram =
    let transferred = length datagram in
    if err
    then Handled.skipped
    else if ltb 0 transferred
    then call (put_zero (received buffer datagram) transferred)
    else Handled.skipped

-- Text with no byte 0.
abbrev pub NoZero : List ℕ → Type 0
NoZero [] = Unit {0}
NoZero (c ∷ s) = ((c == 0) ≡ false) × NoZero s

put_zero-received :
    (datagram buffer : List ℕ)
    → length datagram < length buffer
    → put_zero (received buffer datagram) (length datagram)
      ≡ some (datagram ++ 0 ∷ drop (suc (length datagram)) buffer)
put_zero-received [] [] h = absurd (omega (arith, h))
put_zero-received [] (b ∷ buffer) h = refl
put_zero-received (c ∷ datagram) [] h = absurd (omega (arith, h))
put_zero-received (c ∷ datagram) (b ∷ buffer) h =
    rw (put_zero-received datagram buffer (omega (arith, h))) refl

put_zero-none : (s : List ℕ) → put_zero (s ++ []) (length s) ≡ none
put_zero-none [] = refl
put_zero-none (c ∷ s) = rw (put_zero-none s) refl

put_zero-full :
    (datagram buffer : List ℕ)
    → length buffer ≤ length datagram
    → put_zero (received buffer datagram) (length datagram) ≡ none
put_zero-full [] [] h = refl
put_zero-full [] (b ∷ buffer) h = absurd (omega (arith, h))
put_zero-full (c ∷ datagram) [] h = rw (put_zero-none datagram) refl
put_zero-full (c ∷ datagram) (b ∷ buffer) h =
    rw (put_zero-full datagram buffer (omega (arith, h))) refl

c_str-NoZero : (s rest : List ℕ) → NoZero s → c_str (s ++ 0 ∷ rest) ≡ s
c_str-NoZero [] rest h = refl
c_str-NoZero (c ∷ s) rest h = rw h.0 (ap (λ t. c ∷ t) (c_str-NoZero s rest h.1))

some_bytes : (s : List ℕ) → ltb 0 (suc (length s)) ≡ true
some_bytes s = ground arith

-- A datagram that is not empty and leaves room in the buffer is handed over as a C string with its text, which has no
-- byte 0; behind the terminator stands what the buffer held.
pub handle_datagram-message :
    (buffer : List ℕ) (c : ℕ) (datagram : List ℕ)
    → length (c ∷ datagram) < length buffer
    → NoZero (c ∷ datagram)
    → (memory : List ℕ) × (handle_datagram buffer false (c ∷ datagram) ≡ Handled.message memory)
      × (c_str memory ≡ c ∷ datagram)
      × (length memory ≡ length buffer)
unfolding handle_datagram
handle_datagram-message buffer c datagram h z =
    let rest = drop (suc (length (c ∷ datagram))) buffer in
    (
      (c ∷ datagram) ++ 0 ∷ rest,
      rw (some_bytes datagram) (ap call (put_zero-received (c ∷ datagram) buffer h)),
      c_str-NoZero (c ∷ datagram) rest z,
      omega (
        arith,
        length-append (c ∷ datagram) (0 ∷ rest),
        length-drop (suc (length (c ∷ datagram))) buffer,
        h,
      ),
    )

-- A datagram that fills the buffer is logged, and then terminated behind its end.
pub handle_datagram-overrun :
    (buffer : List ℕ) (c : ℕ) (datagram : List ℕ)
    → length (c ∷ datagram) ≡ length buffer
    → handle_datagram buffer false (c ∷ datagram) ≡ Handled.out_of_bounds
unfolding handle_datagram
handle_datagram-overrun buffer c datagram h =
    rw (some_bytes datagram) (ap call (put_zero-full (c ∷ datagram) buffer (omega (arith, h))))
