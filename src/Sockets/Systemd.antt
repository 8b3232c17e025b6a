-- ===== src/Sockets/Systemd.antt =====
-- util/systemd.h: socket activation and notification. What the kernel says of a descriptor is a parameter.
use spectatord.Base.{
  ℕ, zero, suc, ◌+◌, ◌-◌, ◌≤◌, ◌<◌, ◌≡◌, refl, sym, ap, ◌∙◌, ◌⊎◌, inl, inr, List, [], ◌∷◌, ◌++◌,
  Option, none, some, Bool, true, false, ◌==◌, ◌&&◌, leb, length, length-append, length-replicate,
  take, replicate, if◌then◌else◌, arith, Bool-cases,
}
use spectatord.Int.{ℤ, pos, negsuc}

-- The kinds of socket that the code asks for.
pub data Family : Type 0 where
  unix : Family
  inet : Family
  inet6 : Family
  other_family : Family

abbrev pub family_eq : Family → Family → Bool
family_eq Family.unix Family.unix = true
family_eq Family.inet Family.inet = true
family_eq Family.inet6 Family.inet6 = true
family_eq _ _ = false

-- What `getsockopt` and `getsockname` say of a descriptor; a descriptor that is no socket has none.
pub record Socket : Type 0 where
  pub family : Family
  pub is_dgram : Bool
  pub port : ℕ

abbrev pub is_dgram_of : Option Socket → Family → Bool
is_dgram_of none family = false
is_dgram_of (some s) family = family_eq s.family family && s.is_dgram

-- `get_socket_port`: `none` stands for -1.
abbrev pub socket_port : Option Socket → Option ℕ
socket_port none = none
socket_port (some s) =
    if family_eq s.family Family.inet
    then some s.port
    else if family_eq s.family Family.inet6
    then some s.port
    else none

abbrev pub has_port : Option ℕ → ℕ → Bool
has_port none port = false
has_port (some p) port = p == port

-- `LISTEN_FDS` as `strtol` reads it: not there, not a number to the end, or a number.
pub data ListenFds : Type 0 where
  unset : ListenFds
  malformed : ListenFds
  number : ℤ → ListenFds

-- `listen_fds`, with the cache of its first call; the environment variable is removed with a good number.
unfoldable pub listen_fds : Option ℕ → ListenFds → ℕ × Option ℕ × ListenFds
listen_fds (some n) env = (n, some n, env)
listen_fds none ListenFds.unset = (0, some 0, ListenFds.unset)
listen_fds none ListenFds.malformed = (0, some 0, ListenFds.malformed)
listen_fds none (ListenFds.number (pos n)) = (n, some n, ListenFds.unset)
listen_fds none (ListenFds.number (negsuc n)) = (0, some 0, ListenFds.number (negsuc n))

abbrev pub sd_listen_fds_start : ℕ
sd_listen_fds_start = 3

-- The loops over the descriptors from `fd` on.
abbrev pub first_from : (ℕ → Bool) → ℕ → ℕ → Option ℕ
first_from test fd zero = none
first_from test fd (suc n) = if test fd then some fd else first_from test (suc fd) n

module _ (sockets : ℕ → Option Socket) where
  unfoldable pub get_systemd_socket : ℕ → Option ℕ
  get_systemd_socket n =
      first_from (λ fd. is_dgram_of (sockets fd) Family.unix) sd_listen_fds_start n

  abbrev pub is_udp : ℕ → ℕ → Bool
  is_udp port fd =
      if is_dgram_of (sockets fd) Family.inet && has_port (socket_port (sockets fd)) port
      then true
      else is_dgram_of (sockets fd) Family.inet6 && has_port (socket_port (sockets fd)) port

  unfoldable pub get_systemd_udp_socket : ℕ → ℕ → Option ℕ
  get_systemd_udp_socket n port = first_from (is_udp port) sd_listen_fds_start n

-- The first descriptor that passes the test, if there is one.
abbrev pub IsFirst : (ℕ → Bool) → ℕ → ℕ → Option ℕ → Type 0
IsFirst test fd n none = (i : ℕ) → fd ≤ i → i < fd + n → test i ≡ false
IsFirst test fd n (some i) =
    (fd ≤ i) × (i < fd + n) × (test i ≡ true) × ((j : ℕ) → fd ≤ j → j < i → test j ≡ false)

equal-or-after : (fd i : ℕ) → fd ≤ i → (fd ≡ i) ⊎ (suc fd ≤ i)
equal-or-after fd i h = ground arith

widen :
    (test : ℕ → Bool) (fd n : ℕ) (o : Option ℕ)
    → test fd ≡ false
    → IsFirst test (suc fd) n o
    → IsFirst test fd (suc n) o
widen test fd n none e h = λ i a b. elim (equal-or-after fd i a) [
  | inl same ↦ ap test (sym same) ∙ e
  | inr after ↦ h i after (omega (arith, b))
]
widen test fd n (some i) e (from, to, found, none_before) = (
  omega (arith, from),
  omega (arith, to),
  found,
  λ j a b. elim (equal-or-after fd j a) [
    | inl same ↦ ap test (sym same) ∙ e
    | inr after ↦ none_before j after b
  ],
)

pub first_from-IsFirst : (test : ℕ → Bool) (fd n : ℕ) → IsFirst test fd n (first_from test fd n)
first_from-IsFirst test fd zero = λ i a b. absurd (omega (arith, a, b))
first_from-IsFirst test fd (suc n) = elim (Bool-cases (test fd)) [
  | inl e ↦ rw e (omega arith, omega arith, e, λ j a b. absurd (omega (arith, a, b)))
  | inr e ↦ rw e (widen test fd n _ e (first_from-IsFirst test (suc fd) n))
]

-- Of the descriptors that systemd passes, the first UDP socket on the port is taken, of either family; none
-- is taken only if there is none.
pub get_systemd_udp_socket-IsFirst :
    (sockets : ℕ → Option Socket) (n port : ℕ)
    → IsFirst (is_udp sockets port) 3 n (get_systemd_udp_socket sockets n port)
unfolding get_systemd_udp_socket
get_systemd_udp_socket-IsFirst sockets n port = first_from-IsFirst (is_udp sockets port) 3 n

-- The address of `sd_notify`: `sizeof(sun_path)`, the bytes of `sun_path`, and `addr_len`; the path comes behind the
-- two bytes of the family.
abbrev pub sun_path_size : ℕ
sun_path_size = 108

abbrev pub pad : List ℕ → List ℕ
pad s = s ++ replicate (sun_path_size - length s) 0

unfoldable pub notify_address : List ℕ → Option (List ℕ × ℕ)
notify_address [] = none
notify_address (c ∷ path) =
    if leb sun_path_size (length (c ∷ path))
    then none
    else if c == b'@'
    then some (pad (0 ∷ path), 2 + 1 + (length (c ∷ path) - 1))
    else some (pad (c ∷ path), 2 + length (c ∷ path) + 1)

-- The bytes of the path that the kernel reads.
abbrev pub read_path : List ℕ × ℕ → List ℕ
read_path a = take (a.1 - 2) a.0

-- What the kernel is to read of a path: an abstract name with a leading 0 for its `@`, or the path with its 0.
abbrev pub wanted : ℕ → List ℕ → List ℕ
wanted c path = if c == b'@' then 0 ∷ path else (c ∷ path) ++ 0 ∷ []

take-pad : (s rest : List ℕ) → take (length s) (s ++ rest) ≡ s
take-pad [] rest = refl
take-pad (c ∷ s) rest = ap (λ t. c ∷ t) (take-pad s rest)

take-one_more : (s rest : List ℕ) → take (suc (length s)) (s ++ 0 ∷ rest) ≡ s ++ 0 ∷ []
take-one_more [] rest = refl
take-one_more (c ∷ s) rest = ap (λ t. c ∷ t) (take-one_more s rest)

replicate-more : (n : ℕ) → 0 < n → replicate {A = ℕ} n 0 ≡ 0 ∷ replicate (n - 1) 0
replicate-more zero h = absurd (omega (arith, h))
replicate-more (suc n) h = ap (λ k. 0 ∷ replicate k 0) (omega arith)

length-pad : (s : List ℕ) → length s ≤ 108 → length (pad s) ≡ 108
length-pad s h = omega (
  arith,
  h,
  length-append s (replicate (108 - length s) 0),
  length-replicate {A = ℕ} (108 - length s) 0,
)

-- The address of a path below 108 bytes fits `sockaddr_un`, and the kernel reads the whole path.
pub read_path-notify_address :
    (c : ℕ) (path : List ℕ)
    → length (c ∷ path) < 108
    → (a : List ℕ × ℕ) × (notify_address (c ∷ path) ≡ some a)
      × (length a.0 ≡ 108)
      × (a.1 ≤ 110)
      × (read_path a ≡ wanted c path)
unfolding notify_address
read_path-notify_address c path h =
    let small : leb sun_path_size (length (c ∷ path)) ≡ false = ground (arith, h) in
    let size = length-pad (c ∷ path) (omega (arith, h)) in
    elim (Bool-cases (c == b'@')) [
      | inl e ↦
          rw (small, e)
            (
              _,
              refl,
              size,
              omega (arith, h),
              ap (λ n. take n (pad (0 ∷ path))) abstract_bytes ∙ take-pad (0 ∷ path) _,
            )
      | inr e ↦
          rw (small, e)
            (
              _,
              refl,
              size,
              omega (arith, h),
              ap (λ n. take n (pad (c ∷ path))) path_bytes
                  ∙ ap (λ z. take (suc (length (c ∷ path))) ((c ∷ path) ++ z))
                      (replicate-more (108 - length (c ∷ path)) (omega (arith, h)))
                  ∙ take-one_more (c ∷ path) _,
            )
    ]
  where
    abstract_bytes : 2 + 1 + (length (c ∷ path) - 1) - 2 ≡ length (0 ∷ path)
    abstract_bytes = omega arith

    path_bytes : 2 + length (c ∷ path) + 1 - 2 ≡ suc (length (c ∷ path))
    path_bytes = omega arith
