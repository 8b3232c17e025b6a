-- ===== src/HttpClient/Url.antt =====
-- `PathFromUrl` of spectator/strings.cc. An iterator is what is left of the text.
use spectatord.Base.{
  ℕ, ◌≡◌, refl, ap, List, [], ◌∷◌, ◌++◌, Option, none, some, Bool, true, false, ◌==◌, ltb, length,
  drop, if◌then◌else◌, arith,
}
use spectatord.CText.{chars}

-- `std::find`: from the first such character on.
abbrev pub find_char : List ℕ → ℕ → List ℕ
find_char [] k = []
find_char (c ∷ s) k = if c == k then c ∷ s else find_char s k

-- The characters before the first such one.
abbrev pub before_char : List ℕ → ℕ → List ℕ
before_char [] k = []
before_char (c ∷ s) k = if c == k then [] else c ∷ before_char s k

abbrev pub is_empty : List ℕ → Bool
is_empty [] = true
is_empty (c ∷ s) = false

unfoldable pub path_from_url : List ℕ → List ℕ
path_from_url url =
    let proto_end = find_char url b':' in
    let path_begin = find_char (drop 3 proto_end) b'/' in
    if is_empty url
    then chars "/"
    else if is_empty proto_end
    then url
    else if ltb (length proto_end) 3
    then url
    else if is_empty path_begin
    then chars "/"
    else before_char path_begin b'?'

-- A text without a character.
abbrev pub Lacks : ℕ → List ℕ → Type 0
Lacks k [] = Unit {0}
Lacks k (c ∷ s) = ((c == k) ≡ false) × Lacks k s

pub find_char-Lacks : (k : ℕ) (s rest : List ℕ) → Lacks k s → find_char (s ++ k ∷ rest) k ≡ k ∷ rest
find_char-Lacks k [] rest h = ground arith
find_char-Lacks k (c ∷ s) rest h = rw h.0 (find_char-Lacks k s rest h.1)

pub find_char-none : (k : ℕ) (s : List ℕ) → Lacks k s → find_char s k ≡ []
find_char-none k [] h = refl
find_char-none k (c ∷ s) h = rw h.0 (find_char-none k s h.1)

pub before_char-Lacks : (k : ℕ) (s rest : List ℕ) → Lacks k s → before_char (s ++ k ∷ rest) k ≡ s
before_char-Lacks k [] rest h = ground arith
before_char-Lacks k (c ∷ s) rest h = rw h.0 (ap (λ t. c ∷ t) (before_char-Lacks k s rest h.1))

pub before_char-all : (k : ℕ) (s : List ℕ) → Lacks k s → before_char s k ≡ s
before_char-all k [] h = refl
before_char-all k (c ∷ s) h = rw h.0 (ap (λ t. c ∷ t) (before_char-all k s h.1))

-- The part behind `://` of a URL, with nothing or a query behind the path.
abbrev pub with_query : List ℕ → Option (List ℕ) → List ℕ
with_query path none = path
with_query path (some query) = path ++ b'?' ∷ query

abbrev pub url_of : List ℕ → List ℕ → List ℕ → Option (List ℕ) → List ℕ
url_of proto host path query = proto ++ b':' ∷ b'/' ∷ b'/' ∷ (host ++ b'/' ∷ with_query path query)

before_char-with_query :
    (path : List ℕ) (query : Option (List ℕ))
    → Lacks b'?' path
    → before_char (with_query path query) b'?' ≡ path
before_char-with_query path none h = before_char-all b'?' path h
before_char-with_query path (some query) h = before_char-Lacks b'?' path query h

not-empty : (s : List ℕ) (k : ℕ) (rest : List ℕ) → is_empty (s ++ k ∷ rest) ≡ false
not-empty [] k rest = refl
not-empty (c ∷ s) k rest = refl

-- `PathFromUrl` is the path of a URL with its slash, without the protocol, the host and the query.
pub path_from_url-url_of :
    (proto host path : List ℕ) (query : Option (List ℕ))
    → Lacks b':' proto
    → Lacks b'/' host
    → Lacks b'?' path
    → path_from_url (url_of proto host path query) ≡ b'/' ∷ path
unfolding path_from_url
path_from_url-url_of proto host path query hp hh hq =
    let rest = b'/' ∷ b'/' ∷ (host ++ b'/' ∷ with_query path query) in
    rw
      (
        not-empty proto b':' rest,
        find_char-Lacks b':' proto rest hp,
        find_char-Lacks b'/' host (with_query path query) hh,
        before_char-with_query path query hq,
      )
      (ground arith)

-- A URL of a host alone has the path `/`.
pub path_from_url-host :
    (proto host : List ℕ)
    → Lacks b':' proto
    → Lacks b'/' host
    → path_from_url (proto ++ b':' ∷ b'/' ∷ b'/' ∷ host) ≡ chars "/"
unfolding path_from_url
path_from_url-host proto host hp hh =
    rw
      (
        not-empty proto b':' (b'/' ∷ b'/' ∷ host),
        find_char-Lacks b':' proto (b'/' ∷ b'/' ∷ host) hp,
        find_char-none b'/' host hh,
      )
      (ground arith)
