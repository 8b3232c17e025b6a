-- ===== src/HttpClient/Headers.antt =====
-- `curl_capture_headers_fun` of spectator/http_client.cc: the headers of a response, a line at a time.
use spectatord.Base.{
  ℕ, suc, ◌+◌, ◌-◌, ◌≡◌, refl, ap, List, [], ◌∷◌, ◌++◌, Option, none, some, Bool, true, false, ◌||◌,
  ltb, length, length-append, drop, take, if◌then◌else◌, arith,
}
use spectatord.CText.{text_eq}
use spectatord.HttpClient.Url.{find_char, before_char, Lacks, find_char-Lacks, before_char-Lacks}

-- `headers->emplace`: a key that is there keeps its value.
abbrev pub has_header : List (List ℕ × List ℕ) → List ℕ → Bool
has_header [] k = false
has_header (h ∷ hs) k = text_eq h.0 k || has_header hs k

abbrev pub emplace : List (List ℕ × List ℕ) → List ℕ → List ℕ → List (List ℕ × List ℕ)
emplace hs k v = if has_header hs k then hs else hs ++ (k, v) ∷ []

-- The key and the value of a line, if it has a colon with more than a character behind it; the value starts two
-- characters behind the colon and loses the last one.
unfoldable pub header_of : List ℕ → Option (List ℕ × List ℕ)
header_of line =
    let p = find_char line b':' in
    if ltb 2 (length p) then some (before_char line b':', take (length p - 3) (drop 2 p)) else none

abbrev pub add_header : List (List ℕ × List ℕ) → Option (List ℕ × List ℕ) → List (List ℕ × List ℕ)
add_header hs none = hs
add_header hs (some h) = emplace hs h.0 h.1

abbrev capture_from : List (List ℕ × List ℕ) → List (List ℕ) → List (List ℕ × List ℕ)
capture_from hs [] = hs
capture_from hs (line ∷ lines) = capture_from (add_header hs (header_of line)) lines

abbrev pub capture_headers : Bool → List (List ℕ) → List (List ℕ × List ℕ)
capture_headers false lines = []
capture_headers true lines = capture_from [] lines

take-length : (xs ys : List ℕ) → take (length xs) (xs ++ ys) ≡ xs
take-length [] ys = refl
take-length (x ∷ xs) ys = ap (λ t. x ∷ t) (take-length xs ys)

-- A line of a key without a colon, a colon, a space, a value and a line feed gives the key with the value.
pub header_of-line :
    (key value : List ℕ)
    → Lacks b':' key
    → header_of (key ++ b':' ∷ b' ' ∷ (value ++ 10 ∷ [])) ≡ some (key, value)
unfolding header_of
header_of-line key value h =
    rw
      (
        find_char-Lacks b':' key (b' ' ∷ (value ++ 10 ∷ [])) h,
        before_char-Lacks b':' key (b' ' ∷ (value ++ 10 ∷ [])) h,
      )
      (let n : length (value ++ 10 ∷ []) ≡ length value + 1 = length-append value (10 ∷ []) in
        let m : suc (suc (length (value ++ 10 ∷ []))) - 3 ≡ length value = omega (arith, n) in
        let two : ltb 2 (suc (suc (length (value ++ 10 ∷ [])))) ≡ true = ground (arith, n) in
        rw (two, m) (ap (λ v. some (key, v)) (take-length value (10 ∷ []))))
