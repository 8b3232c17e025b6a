-- ===== src/Server/Measurement/Scan.antt =====
-- Positions in a text that is made of parts, and the searches that find them.
use spectatord.Base.{
  ℕ, zero, suc, ◌+◌, ◌≡◌, refl, ap, ◌∙◌, List, [], ◌∷◌, ◌++◌, some, Bool, true, ◌==◌, ◌&&◌, not,
  length, take, drop, get_or, arith, length-append,
}
use spectatord.CText.{find_if}
use spectatord.Tags.{Tags}
use spectatord.Id.{add}
use spectatord.Server.Measurement.{is_name_end, is_equals, substr, find_from}

-- All characters pass the test.
abbrev pub all_chars : (ℕ → Bool) → List ℕ → Bool
all_chars test [] = true
all_chars test (c ∷ s) = test c && all_chars test s

-- A character of a key: no `=` and no terminator. One of a name or a value: no `,`, no `:` and no terminator.
abbrev pub key_char : ℕ → Bool
key_char c = not (is_equals c) && not (c == 0)

abbrev pub value_char : ℕ → Bool
value_char c = not (is_name_end c) && not (c == 0)

abbrev pub all_tags : List (List ℕ × List ℕ) → Bool
all_tags [] = true
all_tags ((k, v) ∷ kvs) = all_chars key_char k && all_chars value_char v && all_tags kvs

-- The tags as a client writes them, before what follows.
abbrev pub printed_tags : List (List ℕ × List ℕ) → List ℕ → List ℕ
printed_tags [] rest = rest
printed_tags ((k, v) ∷ kvs) rest = b',' ∷ (k ++ b'=' ∷ (v ++ printed_tags kvs rest))

abbrev pub added : Tags → List (List ℕ × List ℕ) → Tags
added tags [] = tags
added tags ((k, v) ∷ kvs) = added (add tags k v) kvs

drop-append : (xs ys : List ℕ) → drop (length xs) (xs ++ ys) ≡ ys
drop-append [] ys = refl
drop-append (x ∷ xs) ys = drop-append xs ys

pub take-append : (xs ys : List ℕ) → take (length xs) (xs ++ ys) ≡ xs
take-append [] ys = refl
take-append (x ∷ xs) ys = ap (λ r. x ∷ r) (take-append xs ys)

pub get_or-append : (xs ys : List ℕ) (c : ℕ) → get_or (xs ++ c ∷ ys) (length xs) 0 ≡ c
get_or-append [] ys c = refl
get_or-append (x ∷ xs) ys c = get_or-append xs ys c

pub find_equals :
    (k ys : List ℕ)
    → all_chars key_char k ≡ true
    → find_if is_equals (k ++ b'=' ∷ ys) ≡ some (length k)
find_equals [] ys h = refl
find_equals (c ∷ k) ys h = ground (arith, find_equals k ys)

pub find_end :
    (v ys : List ℕ) (c : ℕ)
    → all_chars value_char v ≡ true
    → is_name_end c ≡ true
    → find_if is_name_end (v ++ c ∷ ys) ≡ some (length v)
find_end [] ys c h e = ground (arith, e)
find_end (x ∷ v) ys c h e = ground (arith, find_end v ys c)

pub drop-at : (xs ys : List ℕ) (c n : ℕ) → n ≡ length xs + 1 → drop n (xs ++ c ∷ ys) ≡ ys
drop-at xs ys c zero h = absurd (omega arith)
drop-at [] ys c (suc zero) h = refl
drop-at [] ys c (suc (suc n)) h = absurd (omega arith)
drop-at (x ∷ xs) ys c (suc n) h = drop-at xs ys c n (omega arith)

pub drop-key :
    (before k ys : List ℕ) (a b n : ℕ)
    → n ≡ length before + 1 + length k + 1
    → drop n (before ++ a ∷ (k ++ b ∷ ys)) ≡ ys
drop-key before k ys a b zero h = absurd (omega arith)
drop-key [] k ys a b (suc n) h = drop-at k ys b n (omega arith)
drop-key (x ∷ before) k ys a b (suc n) h = drop-key before k ys a b n (omega arith)

pub find_from-drop :
    (test : ℕ → Bool) (str xs : List ℕ) (from i : ℕ)
    → drop from str ≡ xs
    → find_if test xs ≡ some i
    → find_from test str from ≡ some (from + i)
find_from-drop test str xs from i h e = rw (find_from, h, e) refl

pub substr-drop :
    (str xs ys : List ℕ) (from to : ℕ)
    → drop from str ≡ xs ++ ys
    → to ≡ from + length xs
    → substr str from to ≡ xs
substr-drop str xs ys from to h e =
    rw h (ap (λ n. take n (xs ++ ys)) (omega (arith, e)) ∙ take-append xs ys)

regroup_key : (k v r : List ℕ) (b : ℕ) → k ++ b ∷ (v ++ r) ≡ (k ++ b ∷ v) ++ r
regroup_key [] v r b = refl
regroup_key (x ∷ k) v r b = ap (λ t. x ∷ t) (regroup_key k v r b)

pub regroup :
    (before k v r : List ℕ) (a b : ℕ)
    → before ++ a ∷ (k ++ b ∷ (v ++ r)) ≡ (before ++ a ∷ (k ++ b ∷ v)) ++ r
regroup [] k v r a b = ap (λ t. a ∷ t) (regroup_key k v r b)
regroup (x ∷ before) k v r a b = ap (λ t. x ∷ t) (regroup before k v r a b)

pub length-regroup :
    (before k v : List ℕ) (a b : ℕ)
    → length before + 1 + length k + 1 + length v ≡ length (before ++ a ∷ (k ++ b ∷ v))
length-regroup before k v a b =
    omega (arith, length-append before (a ∷ (k ++ b ∷ v)), length-append k (b ∷ v))
