-- ===== src/Publisher/Payload/TagBytes.antt =====
-- The bytes of the tags of a payload, as indices into its table, and the reader of tags.
use spectatord.Base.{
  ◌>>=◌, ℕ, zero, suc, ◌+◌, ◌^◌, ◌<◌, ◌≡◌, refl, sym, ap, ◌∙◌, List, [], ◌∷◌, ◌++◌, Option, none,
  some, arith, length, get_elem?, append_assoc, append-nil, length-append, inl,
}
use spectatord.Tags.{StrRef, Tag}
use spectatord.Smile.{append_size, append_double, append_string}
use spectatord.Smile.RoundTrip.{
  append_size_lem, read_token-append_size, read_token-append_double, read_token-append_string,
  IsAscii,
}
use spectatord.Publisher.Payload.{number, add_tags, get_common_ids, append_sizes}
use spectatord.Publisher.Payload.Table.{HasTags, find-Indexed}
use spectatord.Publisher.Payload.Reader.{read_int, read_float, read_string, read_ref, read_tags}

pub read_int-append_size :
    (n : ℕ) (rest : List ℕ) → n < 2 ^ 19 → read_int (append_size [] n ++ rest) ≡ some (n, rest)
unfolding read_int
read_int-append_size n rest h = rw (read_token-append_size n rest (omega arith) (inl h)) refl

pub read_float-append_double :
    (l : ℕ) (rest : List ℕ) → l < 2 ^ 64 → read_float (append_double [] l ++ rest) ≡ some (l, rest)
unfolding read_float
read_float-append_double l rest h = rw (read_token-append_double l rest h) refl

pub read_string-append_string :
    (s rest : List ℕ) → IsAscii s → read_string (append_string [] s ++ rest) ≡ some (s, rest)
unfolding read_string
read_string-append_string s rest h = rw (read_token-append_string s rest h) refl

abbrev pub pairs : List Tag → List (StrRef × StrRef)
pairs [] = []
pairs (tag ∷ tags) = (tag.key, tag.value) ∷ pairs tags

-- Two numbers behind a payload.
two_sizes :
    (payload b : List ℕ) (i j : ℕ)
    → append_size (append_size payload i) j ++ b
      ≡ payload ++ (append_size [] i ++ (append_size [] j ++ b))
two_sizes payload b i j =
    ap (λ p. p ++ b) (append_size_lem (append_size payload i) j)
    ∙ append_assoc (append_size payload i) (append_size [] j) b
    ∙ ap (λ p. p ++ (append_size [] j ++ b)) (append_size_lem payload i)
    ∙ append_assoc payload (append_size [] i) (append_size [] j ++ b)

module _ (ts : List StrRef) (small : length ts < 2 ^ 19) where
  read_ref-append_size :
      (i : ℕ) (s : StrRef) (rest : List ℕ)
      → i < length ts
      → get_elem? ts i ≡ some s
      → read_ref ts (append_size [] i ++ rest) ≡ some (s, rest)
  unfolding read_ref
  read_ref-append_size i s rest h e = rw (read_int-append_size i rest (omega arith), e) refl

  -- What is read behind some tags, with them.
  abbrev pub behind :
      List (StrRef × StrRef)
      → Option (List (StrRef × StrRef) × List ℕ)
      → Option (List (StrRef × StrRef) × List ℕ)
  behind tags none = none
  behind tags (some (more, rest)) = some (tags ++ more, rest)

  -- Bytes that stand for tags.
  abbrev pub Written : List (StrRef × StrRef) → List ℕ → Type 0
  Written tags bytes =
      (m n : ℕ) (rest : List ℕ)
      → m ≡ length tags + n
      → read_tags ts m (bytes ++ rest) ≡ behind tags (read_tags ts n rest)

  behind_cons :
      (k v : StrRef) (tags : List (StrRef × StrRef)) (o : Option (List (StrRef × StrRef) × List ℕ))
      → behind ((k, v) ∷ []) (behind tags o) ≡ behind ((k, v) ∷ tags) o
  behind_cons k v tags none = refl
  behind_cons k v tags (some (more, rest)) = refl

  behind_append :
      (xs ys : List (StrRef × StrRef)) (o : Option (List (StrRef × StrRef) × List ℕ))
      → behind xs (behind ys o) ≡ behind (xs ++ ys) o
  behind_append xs ys none = refl
  behind_append xs ys (some (more, rest)) = ap (λ t. some (t, rest)) (sym (append_assoc xs ys more))

  one_behind :
      (k v : StrRef) (o : Option (List (StrRef × StrRef) × List ℕ))
      → (o >>= (λ p. some ((k, v) ∷ p.0, p.1))) ≡ behind ((k, v) ∷ []) o
  one_behind k v none = refl
  one_behind k v (some p) = refl

  read_one :
      (k v : StrRef) (n i j : ℕ) (rest : List ℕ)
      → i < length ts
      → get_elem? ts i ≡ some k
      → j < length ts
      → get_elem? ts j ≡ some v
      → read_tags ts (suc n) (append_size [] i ++ (append_size [] j ++ rest))
        ≡ behind ((k, v) ∷ []) (read_tags ts n rest)
  unfolding read_tags
  read_one k v n i j rest hi ei hj ej =
      rw
        (
          read_ref-append_size i k (append_size [] j ++ rest) hi ei,
          read_ref-append_size j v rest hj ej,
        )
        (one_behind k v (read_tags ts n rest))

  pub Written-tag :
      (k v : StrRef) (i j : ℕ) (tags : List (StrRef × StrRef)) (bytes : List ℕ)
      → i < length ts
      → get_elem? ts i ≡ some k
      → j < length ts
      → get_elem? ts j ≡ some v
      → Written tags bytes
      → Written ((k, v) ∷ tags) (append_size [] i ++ (append_size [] j ++ bytes))
  Written-tag k v i j tags bytes hi ei hj ej w zero n rest e = absurd (omega (arith, e))
  Written-tag k v i j tags bytes hi ei hj ej w (suc m) n rest e =
      ap (read_tags ts (suc m)) (
        append_assoc (append_size [] i) (append_size [] j ++ bytes) rest
        ∙ ap (λ b. append_size [] i ++ b) (append_assoc (append_size [] j) bytes rest))
      ∙ read_one k v m i j (bytes ++ rest) hi ei hj ej
      ∙ ap (behind ((k, v) ∷ [])) (w m n rest (omega arith))
      ∙ behind_cons k v tags (read_tags ts n rest)

  behind_none : (o : Option (List (StrRef × StrRef) × List ℕ)) → behind [] o ≡ o
  behind_none none = refl
  behind_none (some (more, rest)) = refl

  pub Written-none : Written [] []
  Written-none m n rest e =
      ap (λ k. read_tags ts k rest) (omega (arith, e)) ∙ sym (behind_none (read_tags ts n rest))

  pub Written-append :
      (xs ys : List (StrRef × StrRef)) (x y : List ℕ)
      → Written xs x
      → Written ys y
      → Written (xs ++ ys) (x ++ y)
  Written-append xs ys x y wx wy m n rest e =
      ap (read_tags ts m) (append_assoc x y rest)
      ∙ wx m (length ys + n) (y ++ rest) (e ∙ omega (arith, length-append xs ys))
      ∙ ap (behind xs) (wy (length ys + n) n rest refl)
      ∙ behind_append xs ys (read_tags ts n rest)

  -- `add_tags` finds all indices, and writes the tags.
  pub record Added (tags : List Tag) : Type 0 where
    pub bytes : List ℕ
    pub added : (payload : List ℕ) → add_tags payload (number 0 ts) tags ≡ some (payload ++ bytes)
    pub written : Written (pairs tags) bytes

  pub add_tags-Added : (tags : List Tag) → HasTags ts tags → Added tags
  unfolding add_tags
  add_tags-Added [] h = record {
    bytes = [];
    added = λ payload. ap some (sym (append-nil payload));
    written = Written-none;
  }
  add_tags-Added (tag ∷ tags) h =
      let k = find-Indexed ts tag.key h.0 in
      let v = find-Indexed ts tag.value h.1 in
      let more = add_tags-Added tags h.2 in
      record {
        bytes = append_size [] k.place ++ (append_size [] v.place ++ more.bytes);
        added = λ payload.
            rw (k.found, v.found)
              (more.added _ ∙ ap some (two_sizes payload more.bytes k.place v.place));
        written =
            Written-tag tag.key tag.value k.place v.place (pairs tags) more.bytes k.inside k.there
              v.inside v.there more.written;
      }

  -- The indices of the common tags, looked up once for all measurements.
  pub record Precomputed (tags : List Tag) : Type 0 where
    pub ids : List ℕ
    pub looked_up : get_common_ids (number 0 ts) tags ≡ some ids
    pub doubled : length ids ≡ length tags + length tags
    pub bytes : List ℕ
    pub added : (payload : List ℕ) → append_sizes payload ids ≡ payload ++ bytes
    pub written : Written (pairs tags) bytes

  pub get_common_ids-Precomputed : (tags : List Tag) → HasTags ts tags → Precomputed tags
  unfolding get_common_ids
  get_common_ids-Precomputed [] h = record {
    ids = [];
    looked_up = refl;
    doubled = refl;
    bytes = [];
    added = λ payload. sym (append-nil payload);
    written = Written-none;
  }
  get_common_ids-Precomputed (tag ∷ tags) h =
      let k = find-Indexed ts tag.key h.0 in
      let v = find-Indexed ts tag.value h.1 in
      let more = get_common_ids-Precomputed tags h.2 in
      record {
        ids = k.place ∷ v.place ∷ more.ids;
        looked_up = rw (k.found, v.found, more.looked_up) refl;
        doubled = omega (arith, more.doubled);
        bytes = append_size [] k.place ++ (append_size [] v.place ++ more.bytes);
        added = λ payload. more.added _ ∙ two_sizes payload more.bytes k.place v.place;
        written =
            Written-tag tag.key tag.value k.place v.place (pairs tags) more.bytes k.inside k.there
              v.inside v.there more.written;
      }
