-- ===== src/StringPool/Canonical.antt =====
-- References of the pool in spectator/string_pool.cc, and the texts that they stand for.
use spectatord.Base.{
  ℕ, zero, suc, ◌+◌, ◌≡◌, refl, List, [], ◌∷◌, ◌++◌, Option, none, some, arith, length, get_elem?,
  ◌↔◌,
}
use spectatord.CText.Order.{text_eq→eq, text_eq_refl}
use spectatord.StringPool.{
  StringPool, atlas_char, sanitize, find, intern, intern_all, first_lookup, second_lookup, hit,
  miss,
}

atlas_char_idem : (c : ℕ) → atlas_char (atlas_char c) ≡ atlas_char c
unfolding atlas_char
atlas_char_idem c = ground arith

-- The character set is closed: a copy has no character to replace.
pub sanitize_idem : (s : List ℕ) → sanitize (sanitize s) ≡ sanitize s
sanitize_idem [] = refl
sanitize_idem (c ∷ s) = cc (atlas_char_idem c, sanitize_idem s)

-- The copies and the table agree, and the statistics count the entries.
abbrev pub Agrees : List (List ℕ × ℕ) → List (List ℕ) → Type 0
Agrees [] copies = Unit {0}
Agrees ((k, r) ∷ table) copies =
    (get_elem? copies r ≡ some k) × (sanitize k ≡ k) × Agrees table copies

-- The bytes that the copies of a table take, their terminators included.
abbrev pub bytes : List (List ℕ × ℕ) → ℕ
bytes [] = 0
bytes ((k, r) ∷ table) = length k + 1 + bytes table

pub record IsValid (p : StringPool) : Type 0 where
  pub agrees : Agrees p.table p.copies
  pub counted : p.stats.table_size ≡ length p.table
  pub missed : p.stats.misses ≡ length p.table
  pub sized : p.stats.alloc_size ≡ bytes p.table

get_elem?-append :
    (xs ys : List (List ℕ)) (i : ℕ) (x : List ℕ)
    → get_elem? xs i ≡ some x
    → get_elem? (xs ++ ys) i ≡ some x
get_elem?-append [] ys i x h = cc
get_elem?-append (y ∷ xs) ys zero x h = h
get_elem?-append (y ∷ xs) ys (suc i) x h = get_elem?-append xs ys i x h

get_elem?-append_last :
    (xs : List (List ℕ)) (x : List ℕ) → get_elem? (xs ++ x ∷ []) (length xs) ≡ some x
get_elem?-append_last [] x = refl
get_elem?-append_last (y ∷ xs) x = get_elem?-append_last xs x

Agrees-append :
    (table : List (List ℕ × ℕ)) (xs ys : List (List ℕ)) → Agrees table xs → Agrees table (xs ++ ys)
Agrees-append [] xs ys a = tt
Agrees-append ((k, r) ∷ table) xs ys a =
    (get_elem?-append xs ys r k a.0, a.1, Agrees-append table xs ys a.2)

find-Agrees :
    (s : List ℕ) (r : ℕ) (table : List (List ℕ × ℕ)) (copies : List (List ℕ))
    → Agrees table copies
    → find s table ≡ some r
    → (get_elem? copies r ≡ some s) × (sanitize s ≡ s)
unfolding find
find-Agrees s r [] copies a h = cc
find-Agrees s r ((k, q) ∷ table) copies a h =
    ground (arith, find-Agrees s r table copies a.2, text_eq→eq k s)

-- What one call promises: the pool stays valid, the reference is that of the sanitised text, the table
-- keeps what it had, and the call counts once.
pub record Interned (p : StringPool) (s : List ℕ) (q : StringPool) (r : ℕ) : Type 0 where
  pub valid : IsValid q
  pub found : find (sanitize s) q.table ≡ some r
  pub content : get_elem? q.copies r ≡ some (sanitize s)
  pub kept : (t : List ℕ) (i : ℕ) → find t p.table ≡ some i → find t q.table ≡ some i
  pub once : q.stats.hits + q.stats.misses ≡ suc (p.stats.hits + p.stats.misses)

hit-Interned :
    (p : StringPool) (s : List ℕ) (r : ℕ)
    → IsValid p
    → find (sanitize s) p.table ≡ some r
    → Interned p s (hit p r).0 (hit p r).1
hit-Interned p s r v h = record {
  valid = record { agrees = v.agrees; counted = v.counted; missed = v.missed; sized = v.sized };
  found = h;
  content = (find-Agrees (sanitize s) r p.table p.copies v.agrees h).0;
  kept = λ t i e. e;
  once = omega arith;
}

miss-Interned :
    (p : StringPool) (s : List ℕ)
    → IsValid p
    → find (sanitize s) p.table ≡ none
    → Interned p s (miss p (sanitize s)).0 (miss p (sanitize s)).1
unfolding find
miss-Interned p s v h = record {
  valid = record {
    agrees = (
      get_elem?-append_last p.copies (sanitize s),
      sanitize_idem s,
      Agrees-append p.table p.copies (sanitize s ∷ []) v.agrees,
    );
    counted = omega (arith, v.counted);
    missed = omega (arith, v.missed);
    sized = omega (arith, v.sized);
  };
  found = ground (arith, text_eq_refl (sanitize s));
  content = get_elem?-append_last p.copies (sanitize s);
  kept = λ t i e. ground (arith, text_eq→eq (sanitize s) t);
  once = omega arith;
}

second_lookup-Interned :
    (p : StringPool) (s : List ℕ) (o : Option ℕ)
    → IsValid p
    → find (sanitize s) p.table ≡ o
    → Interned p s (second_lookup p (sanitize s) o).0 (second_lookup p (sanitize s) o).1
second_lookup-Interned p s none v h = miss-Interned p s v h
second_lookup-Interned p s (some r) v h = hit-Interned p s r v h

first_lookup-Interned :
    (p : StringPool) (s : List ℕ) (o : Option ℕ)
    → IsValid p
    → find s p.table ≡ o
    → Interned p s (first_lookup p s o).0 (first_lookup p s o).1
first_lookup-Interned p s none v h = second_lookup-Interned p s _ v refl
first_lookup-Interned p s (some r) v h =
    let e : sanitize s ≡ s = (find-Agrees s r p.table p.copies v.agrees h).1 in
    hit-Interned p s r v (rw e h)

-- A call of `Intern` on a valid pool keeps it valid, returns a reference to the sanitised text, keeps
-- every earlier entry, and counts as one hit or one miss.
pub intern-Interned :
    (p : StringPool) (s : List ℕ) → IsValid p → Interned p s (intern p s).0 (intern p s).1
unfolding intern
intern-Interned p s v = first_lookup-Interned p s _ v refl

pub intern_all-IsValid :
    (ss : List (List ℕ)) (p : StringPool) → IsValid p → IsValid (intern_all p ss)
unfolding intern_all
intern_all-IsValid [] p v = v
intern_all-IsValid (s ∷ ss) p v = intern_all-IsValid ss (intern p s).0 (intern-Interned p s v).valid

find-intern_all :
    (ss : List (List ℕ)) (p : StringPool) (t : List ℕ) (r : ℕ)
    → IsValid p
    → find t p.table ≡ some r
    → find t (intern_all p ss).table ≡ some r
unfolding intern_all
find-intern_all [] p t r v h = h
find-intern_all (s ∷ ss) p t r v h =
    let q = intern-Interned p s v in find-intern_all ss (intern p s).0 t r q.valid (q.kept t r h)

-- Two calls, with any others between them, return one reference exactly if their sanitised texts are
-- equal: so the equality of pointers is that of the interned texts.
pub intern_canonical :
    (p : StringPool) (s t : List ℕ) (between : List (List ℕ))
    → IsValid p
    → ((intern p s).1 ≡ (intern (intern_all (intern p s).0 between) t).1)
      ↔ (sanitize s ≡ sanitize t)
intern_canonical p s t between v = (same_text, same_ref)
  where
    first : Interned p s (intern p s).0 (intern p s).1
    first = intern-Interned p s v

    mid : StringPool
    mid = intern_all (intern p s).0 between

    second : Interned mid t (intern mid t).0 (intern mid t).1
    second = intern-Interned mid t (intern_all-IsValid between (intern p s).0 first.valid)

    still : find (sanitize s) (intern mid t).0.table ≡ some (intern p s).1
    still =
        second.kept (sanitize s) (intern p s).1 (
          find-intern_all between (intern p s).0 (sanitize s) (intern p s).1 first.valid
            first.found)

    same_text : (intern p s).1 ≡ (intern mid t).1 → sanitize s ≡ sanitize t
    same_text e =
        let a = (find-Agrees (sanitize s) _ _ _ second.valid.agrees still).0 in
        cc (a, second.content)

    same_ref : sanitize s ≡ sanitize t → (intern p s).1 ≡ (intern mid t).1
    same_ref e = cc (still, second.found)
