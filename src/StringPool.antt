-- ===== src/StringPool.antt =====
-- spectator/string_pool.cc: the pool that interns the texts of tags, and the character set of Atlas after
-- the generator tools/gen_valid_chars.cc. A reference is the index of its copy among all copies made; the
-- hash table is an association list by content, since `XXH3_64bits` only spreads its keys.
pub mod Canonical
mod Tests
use spectatord.Base.{
  ℕ, suc, ◌+◌, List, [], ◌∷◌, ◌++◌, map, Option, none, some, Bool, true, false, ◌==◌, ◌&&◌, ◌||◌,
  leb, length, if◌then◌else◌,
}
use spectatord.CText.{text_eq}

-- `kAtlasChars[c]`: `charsAllowed` of the generator.
unfoldable pub atlas_char : ℕ → ℕ
atlas_char c =
    if c == b'.'
      || c == b'-'
      || (leb b'0' c && leb c b'9')
      || (leb b'a' c && leb c b'z')
      || (leb b'A' c && leb c b'Z')
      || c == b'~'
      || c == b'^'
    then c
    else b'_'

-- The copy that the loop over the characters makes.
abbrev pub sanitize : List ℕ → List ℕ
sanitize = map atlas_char

pub record StringPoolStats : Type 0 where
  pub alloc_size : ℕ
  pub table_size : ℕ
  pub hits : ℕ
  pub misses : ℕ

pub record StringPool : Type 0 where
  pub table : List (List ℕ × ℕ)
  pub copies : List (List ℕ)
  pub stats : StringPoolStats

abbrev pub empty_pool : StringPool
empty_pool = record {
  table = [];
  copies = [];
  stats = record { alloc_size = 0; table_size = 0; hits = 0; misses = 0 };
}

-- `table_.find`, with `StringComparer`.
unfoldable pub find : List ℕ → List (List ℕ × ℕ) → Option ℕ
find s [] = none
find s ((k, r) ∷ table) = if text_eq k s then some r else find s table

abbrev hit : StringPool → ℕ → StringPool × ℕ
hit pool ref =
    let st = pool.stats in (record pool { stats = record st { hits = st.hits + 1 } }, ref)

-- A new copy, with its terminator, becomes an entry.
abbrev miss : StringPool → List ℕ → StringPool × ℕ
miss pool copy =
    let st = pool.stats in
    (
      record {
        table = (copy, length pool.copies) ∷ pool.table;
        copies = pool.copies ++ copy ∷ [];
        stats = record {
          alloc_size = st.alloc_size + (length copy + 1);
          table_size = st.table_size + 1;
          hits = st.hits;
          misses = st.misses + 1;
        };
      },
      length pool.copies,
    )

abbrev second_lookup : StringPool → List ℕ → Option ℕ → StringPool × ℕ
second_lookup pool copy none = miss pool copy
second_lookup pool copy (some ref) = hit pool ref

abbrev first_lookup : StringPool → List ℕ → Option ℕ → StringPool × ℕ
first_lookup pool s none = second_lookup pool (sanitize s) (find (sanitize s) pool.table)
first_lookup pool s (some ref) = hit pool ref

-- `StringPool::Intern`
unfoldable pub intern : StringPool → List ℕ → StringPool × ℕ
intern pool s = first_lookup pool s (find s pool.table)

-- The pool after interning texts one after the other.
unfoldable pub intern_all : StringPool → List (List ℕ) → StringPool
intern_all pool [] = pool
intern_all pool (s ∷ ss) = intern_all (intern pool s).0 ss
