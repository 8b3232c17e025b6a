-- ===== src/Publisher/Pool/Invariant.antt =====
-- The pool of threads of spectator/publisher.h between two steps.
use spectatord.Base.{
  ℕ, zero, suc, ◌+◌, ◌≤◌, ◌<◌, ◌≡◌, refl, ap, ◌∙◌, List, [], ◌∷◌, ◌++◌, length, length-append,
  if◌then◌else◌, ◌==◌, arith,
}
use spectatord.HttpClient.{HttpResponse}
use spectatord.Publisher.Pool.{
  Task, started, holding, answered, returned, Pool, buffers, posted, Step, starts, takes, responds,
  returns, decrements, Reach, here, next,
}

-- How often a buffer is in a list.
abbrev pub count : ℕ → List ℕ → ℕ
count b [] = 0
count b (c ∷ cs) = (if b == c then 1 else 0) + count b cs

-- The buffers that tasks hold.
abbrev pub held : List Task → List ℕ
held [] = []
held (started n ∷ ts) = held ts
held (holding n b ∷ ts) = b ∷ held ts
held (answered n b ∷ ts) = b ∷ held ts
held (returned ∷ ts) = held ts

-- The measurements of the batches without a response.
abbrev pub open_sum : List Task → ℕ
open_sum [] = 0
open_sum (started n ∷ ts) = n + open_sum ts
open_sum (holding n b ∷ ts) = n + open_sum ts
open_sum (answered n b ∷ ts) = open_sum ts
open_sum (returned ∷ ts) = open_sum ts

abbrev pub sum : List ℕ → ℕ
sum [] = 0
sum (n ∷ ns) = n + sum ns

abbrev pub response_sum : List (ℕ × HttpResponse) → ℕ
response_sum [] = 0
response_sum (r ∷ rs) = r.0 + response_sum rs

count-append : (b : ℕ) (xs ys : List ℕ) → count b (xs ++ ys) ≡ count b xs + count b ys
count-append b [] ys = omega arith
count-append b (x ∷ xs) ys = omega (arith, count-append b xs ys)

held-append : (xs ys : List Task) → held (xs ++ ys) ≡ held xs ++ held ys
held-append [] ys = refl
held-append (started n ∷ xs) ys = held-append xs ys
held-append (holding n b ∷ xs) ys = ap (λ t. b ∷ t) (held-append xs ys)
held-append (answered n b ∷ xs) ys = ap (λ t. b ∷ t) (held-append xs ys)
held-append (returned ∷ xs) ys = held-append xs ys

open_sum-append : (xs ys : List Task) → open_sum (xs ++ ys) ≡ open_sum xs + open_sum ys
open_sum-append [] ys = omega arith
open_sum-append (started n ∷ xs) ys = omega (arith, open_sum-append xs ys)
open_sum-append (holding n b ∷ xs) ys = omega (arith, open_sum-append xs ys)
open_sum-append (answered n b ∷ xs) ys = open_sum-append xs ys
open_sum-append (returned ∷ xs) ys = open_sum-append xs ys

response_sum-append :
    (xs ys : List (ℕ × HttpResponse)) → response_sum (xs ++ ys) ≡ response_sum xs + response_sum ys
response_sum-append [] ys = omega arith
response_sum-append (r ∷ xs) ys = omega (arith, response_sum-append xs ys)

-- How often a task holds a buffer, and how many tasks hold one.
abbrev held_count : ℕ → List Task → ℕ
held_count b ts = count b (held ts)

abbrev held_number : List Task → ℕ
held_number ts = length (held ts)

held_count-append :
    (b : ℕ) (xs ys : List Task) → held_count b (xs ++ ys) ≡ held_count b xs + held_count b ys
held_count-append b xs ys = ap (count b) (held-append xs ys) ∙ count-append b (held xs) (held ys)

held_number-append : (xs ys : List Task) → held_number (xs ++ ys) ≡ held_number xs + held_number ys
held_number-append xs ys = ap length (held-append xs ys) ∙ length-append (held xs) (held ys)

pub record Inv (num_sender_threads batches total : ℕ) (s : Pool) : Type 0 where
  -- Each buffer is in one place: it is free, or one task holds it.
  pub one_place :
      (b : ℕ)
      → count b s.avail_buffers + count b (held s.running) ≡ count b (buffers num_sender_threads)
  pub all_buffers : length s.avail_buffers + length (held s.running) ≡ num_sender_threads
  pub threads : length s.running ≤ num_sender_threads
  -- The counter is the number of tasks that are not over.
  pub counted : s.batches_to_do ≡ length s.queue + length s.running
  pub summed : sum s.queue + open_sum s.running + response_sum s.responses ≡ total

length-buffers : (n : ℕ) → length (buffers n) ≡ n
length-buffers zero = refl
length-buffers (suc n) = ap suc (length-buffers n)

pub posted-Inv :
    (num_sender_threads last : ℕ) (batches : List ℕ)
    → Inv num_sender_threads (length batches) (sum batches) (posted num_sender_threads last batches)
posted-Inv n last batches = record {
  one_place = λ b. omega arith;
  all_buffers = omega (arith, length-buffers n);
  threads = omega arith;
  counted = omega arith;
  summed = omega arith;
}

-- The same of the tasks around a place.
module _ {rs : List Task} (t : Task) (xs ys : List Task) (e : rs ≡ xs ++ t ∷ ys) where
  at_count : (b : ℕ) → held_count b rs ≡ held_count b xs + held_count b (t ∷ ys)
  at_count b = ap (held_count b) e ∙ held_count-append b xs (t ∷ ys)

  at_number : held_number rs ≡ held_number xs + held_number (t ∷ ys)
  at_number = ap held_number e ∙ held_number-append xs (t ∷ ys)

  at_open : open_sum rs ≡ open_sum xs + open_sum (t ∷ ys)
  at_open = ap open_sum e ∙ open_sum-append xs (t ∷ ys)

  at_length : length rs ≡ length xs + length (t ∷ ys)
  at_length = ap length e ∙ length-append xs (t ∷ ys)

pub Step-Inv :
    {n batches total : ℕ} {s t : Pool} → Step n s t → Inv n batches total s → Inv n batches total t
Step-Inv (starts s batch queue e room) i = record {
  one_place = i.one_place;
  all_buffers = i.all_buffers;
  threads = room;
  counted = omega (arith, i.counted, ap length e);
  summed = omega (arith, i.summed, ap sum e);
}
Step-Inv (takes s batch payload avail xs ys e ea) i = record {
  one_place = λ b. omega (
    arith,
    i.one_place b,
    at_count (started batch) xs ys e b,
    held_count-append b xs (holding batch payload ∷ ys),
    ap (count b) ea,
    count-append b avail (payload ∷ []),
  );
  all_buffers = omega (
    arith,
    i.all_buffers,
    at_number (started batch) xs ys e,
    held_number-append xs (holding batch payload ∷ ys),
    ap length ea,
    length-append avail (payload ∷ []),
  );
  threads = omega (
    arith,
    i.threads,
    at_length (started batch) xs ys e,
    length-append xs (holding batch payload ∷ ys),
  );
  counted = omega (
    arith,
    i.counted,
    at_length (started batch) xs ys e,
    length-append xs (holding batch payload ∷ ys),
  );
  summed = omega (
    arith,
    i.summed,
    at_open (started batch) xs ys e,
    open_sum-append xs (holding batch payload ∷ ys),
  );
}
Step-Inv (responds s batch payload now response xs ys e) i = record {
  one_place = λ b. omega (
    arith,
    i.one_place b,
    at_count (holding batch payload) xs ys e b,
    held_count-append b xs (answered batch payload ∷ ys),
  );
  all_buffers = omega (
    arith,
    i.all_buffers,
    at_number (holding batch payload) xs ys e,
    held_number-append xs (answered batch payload ∷ ys),
  );
  threads = omega (
    arith,
    i.threads,
    at_length (holding batch payload) xs ys e,
    length-append xs (answered batch payload ∷ ys),
  );
  counted = omega (
    arith,
    i.counted,
    at_length (holding batch payload) xs ys e,
    length-append xs (answered batch payload ∷ ys),
  );
  summed = omega (
    arith,
    i.summed,
    at_open (holding batch payload) xs ys e,
    open_sum-append xs (answered batch payload ∷ ys),
    response_sum-append s.responses ((batch, response) ∷ []),
  );
}
Step-Inv (returns s batch payload xs ys e) i = record {
  one_place = λ b. omega (
    arith,
    i.one_place b,
    at_count (answered batch payload) xs ys e b,
    held_count-append b xs (returned ∷ ys),
    count-append b s.avail_buffers (payload ∷ []),
  );
  all_buffers = omega (
    arith,
    i.all_buffers,
    at_number (answered batch payload) xs ys e,
    held_number-append xs (returned ∷ ys),
    length-append s.avail_buffers (payload ∷ []),
  );
  threads = omega (
    arith,
    i.threads,
    at_length (answered batch payload) xs ys e,
    length-append xs (returned ∷ ys),
  );
  counted = omega (
    arith,
    i.counted,
    at_length (answered batch payload) xs ys e,
    length-append xs (returned ∷ ys),
  );
  summed = omega (
    arith,
    i.summed,
    at_open (answered batch payload) xs ys e,
    open_sum-append xs (returned ∷ ys),
  );
}
Step-Inv (decrements s xs ys e) i = record {
  one_place =
      λ b. omega (arith, i.one_place b, at_count returned xs ys e b, held_count-append b xs ys);
  all_buffers = omega (arith, i.all_buffers, at_number returned xs ys e, held_number-append xs ys);
  threads = omega (arith, i.threads, at_length returned xs ys e, length-append xs ys);
  counted = omega (arith, i.counted, at_length returned xs ys e, length-append xs ys);
  summed = omega (arith, i.summed, at_open returned xs ys e, open_sum-append xs ys);
}

-- However the threads take turns, every buffer is free or held by one task, the counter is the number of
-- tasks that are not over, and every measurement is in a batch that waits, is worked on, or has a response.
pub Reach-Inv :
    {n last : ℕ} {batches : List ℕ} {s : Pool}
    → Reach n (posted n last batches) s
    → Inv n (length batches) (sum batches) s
Reach-Inv {n} {last} {batches} here = posted-Inv n last batches
Reach-Inv (next r st) = Step-Inv st (Reach-Inv r)

held_number-length : (ts : List Task) → held_number ts ≤ length ts
held_number-length [] = omega arith
held_number-length (started n ∷ ts) = omega (arith, held_number-length ts)
held_number-length (holding n b ∷ ts) = omega (arith, held_number-length ts)
held_number-length (answered n b ∷ ts) = omega (arith, held_number-length ts)
held_number-length (returned ∷ ts) = omega (arith, held_number-length ts)

-- The last element of a list that has one.
last_of : (xs : List ℕ) → 0 < length xs → (init : List ℕ) × (b : ℕ) × (xs ≡ init ++ b ∷ [])
last_of [] h = absurd (omega (arith, h))
last_of (x ∷ []) h = ([], x, refl)
last_of (x ∷ y ∷ xs) h =
    let (init, b, e) = last_of (y ∷ xs) (omega arith) in (x ∷ init, b, ap (λ t. x ∷ t) e)

pub Inv-free :
    {n batches total : ℕ} {s : Pool} (batch : ℕ) (xs ys : List Task)
    → Inv n batches total s
    → s.running ≡ xs ++ started batch ∷ ys
    → (avail : List ℕ) × (payload : ℕ) × (s.avail_buffers ≡ avail ++ payload ∷ [])
Inv-free {s = s} batch xs ys i e = last_of s.avail_buffers (
    omega (
      arith,
      i.all_buffers,
      i.threads,
      at_number (started batch) xs ys e,
      at_length (started batch) xs ys e,
      held_number-length xs,
      held_number-length ys,
    ))

-- `avail_buffers.back()` never reads an empty list: a task that is to take a buffer finds one free.
pub Reach-free :
    {n last : ℕ} {batches : List ℕ} {s : Pool} (batch : ℕ) (xs ys : List Task)
    → Reach n (posted n last batches) s
    → s.running ≡ xs ++ started batch ∷ ys
    → (avail : List ℕ) × (payload : ℕ) × (s.avail_buffers ≡ avail ++ payload ∷ [])
Reach-free batch xs ys r e = Inv-free batch xs ys (Reach-Inv r) e
