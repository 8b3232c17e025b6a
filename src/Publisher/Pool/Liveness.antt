-- ===== src/Publisher/Pool/Liveness.antt =====
-- How the pool of threads of spectator/publisher.h gets through its tasks.
use spectatord.Base.{
  ℕ, zero, suc, ◌+◌, ◌*◌, ◌≤◌, ◌<◌, ◌≡◌, ◌≢◌, refl, ap, ◌∙◌, List, [], ◌∷◌, ◌++◌, length,
  length-append, arith, ◌⊎◌, inl, inr,
}
use spectatord.Int.{pos}
use spectatord.HttpClient.{HttpResponse}
use spectatord.Publisher.Pool.{
  Task, started, holding, answered, returned, Pool, posted, Step, starts, takes, responds, returns,
  decrements, Reach, here, next,
}
use spectatord.Publisher.Pool.Invariant.{
  Inv, Step-Inv, Reach-Inv, Inv-free, sum, response_sum, open_sum, held,
}

-- The steps that a task still has to take.
abbrev weight : Task → ℕ
weight (started n) = 4
weight (holding n b) = 3
weight (answered n b) = 2
weight returned = 1

abbrev weights : List Task → ℕ
weights [] = 0
weights (t ∷ ts) = weight t + weights ts

abbrev work : Pool → ℕ
work s = 5 * length s.queue + weights s.running

weights-append : (xs ys : List Task) → weights (xs ++ ys) ≡ weights xs + weights ys
weights-append [] ys = omega arith
weights-append (t ∷ xs) ys = omega (arith, weights-append xs ys)

at_weight :
    {rs : List Task} (xs ys : List Task) → rs ≡ xs ++ ys → weights rs ≡ weights xs + weights ys
at_weight xs ys e = ap weights e ∙ weights-append xs ys

Step-work : {n : ℕ} {s t : Pool} → Step n s t → suc (work t) ≡ work s
Step-work (starts s batch queue e room) = omega (arith, ap length e)
Step-work (takes s batch payload avail xs ys e ea) =
    omega
      (arith, at_weight xs (started batch ∷ ys) e, weights-append xs (holding batch payload ∷ ys))
Step-work (responds s batch payload now response xs ys e) = omega (
  arith,
  at_weight xs (holding batch payload ∷ ys) e,
  weights-append xs (answered batch payload ∷ ys),
)
Step-work (returns s batch payload xs ys e) =
    omega (arith, at_weight xs (answered batch payload ∷ ys) e, weights-append xs (returned ∷ ys))
Step-work (decrements s xs ys e) =
    omega (arith, at_weight xs (returned ∷ ys) e, weights-append xs ys)

-- The number of steps of a run.
abbrev pub steps : {n : ℕ} {s t : Pool} → Reach n s t → ℕ
steps here = 0
steps (next r st) = suc (steps r)

steps-work : {n : ℕ} {s t : Pool} (r : Reach n s t) → steps r + work t ≡ work s
steps-work here = omega arith
steps-work (next r st) = omega (arith, steps-work r, Step-work st)

-- No run of the pool has more than five steps for each batch.
pub steps-posted :
    {n last : ℕ} {batches : List ℕ} {s : Pool} (r : Reach n (posted n last batches) s)
    → steps r ≤ 5 * length batches
steps-posted r = omega (arith, steps-work r)

-- The response of a `Post` that got none.
abbrev no_response : HttpResponse
no_response = record { status = pos 0; raw_body = []; headers = [] }

-- The first task that runs can always take its step; without one the next is started.
pub Inv-Step :
    {n batches total : ℕ} (s : Pool)
    → 0 < n
    → Inv n batches total s
    → 0 < s.batches_to_do
    → (t : Pool) × Step n s t
Inv-Step {n} {batches} {total} s room i h = go s.queue s.running refl refl
  where
    go : (q : List ℕ) (rs : List Task) → s.queue ≡ q → s.running ≡ rs → (t : Pool) × Step n s t
    go [] [] eq er = absurd (omega (arith, i.counted, ap length eq, ap length er))
    go (b ∷ q) [] eq er = (_, starts s b q eq (omega (arith, ap length er)))
    go q (started b ∷ ys) eq er =
        let (avail, payload, e) = Inv-free b [] ys i er in (_, takes s b payload avail [] ys er e)
    go q (holding b p ∷ ys) eq er = (_, responds s b p 0 no_response [] ys er)
    go q (answered b p ∷ ys) eq er = (_, returns s b p [] ys er)
    go q (returned ∷ ys) eq er = (_, decrements s [] ys er)

abbrev Finishes : ℕ → Pool → Type 0
Finishes n s = (t : Pool) × Reach n s t × (t.batches_to_do ≡ 0)

zero-or-positive : (k : ℕ) → (k ≡ 0) ⊎ (0 < k)
zero-or-positive zero = inl refl
zero-or-positive (suc k) = inr (omega arith)

finishes :
    {n batches total : ℕ} {s : Pool} (fuel : ℕ) (t : Pool)
    → 0 < n
    → Inv n batches total t
    → work t < fuel
    → Reach n s t
    → Finishes n s
finishes zero t room i enough r = absurd (omega (arith, enough))
finishes (suc fuel) t room i enough r = elim (zero-or-positive t.batches_to_do) [
  | inl e ↦ (t, r, e)
  | inr h ↦
      let (u, st) = Inv-Step t room i h in
      finishes fuel u room (Step-Inv st i) (omega (arith, enough, Step-work st)) (next r st)
]

-- From whatever state the threads are in, they can count all batches down, if there is a thread.
pub Reach-Finishes :
    {n last : ℕ} {batches : List ℕ} (s : Pool)
    → 0 < n
    → Reach n (posted n last batches) s
    → (t : Pool) × Reach n s t × (t.batches_to_do ≡ 0)
Reach-Finishes s room r = finishes (suc (work s)) s room (Reach-Inv r) (omega arith) here

no_sum : (q : List ℕ) → length q ≡ 0 → sum q ≡ 0
no_sum [] h = refl
no_sum (b ∷ q) h = absurd (omega (arith, h))

no_held : (rs : List Task) → length rs ≡ 0 → length (held rs) ≡ 0
no_held [] h = refl
no_held (t ∷ rs) h = absurd (omega (arith, h))

no_open : (rs : List Task) → length rs ≡ 0 → open_sum rs ≡ 0
no_open [] h = refl
no_open (t ∷ rs) h = absurd (omega (arith, h))

-- When the counter is down to 0, every measurement is in a batch that has a response, no task runs, and
-- all buffers are free again.
pub Reach-done :
    {n last : ℕ} {batches : List ℕ} {s : Pool}
    → Reach n (posted n last batches) s
    → s.batches_to_do ≡ 0
    → (response_sum s.responses ≡ sum batches)
      × (length s.running ≡ 0)
      × (length s.avail_buffers ≡ n)
Reach-done {s = s} r e =
    let i = Reach-Inv r in
    let q : length s.queue ≡ 0 = omega (arith, i.counted, e) in
    let t : length s.running ≡ 0 = omega (arith, i.counted, e) in
    (
      omega (arith, i.summed, no_sum s.queue q, no_open s.running t),
      t,
      omega (arith, i.all_buffers, no_held s.running t),
    )

-- With no thread, as where `hardware_concurrency` gives 0, no task ever starts.
pub Step-no_threads : {s t : Pool} → Step 0 s t → length s.running ≢ 0
Step-no_threads (starts s batch queue e room) h = omega (arith, room)
Step-no_threads (takes s batch payload avail xs ys e ea) h =
    omega (arith, h, ap length e, length-append xs (started batch ∷ ys))
Step-no_threads (responds s batch payload now response xs ys e) h =
    omega (arith, h, ap length e, length-append xs (holding batch payload ∷ ys))
Step-no_threads (returns s batch payload xs ys e) h =
    omega (arith, h, ap length e, length-append xs (answered batch payload ∷ ys))
Step-no_threads (decrements s xs ys e) h =
    omega (arith, h, ap length e, length-append xs (returned ∷ ys))
