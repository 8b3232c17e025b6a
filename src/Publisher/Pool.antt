-- ===== src/Publisher/Pool.antt =====
-- The tasks that `send_metrics` of spectator/publisher.h posts to its pool of threads, one for each batch: each takes
-- a buffer, posts its payload, stores the response, returns the buffer, and counts down. Any thread may act next.
pub mod Invariant
pub mod Liveness
mod Tests
use spectatord.Base.{
  ℕ, zero, suc, ◌+◌, ◌-◌, ◌<◌, ◌≡◌, List, [], ◌∷◌, ◌++◌, length, Bool, if◌then◌else◌,
}
use spectatord.Int.{pos, div_ℤ, eq_ℤ}
use spectatord.HttpClient.{HttpResponse}

-- Where a task stands, with the number of measurements of its batch and the buffer that it holds.
pub data Task : Type 0 where
  started : ℕ → Task
  holding : ℕ → ℕ → Task
  answered : ℕ → ℕ → Task
  returned : Task

-- `queue` are the tasks that no thread runs so far, and `to_do` is the blocking counter.
pub record Pool : Type 0 where
  pub queue : List ℕ
  pub running : List Task
  pub avail_buffers : List ℕ
  pub responses : List (ℕ × HttpResponse)
  pub last_successful_send : ℕ
  pub batches_to_do : ℕ

-- `buffers_`, as their indices.
abbrev pub buffers : ℕ → List ℕ
buffers zero = []
buffers (suc n) = n ∷ buffers n

-- All tasks are posted, and all buffers are free.
abbrev pub posted : ℕ → ℕ → List ℕ → Pool
posted num_sender_threads last batches = record {
  queue = batches;
  running = [];
  avail_buffers = buffers num_sender_threads;
  responses = [];
  last_successful_send = last;
  batches_to_do = length batches;
}

-- `last_successful_send_` changes on a status of 2xx.
abbrev pub stamp : ℕ → ℕ → HttpResponse → ℕ
stamp last now response = if eq_ℤ (div_ℤ response.status 100) (pos 2) then now else last

-- One step of a thread: it starts the next task, takes the last buffer that is free, stores the response to its
-- payload, returns the buffer, or counts down.
pub data Step (num_sender_threads : ℕ) : Pool → Pool → Type 0 where
  starts :
      (s : Pool) (batch : ℕ) (queue : List ℕ)
      → s.queue ≡ batch ∷ queue
      → length s.running < num_sender_threads
      → Step num_sender_threads s (record s { queue = queue; running = started batch ∷ s.running })
  takes :
      (s : Pool) (batch payload : ℕ) (avail : List ℕ) (xs ys : List Task)
      → s.running ≡ xs ++ started batch ∷ ys
      → s.avail_buffers ≡ avail ++ payload ∷ []
      → Step num_sender_threads s
          (record s { avail_buffers = avail; running = xs ++ holding batch payload ∷ ys })
  responds :
      (s : Pool) (batch payload now : ℕ) (response : HttpResponse) (xs ys : List Task)
      → s.running ≡ xs ++ holding batch payload ∷ ys
      → Step num_sender_threads s (record s {
        responses = s.responses ++ (batch, response) ∷ [];
        last_successful_send = stamp s.last_successful_send now response;
        running = xs ++ answered batch payload ∷ ys;
      })
  returns :
      (s : Pool) (batch payload : ℕ) (xs ys : List Task)
      → s.running ≡ xs ++ answered batch payload ∷ ys
      → Step num_sender_threads s (record s {
        avail_buffers = s.avail_buffers ++ payload ∷ [];
        running = xs ++ returned ∷ ys;
      })
  decrements :
      (s : Pool) (xs ys : List Task)
      → s.running ≡ xs ++ returned ∷ ys
      → Step num_sender_threads s
          (record s { running = xs ++ ys; batches_to_do = s.batches_to_do - 1 })

pub data Reach (num_sender_threads : ℕ) (s : Pool) : Pool → Type 0 where
  here : Reach num_sender_threads s s
  next :
      {t u : Pool}
      → Reach num_sender_threads s t
      → Step num_sender_threads t u
      → Reach num_sender_threads s u
