-- ===== src/Publisher/Pool/Tests.antt =====
-- The theorems at a pool of one thread that sends two batches.
use spectatord.Base.{ℕ, ◌≤◌, ◌≡◌, refl, [], ◌∷◌, ◌++◌, arith, length}
use spectatord.Int.{pos}
use spectatord.HttpClient.{HttpResponse}
use spectatord.Publisher.Pool.{
  started, holding, answered, returned, Pool, posted, starts, takes, responds, returns, decrements,
  Reach, here, next,
}
use spectatord.Publisher.Pool.Invariant.{Inv, response_sum, Reach-Inv, Reach-free}
use spectatord.Publisher.Pool.Liveness.{steps, steps-posted, Reach-Finishes, Reach-done}

abbrev accepted : HttpResponse
accepted = record { status = pos 200; raw_body = []; headers = [] }

abbrev s0 : Pool
s0 = posted 1 7 (3 ∷ [])

abbrev s1 : Pool
s1 = record s0 { queue = []; running = started 3 ∷ [] }

abbrev s2 : Pool
s2 = record s1 { avail_buffers = []; running = holding 3 0 ∷ [] }

abbrev s3 : Pool
s3 = record s2 {
  responses = (3, accepted) ∷ [];
  last_successful_send = 9;
  running = answered 3 0 ∷ [];
}

abbrev s4 : Pool
s4 = record s3 { avail_buffers = 0 ∷ []; running = returned ∷ [] }

abbrev s5 : Pool
s5 = record s4 { running = []; batches_to_do = 0 }

reach1 : Reach 1 s0 s1
reach1 = next here (starts s0 3 [] refl (omega arith))

reach2 : Reach 1 s0 s2
reach2 = next reach1 (takes s1 3 0 [] [] [] refl refl)

reach5 : Reach 1 s0 s5
reach5 =
    next (next (next reach2 (responds s2 3 0 9 accepted [] [] refl)) (returns s3 3 0 [] [] refl))
      (decrements s4 [] [] refl)

Reach-Inv_example : Inv 1 1 3 s2
Reach-Inv_example = Reach-Inv reach2

Reach-free_example : (avail : _) × (payload : ℕ) × (s1.avail_buffers ≡ avail ++ payload ∷ [])
Reach-free_example = Reach-free 3 [] [] reach1 refl

Reach-Finishes_example : (t : Pool) × Reach 1 s2 t × (t.batches_to_do ≡ 0)
Reach-Finishes_example = Reach-Finishes s2 (omega arith) reach2

Reach-done_example :
    (response_sum s5.responses ≡ 3) × (length s5.running ≡ 0) × (length s5.avail_buffers ≡ 1)
Reach-done_example = Reach-done reach5 refl

steps-posted_example : steps reach5 ≤ 5
steps-posted_example = steps-posted reach5
