-- ===== src/Publisher/Response/Accounting.antt =====
-- What `handle_aggr_response` of spectator/publisher.h counts as sent and as dropped, and its counters.
use spectatord.Base.{
  ℕ, ◌+◌, ◌^◌, ◌≤◌, ◌<◌, ◌≡◌, refl, ◌&&◌, ◌-◌, List, [], ◌∷◌, Bool, true, if◌then◌else◌, Option,
  none, some, arith, inl, inr, Bool-cases,
}
use spectatord.Int.{pos, negsuc, ltb_ℤ, eq_ℤ, pattern64, ◌-ℤ◌}
use spectatord.Float.{Float}
use spectatord.Meter.Counter as Counter
use spectatord.MeterMap.{MeterMap, update}
use spectatord.Registry.{Registry}
use spectatord.HttpClient.{HttpResponse}
use spectatord.Publisher.Response.{
  Publisher, Body, Report, handle_aggr_response, handle_body, count,
}

-- What the backend documents of the body of an error: a count of errors between 0 and the number of measurements, with
-- messages; or no count at all.
abbrev pub IsSoundBody : ℕ → Body → Type 0
IsSoundBody n Body.parse_error = Unit {0}
IsSoundBody n Body.no_error_count = Unit {0}
IsSoundBody n (Body.error_count none m) = ⊥
IsSoundBody n (Body.error_count (some (negsuc c)) m) = ⊥
IsSoundBody n (Body.error_count (some (pos c)) none) = ⊥
IsSoundBody n (Body.error_count (some (pos c)) (some m)) = c ≤ n

sent_difference : (n c : ℕ) → n < 2 ^ 64 → c ≤ n → pattern64 (pos n -ℤ pos c) ≡ n - c
sent_difference n c h g = ground arith

module _ (F : Float) (parse : List ℕ → Body) (p : Publisher) where
  -- A report that accounts for `n` measurements.
  abbrev pub Accounts : ℕ → Option (Report F) → Type 0
  Accounts n made =
      (report : Report F) × (made ≡ some report) × (report.num_sent + report.num_err ≡ n)

  handle_body-Accounts :
      (r : Registry F) (now n : ℕ) (messages : List (List ℕ)) (body : Body)
      → n < 2 ^ 64
      → IsSoundBody n body
      → Accounts n (handle_body F p r now n messages body)
  handle_body-Accounts r now n messages Body.parse_error h sound = (_, refl, omega arith)
  handle_body-Accounts r now n messages Body.no_error_count h sound = (_, refl, omega arith)
  handle_body-Accounts r now n messages (Body.error_count none m) h sound = absurd sound
  handle_body-Accounts r now n messages (Body.error_count (some (negsuc c)) m) h sound =
      absurd sound
  handle_body-Accounts r now n messages (Body.error_count (some (pos c)) none) h sound =
      absurd sound
  handle_body-Accounts r now n messages (Body.error_count (some (pos c)) (some m)) h sound =
      (_, refl, ground arith)

  pub handle_aggr_response_sum :
      (r : Registry F) (now : ℕ) (response : HttpResponse) (n : ℕ) (messages : List (List ℕ))
      → n < 2 ^ 64
      → IsSoundBody n (parse response.raw_body)
      → Accounts n (handle_aggr_response F parse p r now response n messages)
  unfolding handle_aggr_response
  handle_aggr_response_sum r now response n messages h sound =
      elim (Bool-cases (eq_ℤ response.status (pos 200))) [
        | inl e ↦ rw e (_, refl, omega arith)
        | inr e ↦
            rw e
              (elim (Bool-cases
                (ltb_ℤ (pos 200) response.status && ltb_ℤ response.status (pos 500))) [
                  | inl g ↦
                      rw g (handle_body-Accounts r now n messages (parse response.raw_body) h sound)
                  | inr g ↦ rw g (elim (Bool-cases (eq_ℤ response.status (negsuc 0))) [
                    | inl k ↦ rw k (_, refl, omega arith)
                    | inr k ↦ rw k (_, refl, omega arith)
                  ])
                ])
      ]

  -- A status for which the body is looked at.
  abbrev pub reads_body : HttpResponse → Bool
  reads_body response = ltb_ℤ (pos 200) response.status && ltb_ℤ response.status (pos 500)

  -- How many measurements a body gives as refused by the validation; without a count it gives none.
  abbrev pub refused_by : Body → Option ℕ
  refused_by (Body.error_count (some (pos c)) (some m)) = some c
  refused_by body = none

  -- What each counter is to get: of a response with an error count that the code reads, the count goes to the invalid ones
  -- and the rest to the sent ones; else the whole batch goes to one counter.
  abbrev pub credits_read : Option ℕ → ℕ → List (ℕ × ℕ)
  credits_read none n = (p.dropped_other, n) ∷ []
  credits_read (some c) n = (p.invalid_metrics, c) ∷ (p.sent_metrics, n - c) ∷ []

  abbrev pub credits : HttpResponse → ℕ → List (ℕ × ℕ)
  credits response n =
      if eq_ℤ response.status (pos 200)
      then (p.sent_metrics, n) ∷ []
      else if reads_body response
      then credits_read (refused_by (parse response.raw_body)) n
      else if eq_ℤ response.status (negsuc 0)
      then (p.dropped_other, n) ∷ []
      else (p.dropped_http, n) ∷ []

  abbrev pub sent_read : Option ℕ → ℕ → ℕ
  sent_read none n = 0
  sent_read (some c) n = n - c

  abbrev pub sent_of : HttpResponse → ℕ → ℕ
  sent_of response n =
      if eq_ℤ response.status (pos 200)
      then n
      else if reads_body response
      then sent_read (refused_by (parse response.raw_body)) n
      else 0

  -- The counters with their amounts added, in order.
  abbrev pub credited :
      List (ℕ × ℕ) → ℕ → MeterMap (Counter.Counter F) → MeterMap (Counter.Counter F)
  credited [] now m = m
  credited (c ∷ cs) now m =
      credited cs now (update m c.0 (λ x. Counter.add F x now (F.of_int (pos c.1))))

  abbrev pub credit : List (ℕ × ℕ) → ℕ → Registry F → Registry F
  credit cs now r =
      if r.config.status_metrics_enabled
      then record r {
        all_meters = record (r.all_meters) { counters = credited cs now r.all_meters.counters };
      }
      else r

  -- A report of `n` measurements: so many are sent and the rest are errors, and the counters have got their amounts.
  abbrev pub Reports : Registry F → ℕ → ℕ → ℕ → List (ℕ × ℕ) → Option (Report F) → Type 0
  Reports r now n sent cs made =
      (report : Report F) × (made ≡ some report)
      × (report.num_sent ≡ sent)
      × (report.num_sent + report.num_err ≡ n)
      × (report.registry ≡ credit cs now r)

  count_twice :
      (r : Registry F) (now a b : ℕ)
      → count F (count F r p.invalid_metrics now (pos a)) p.sent_metrics now (pos b)
        ≡ credit ((p.invalid_metrics, a) ∷ (p.sent_metrics, b) ∷ []) now r
  count_twice r now a b = elim (Bool-cases r.config.status_metrics_enabled) [
    | inl e ↦ rw e refl
    | inr e ↦ rw e refl
  ]

  handle_body-Reports :
      (r : Registry F) (now n : ℕ) (messages : List (List ℕ)) (body : Body)
      → n < 2 ^ 64
      → IsSoundBody n body
      → Reports r now n
          (sent_read (refused_by body) n)
          (credits_read (refused_by body) n)
          (handle_body F p r now n messages body)
  handle_body-Reports r now n messages Body.parse_error h sound = (_, refl, refl, omega arith, refl)
  handle_body-Reports r now n messages Body.no_error_count h sound =
      (_, refl, refl, omega arith, refl)
  handle_body-Reports r now n messages (Body.error_count none m) h sound = absurd sound
  handle_body-Reports r now n messages (Body.error_count (some (negsuc c)) m) h sound = absurd sound
  handle_body-Reports r now n messages (Body.error_count (some (pos c)) none) h sound = absurd sound
  handle_body-Reports r now n messages (Body.error_count (some (pos c)) (some m)) h sound =
      let sent = sent_difference n c h sound in
      (_, refl, sent, ground (arith, sent), rw sent (count_twice r now c (n - c)))

  -- Whatever the status, a response is handled: each measurement of its batch is counted once, as sent or as dropped. All
  -- are sent for a status of 200; for one from 201 to 499 with a count of errors those beyond the count are sent, and the
  -- others are invalid; without a count, and for a status of -1, all are dropped for other reasons; for any other status
  -- all are dropped for HTTP. The counters of these kinds go up by these amounts, if status metrics are enabled, and
  -- nothing else of the registry changes. A body that the status has the code look at is one that the backend documents.
  pub handle_aggr_response-Accounts :
      (r : Registry F) (now : ℕ) (response : HttpResponse) (n : ℕ) (messages : List (List ℕ))
      → n < 2 ^ 64
      → (reads_body response ≡ true → IsSoundBody n (parse response.raw_body))
      → Reports r now n
          (sent_of response n)
          (credits response n)
          (handle_aggr_response F parse p r now response n messages)
  unfolding handle_aggr_response
  handle_aggr_response-Accounts r now response n messages h sound =
      elim (Bool-cases (eq_ℤ response.status (pos 200))) [
        | inl e ↦ rw e (_, refl, refl, omega arith, refl)
        | inr e ↦ rw e (elim (Bool-cases (reads_body response)) [
          | inl g ↦
              rw g (handle_body-Reports r now n messages (parse response.raw_body) h (sound g))
          | inr g ↦ rw g (elim (Bool-cases (eq_ℤ response.status (negsuc 0))) [
            | inl k ↦ rw k (_, refl, refl, omega arith, refl)
            | inr k ↦ rw k (_, refl, refl, omega arith, refl)
          ])
        ])
      ]

  -- A count of errors above the number of measurements makes the number sent wrap around.
  pub handle_body-wrap :
      (r : Registry F) (now n c : ℕ) (messages more : List (List ℕ))
      → n < c
      → c < 2 ^ 31
      → (report : Report F) × (handle_body F p r now n messages
            (Body.error_count (some (pos c)) (some more))
          ≡ some report)
        × (report.num_sent + c ≡ 2 ^ 64 + n)
  handle_body-wrap r now n c messages more h g = (_, refl, ground arith)
