-- ===== src/HttpClient/Retries.antt =====
-- How often `perform` of spectator/http_client.cc tries, and what it returns.
use spectatord.Base.{
  ℕ, zero, suc, ◌+◌, ◌-◌, ◌*◌, ◌^◌, ◌≤◌, ◌<◌, ◌≡◌, refl, sym, ap, subst, ◌∙◌, ◌⊎◌, List, Option,
  none, some, Bool, true, false, ◌&&◌, ltb, arith, inl, inr, Bool-cases, tests, ltb→lt,
}
use spectatord.Int.{ℤ, negsuc}
use spectatord.Float.{Float}
use spectatord.Registry.{Registry}
use spectatord.HttpClient.Entry.{LogEntry, new_entry, set_attempt, log}
use spectatord.HttpClient.{
  one_more, HttpClientConfig, Request, Exchange, CurlCode, attempt_of, Performed, perform, respond,
  total_timeout, is_retryable_error, request_of,
}

-- What the policy is: a failure is tried again if it took less than both timeouts together, as a connection that is
-- refused does, and a status if it is 429 or 5xx.
abbrev wants_retry_of : HttpClientConfig → Exchange → Option CurlCode → Bool
wants_retry_of config x none = is_retryable_error x.status_code
wants_retry_of config x (some code) = ltb (x.end - x.start) (total_timeout config)

unfoldable pub wants_retry : HttpClientConfig → Exchange → Bool
wants_retry config x = wants_retry_of config x x.error

-- The status that the caller sees: -1 for a failure.
abbrev code_of : Exchange → Option CurlCode → ℤ
code_of x none = x.status_code
code_of x (some code) = negsuc 0

abbrev pub status_of : Exchange → ℤ
status_of x = code_of x x.error

attempt_of-retry :
    (config : HttpClientConfig) (e : LogEntry) (n : ℕ) (x : Exchange) (o : Option CurlCode)
    → (attempt_of config e n x o).retry ≡ (wants_retry_of config x o && ltb n 2)
unfolding attempt_of
attempt_of-retry config e n x none = refl
attempt_of-retry config e n x (some code) = refl

attempt_of-code :
    (config : HttpClientConfig) (e : LogEntry) (n : ℕ) (x : Exchange) (o : Option CurlCode)
    → (attempt_of config e n x o).http_code ≡ code_of x o
unfolding attempt_of
attempt_of-code config e n x none = refl
attempt_of-code config e n x (some code) = refl

attempt_of-sleep :
    (config : HttpClientConfig) (e : LogEntry) (n : ℕ) (x : Exchange) (o : Option CurlCode)
    → (attempt_of config e n x o).sleep_ms ≤ 200 * 2 ^ n
unfolding attempt_of
attempt_of-sleep config e n x none = omega arith
attempt_of-sleep config e n x (some code) = omega arith

module _ (F : Float) (process_name : List ℕ) (exchange : Request → ℕ → Exchange)
    (config : HttpClientConfig) (method url : List ℕ) (headers : List (List ℕ))
    (payload : List ℕ) where
  -- The exchange of an attempt: all attempts make the same request.
  abbrev pub tried : ℕ → Exchange
  tried n = exchange (request_of config method url headers payload) n

  -- A call of `perform` from attempt `n` on responds with what attempt `last` gave. All attempts before it were to be
  -- tried again, and it was not, unless it was the third. The registry is as it was unless requests are logged.
  pub record Tried (n : ℕ) (r : Registry F) (p : Performed F) : Type 0 where
    pub last : ℕ
    pub from : n ≤ last
    pub at_most : last ≤ 2
    pub exchanged : p.exchanges + n ≡ suc last
    pub responded : p.response ≡ respond F config (tried last) (status_of (tried last))
    pub again : (j : ℕ) → n ≤ j → j < last → wants_retry config (tried j) ≡ true
    pub final : last < 2 → wants_retry config (tried last) ≡ false
    pub unlogged : config.status_metrics_enabled ≡ false → p.registry ≡ r
    pub slept : p.slept_ms + 200 * 2 ^ n ≤ 200 * 2 ^ last

  abbrev Performs : ℕ → Registry F → Option (Performed F) → Type 0
  Performs n r o = (p : Performed F) × (o ≡ some p) × Tried n r p

  abbrev call : ℕ → Registry F → ℕ → Option (Performed F)
  call fuel r n = perform F process_name exchange fuel r config method url headers payload n

  retry-wants :
      (n : ℕ) (entry : LogEntry) (b : Bool)
      → (attempt_of config entry n (tried n) (tried n).error).retry ≡ b
      → (wants_retry config (tried n) && ltb n 2) ≡ b
  unfolding wants_retry
  retry-wants n entry b h = sym (attempt_of-retry config entry n (tried n) (tried n).error) ∙ h

  both_true : (a b : Bool) → (a && b) ≡ true → (a ≡ true) × (b ≡ true)
  both_true a b h = ground arith

  stops :
      (n : ℕ) (entry : LogEntry) (r r' : Registry F)
      → n ≤ 2
      → (attempt_of config entry n (tried n) (tried n).error).retry ≡ false
      → (config.status_metrics_enabled ≡ false → r' ≡ r)
      → Tried n r (record {
        registry = r';
        response =
            respond F config
              (tried n)
              (attempt_of config entry n (tried n) (tried n).error).http_code;
        exchanges = 1;
        slept_ms = 0;
      })
  stops n entry r r' h e quiet = record {
    last = n;
    from = omega arith;
    at_most = h;
    exchanged = omega arith;
    responded =
        ap (respond F config (tried n)) (attempt_of-code config entry n (tried n) (tried n).error);
    again = λ j a b. absurd (omega (arith, a, b));
    final = λ room. ground (arith, retry-wants n entry false e);
    unlogged = quiet;
    slept = omega arith;
  }

  doubled : (n : ℕ) → 2 ^ suc n ≡ 2 * 2 ^ n
  doubled n = omega arith

  first_or_later : (n j : ℕ) → n ≤ j → (n ≡ j) ⊎ (suc n ≤ j)
  first_or_later n j h = elim (Bool-cases (ltb n j)) [
    | inl e ↦ inr (omega tests)
    | inr e ↦ inl (ground arith)
  ]

  log-off :
      (r : Registry F) (e : LogEntry) (now : ℕ)
      → config.status_metrics_enabled ≡ false
      → log F r e now config.status_metrics_enabled ≡ r
  unfolding log
  log-off r e now off = rw off refl

  goes_on :
      (n ms : ℕ) (r r' : Registry F) (p : Performed F)
      → wants_retry config (tried n) ≡ true
      → ms ≤ 200 * 2 ^ n
      → (config.status_metrics_enabled ≡ false → r' ≡ r)
      → Tried (suc n) r' p
      → Tried n r (one_more F ms p)
  goes_on n ms r r' p w h quiet t = record {
    last = t.last;
    from = omega (arith, t.from);
    at_most = t.at_most;
    exchanged = omega (arith, t.exchanged);
    responded = t.responded;
    again = λ j a b. elim (first_or_later n j a) [
      | inl e ↦ subst (λ k. wants_retry config (tried k) ≡ true) e w
      | inr l ↦ t.again j l b
    ];
    final = t.final;
    unlogged = λ off. t.unlogged off ∙ quiet off;
    slept = omega (arith, t.slept, h, doubled n);
  }

  perform-Performs :
      (fuel : ℕ) (r : Registry F) (n : ℕ) → fuel + n ≡ 3 → n ≤ 2 → Performs n r (call fuel r n)
  unfolding perform
  perform-Performs zero r n e h = absurd (omega (arith, e))
  perform-Performs (suc fuel) r n e h =
      let x = tried n in
      let entry = new_entry process_name method url x.start in
      let a = attempt_of config entry n x x.error in
      elim (Bool-cases a.retry) [
        | inl again ↦
            let (wants, room) =
              both_true (wants_retry config x) (ltb n 2) (retry-wants n entry true again) in
            let r' = log F r (set_attempt a.entry n false) x.logged config.status_metrics_enabled in
            let (p, made, t) =
              perform-Performs fuel r' (suc n) (omega (arith, e))
                (omega (arith, ltb→lt n 2 room)) in
            rw again (
              one_more F a.sleep_ms p,
              rw made refl,
              goes_on n a.sleep_ms r r' p wants (attempt_of-sleep config entry n x x.error)
                  (log-off r (set_attempt a.entry n false) x.logged) t,
            )
        | inr final ↦
            rw final
              (_, refl, stops n entry r _ h final (log-off r (set_attempt a.entry n true) x.logged))
      ]

  -- `perform` always returns, after three exchanges at most. It responds with the first exchange that is not to be
  -- tried again, or the third; it sleeps no more than 600 milliseconds.
  pub perform-Tried :
      (r : Registry F)
      → (p : Performed F) × (perform F process_name exchange 3 r config method url headers payload 0
          ≡ some p)
        × Tried 0 r p
  perform-Tried r = perform-Performs 3 r 0 refl (omega arith)
