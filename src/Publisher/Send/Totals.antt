-- ===== src/Publisher/Send/Totals.antt =====
-- The totals of `send_metrics`, in spectator/publisher.h.
use mathlib.Core.List.{Permᴰ}
use spectatord.Base.{
  ℕ, suc, ◌+◌, ◌%◌, ◌^◌, ◌<◌, ◌≡◌, refl, sym, ap, subst, ◌∙◌, List, [], ◌∷◌, Option, some, true,
  false, length, length-append, arith, inl, inr, Bool-cases,
}
use spectatord.CText.{chars}
use spectatord.Float.{Float}
use spectatord.Tags.{StrRef}
use spectatord.Meter.{Measurement}
use spectatord.Registry.{Registry, measurements}
use spectatord.Smile.{result}
use spectatord.HttpClient.{Request, Exchange, HttpResponse}
use spectatord.HttpClient.Retries.{perform-Tried}
use spectatord.Publisher.Payload.StringBytes.{Reorders}
use spectatord.Publisher.Payload.Total.{measurements_to_json-Defined}
use spectatord.Publisher.Batches.{concat, batches-Batched}
use spectatord.Publisher.Response.{Publisher, Body, Report}
use spectatord.Publisher.Response.Accounting.{IsSoundBody, handle_aggr_response_sum}
use spectatord.Publisher.Pool.Invariant.{response_sum}
use spectatord.Publisher.Send.{
  PublishConfig, post_batches, handle_all, is_empty, no_report, send_metrics, send_batches,
  k_smile_json, get_http_config,
}

-- An order of completion has each response once.
abbrev pub Completes : (List (ℕ × HttpResponse) → List (ℕ × HttpResponse)) → Type 0
Completes complete = (rs : List (ℕ × HttpResponse)) → Permᴰ rs (complete rs)

Permᴰ-response_sum :
    {rs us : List (ℕ × HttpResponse)} → Permᴰ rs us → response_sum rs ≡ response_sum us
Permᴰ-response_sum Permᴰ.nil = refl
Permᴰ-response_sum (Permᴰ.cons e d) = omega (arith, ap (λ r. r.0) e, Permᴰ-response_sum d)
Permᴰ-response_sum (Permᴰ.swap e₁ e₂) = omega (arith, ap (λ r. r.0) e₁, ap (λ r. r.0) e₂)
Permᴰ-response_sum (Permᴰ.trans d₁ d₂) = Permᴰ-response_sum d₁ ∙ Permᴰ-response_sum d₂

empty-length : (F : Float) (ms : List (Measurement F)) → is_empty F ms ≡ true → length ms ≡ 0
empty-length F [] h = refl
empty-length F (m ∷ ms) h = absurd (cc h)

module _ (F : Float) (process_name : List ℕ) (parse : List ℕ → Body)
    (order : List StrRef → List StrRef)
    (complete : List (ℕ × HttpResponse) → List (ℕ × HttpResponse))
    (exchange : ℕ → Request → ℕ → Exchange) (p : Publisher) where
  -- The bodies are those that the backend documents, each for the size of its batch.
  abbrev Sound : ℕ × HttpResponse → Type 0
  Sound resp = IsSoundBody resp.0 (parse resp.1.raw_body)

  abbrev pub AllSound : List (ℕ × HttpResponse) → Type 0
  AllSound [] = Unit {0}
  AllSound (resp ∷ responses) = Sound resp × AllSound responses

  Permᴰ-AllSound : {rs us : List (ℕ × HttpResponse)} → Permᴰ rs us → AllSound rs → AllSound us
  Permᴰ-AllSound Permᴰ.nil h = h
  Permᴰ-AllSound (Permᴰ.cons e d) h = (subst Sound e h.0, Permᴰ-AllSound d h.1)
  Permᴰ-AllSound (Permᴰ.swap e₁ e₂) h = (subst Sound e₂ h.1.0, (subst Sound e₁ h.0, h.1.1))
  Permᴰ-AllSound (Permᴰ.trans d₁ d₂) h = Permᴰ-AllSound d₂ (Permᴰ-AllSound d₁ h)

  -- What `handle_all` and `post_batches` are, with the parameters of the section.
  abbrev handle : ℕ → List (ℕ × HttpResponse) → Report F → Option (Report F)
  handle now = handle_all F process_name parse order complete exchange p now

  abbrev posts :
      PublishConfig
      → Registry F
      → ℕ
      → List (List (Measurement F))
      → Option (Registry F × List (ℕ × HttpResponse))
  posts cfg = post_batches F process_name parse order complete exchange p cfg

  handle_all-total :
      (now : ℕ) (responses : List (ℕ × HttpResponse)) (total : Report F)
      → AllSound responses
      → response_sum responses + total.num_sent + total.num_err < 2 ^ 32
      → (report : Report F) × (handle now responses total ≡ some report)
        × (report.num_sent + report.num_err
            ≡ response_sum responses + total.num_sent + total.num_err)
  unfolding handle_all
  handle_all-total now [] total sound small = (total, refl, omega arith)
  handle_all-total now (resp ∷ responses) total sound small =
      let (one, e, n) =
        handle_aggr_response_sum F parse p total.registry now resp.1 resp.0 total.err_messages
          (omega arith) sound.0 in
      let next : Report F = record {
        registry = one.registry;
        num_sent = (total.num_sent + one.num_sent) % 2 ^ 32;
        num_err = (total.num_err + one.num_err) % 2 ^ 32;
        err_messages = one.err_messages;
      } in
      let (report, made, sum) = handle_all-total now responses next sound.1 (omega (arith, n)) in
      (report, rw e made, omega (arith, sum, n))

  post_batches-sum :
      (cfg : PublishConfig) (r : Registry F) (i : ℕ) (bs : List (List (Measurement F)))
      → Reorders order
      → (r' : Registry F) × (responses : List (ℕ × HttpResponse)) × (posts cfg r i bs
          ≡ some (r', responses))
        × (response_sum responses ≡ length (concat bs))
  unfolding post_batches
  post_batches-sum cfg r i [] reorders = (r, [], refl, refl)
  post_batches-sum cfg r i (b ∷ bs) reorders =
      let (payload, e) = measurements_to_json-Defined F order p.common_tags.entries b reorders in
      let http_cfg = get_http_config cfg r.config.status_metrics_enabled in
      let (sent, f, t) =
        perform-Tried F process_name (exchange i) http_cfg (chars "POST") cfg.uri
          (k_smile_json ∷ chars "Content-Encoding: gzip" ∷ []) (result payload) r in
      let (r', responses, made, sum) = post_batches-sum cfg sent.registry (suc i) bs reorders in
      (
        r',
        (length b, sent.response) ∷ responses,
        rw (e, f, made) refl,
        omega (arith, sum, length-append b (concat bs)),
      )

  send_batches-total :
      (cfg : PublishConfig) (r : Registry F) (done : ℕ) (ms : List (Measurement F))
      → Reorders order
      → Completes complete
      → 0 < cfg.batch_size
      → length ms < 2 ^ 32
      → ((bs : List (List (Measurement F))) (r' : Registry F) (responses : List (ℕ × HttpResponse))
          → posts cfg r 0 bs ≡ some (r', responses)
          → AllSound responses)
      → (report : Report F) × (send_batches F process_name parse order complete exchange p cfg r
            done ms
          ≡ some report)
        × (report.num_sent + report.num_err ≡ length ms)
  unfolding send_batches
  send_batches-total cfg r done ms reorders completes room small sound =
      let (bs, made, whole, sized) =
        batches-Batched (length ms) cfg.batch_size ms room (omega arith) in
      let (r', responses, posted, sum) = post_batches-sum cfg r 0 bs reorders in
      let done_in = completes responses in
      let count : response_sum (complete responses) ≡ length ms =
        sym (Permᴰ-response_sum done_in) ∙ sum ∙ ap length whole in
      let (report, handled, total) =
        handle_all-total done (complete responses) (no_report F r')
          (Permᴰ-AllSound done_in (sound bs r' responses posted)) (omega (arith, count, small)) in
      (report, rw (made, posted, handled) refl, omega (arith, total, count))

  sends :
      (cfg : PublishConfig) (r : Registry F) (now done : ℕ)
      → cfg.is_enabled ≡ true
      → is_empty F (measurements F r now).1 ≡ false
      → send_metrics F process_name parse order complete exchange p cfg r now done
        ≡ send_batches F process_name parse order complete exchange p cfg
            (measurements F r now).0
            done
            (measurements F r now).1
  unfolding send_metrics
  sends cfg r now done enabled some_there = rw (some_there, enabled) refl

  -- `send_metrics` of an enabled publisher returns, and counts each measurement of the registry once, as sent or as
  -- dropped, in whatever order the responses come. The size of a batch is positive, the measurements are fewer
  -- than 2 ^ 32, and the bodies of the responses are those that the backend documents.
  pub send_metrics-total :
      (cfg : PublishConfig) (r : Registry F) (now done : ℕ)
      → Reorders order
      → Completes complete
      → cfg.is_enabled ≡ true
      → 0 < cfg.batch_size
      → length (measurements F r now).1 < 2 ^ 32
      → ((bs : List (List (Measurement F))) (r' : Registry F) (responses : List (ℕ × HttpResponse))
          → post_batches F process_name parse order complete exchange p cfg
              (measurements F r now).0
              0
              bs
            ≡ some (r', responses)
          → AllSound responses)
      → (report : Report F) × (send_metrics F process_name parse order complete exchange p cfg r now
            done
          ≡ some report)
        × (report.num_sent + report.num_err ≡ length (measurements F r now).1)
  unfolding send_metrics
  send_metrics-total cfg r now done reorders completes enabled room small sound =
      elim (Bool-cases (is_empty F (measurements F r now).1)) [
        | inl e ↦
            rw (e, enabled) (_, refl, omega (arith, empty-length F (measurements F r now).1 e))
        | inr e ↦
            let (report, made, total) =
              send_batches-total cfg (measurements F r now).0 done (measurements F r now).1 reorders
                completes room small sound in
            (report, sends cfg r now done enabled e ∙ made, total)
      ]
