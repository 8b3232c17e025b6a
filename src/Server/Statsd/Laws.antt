-- ===== src/Server/Statsd/Laws.antt =====
-- What the statsd parser does with a line that it refuses, and with tags.
use spectatord.Base.{
  ℕ, zero, suc, ◌+◌, ◌≤◌, ◌<◌, ◌≡◌, ◌≢◌, inl, inr, refl, ap, List, [], ◌∷◌, Option, none, some,
  false, ◌==◌, length, take, drop, get_or, arith, Bool-cases, Option-cases, if◌then◌else◌,
}
use spectatord.CText.{advance, strchr}
use spectatord.Float.{Float}
use spectatord.Tags.{Tags}
use spectatord.Server.{CLib, Server}
use spectatord.Server.Statsd.{
  StatsdMetricType, StatsdError, parse_statsd_line, after_type, after_rate, after_statsd_name,
  metric_type, rate_and_tags, statsd_tag_loop, add_tag, stuck,
}

get_or-end : (s : List ℕ) (i : ℕ) → length s ≤ i → get_or s i 0 ≡ 0
get_or-end [] i h = refl
get_or-end (c ∷ s) zero h = ground arith
get_or-end (c ∷ s) (suc i) h = get_or-end s i (omega arith)

get_or-inside : (s : List ℕ) (i : ℕ) → (get_or s i 0 == 0) ≡ false → i < length s
get_or-inside [] i h = ground arith
get_or-inside (c ∷ s) zero h = ground arith
get_or-inside (c ∷ s) (suc i) h = ground (arith, get_or-inside s i h)

next-end :
    (fuel : ℕ) (str : List ℕ) (tags : Tags) (p b e : ℕ) (v : Option ℕ)
    → (get_or str p 0 == 0) ≡ false
    → ((tags' : Tags) (p' b' e' : ℕ) (v' : Option ℕ)
        → p < p'
        → statsd_tag_loop fuel str tags' p' b' e' v' ≢ stuck)
    → statsd_tag_loop (suc fuel) str tags p b e v ≢ stuck
unfolding statsd_tag_loop
next-end fuel str tags p b e v z rec =
    let colon = get_or str (p + 1) 0 == b':' in
    let e' = if colon then p + 1 else e in
    let v' = if colon then some (p + 2) else v in
    let p' = if colon then p + 2 else p + 1 in
    let after : p < p' = ground arith in
    elim (Option-cases (add_tag tags str b e' v' p')) [
      | inl n ↦ ground (arith, z, n, rec tags p' b e' v' after)
      | inr (t, n) ↦ ground (
        arith,
        z,
        n,
        rec tags p' b e' v' after,
        rec t (p' + 1) (p' + 1) e' none (omega (arith, after)),
      )
    ]

-- With some fuel, and more than the text has characters from the position on, the loop over the tags ends.
pub statsd_tag_loop_ends :
    (fuel : ℕ) (str : List ℕ) (tags : Tags) (p begin_key end_key : ℕ) (begin_value : Option ℕ)
    → length str < fuel + p
    → 0 < fuel
    → statsd_tag_loop fuel str tags p begin_key end_key begin_value ≢ stuck
unfolding statsd_tag_loop
statsd_tag_loop_ends zero str tags p b e v h g = ground arith
statsd_tag_loop_ends (suc fuel) str tags p b e v h g = elim (Bool-cases (get_or str p 0 == 0)) [
  | inl z ↦ ground (arith, z)
  | inr z ↦
      let inside = get_or-inside str p z in
      next-end fuel str tags p b e v z (λ tags' p' b' e' v' after.
        statsd_tag_loop_ends fuel str tags' p' b' e' v' (omega arith) (omega arith))
]

module _ (F : Float) (lib : CLib F) where
  after_rate_error :
      (s : Server F) (now : ℕ) (name : List ℕ) (value : F.Double) (type : StatsdMetricType)
      (r : Option (F.Double × Tags) × StatsdError) (e : StatsdError)
      → (after_rate F lib s now name value type r).1 ≡ some e
      → (after_rate F lib s now name value type r).0 ≡ s
  after_rate_error s now name value type (none, x) e h = refl
  after_rate_error s now name value type (some r, x) e h = ground arith

  after_type_error :
      (s : Server F) (now : ℕ) (name : List ℕ) (value : F.Double)
      (t : Option (StatsdMetricType × List ℕ) × StatsdError) (e : StatsdError)
      → (after_type F lib s now name value t).1 ≡ some e
      → (after_type F lib s now name value t).0 ≡ s
  after_type_error s now name value (none, x) e h = refl
  after_type_error s now name value (some (type, p), x) e h =
      after_rate_error s now name value type (rate_and_tags F lib p) e h

  after_statsd_name_error :
      (s : Server F) (now : ℕ) (buffer : List ℕ) (i : Option ℕ) (e : StatsdError)
      → (after_statsd_name F lib s now buffer i).1 ≡ some e
      → (after_statsd_name F lib s now buffer i).0 ≡ s
  after_statsd_name_error s now buffer none e h = refl
  after_statsd_name_error s now buffer (some zero) e h = refl
  after_statsd_name_error s now buffer (some (suc i)) e h =
      let p = drop (i + 2) buffer in
      let q = drop (lib.strtod p).1 p in
      ground (
        arith,
        after_type_error s now (take (suc i) buffer) (lib.strtod p).0 (metric_type (advance q)) e,
      )

  parse_statsd_line_refused :
      (s : Server F) (now : ℕ) (buffer : List ℕ) (e : StatsdError)
      → (parse_statsd_line F lib s now buffer).1 ≡ some e
      → (parse_statsd_line F lib s now buffer).0 ≡ s
  unfolding parse_statsd_line
  parse_statsd_line_refused s now buffer e h =
      after_statsd_name_error s now buffer (strchr b':' buffer) e h

  -- A line that `parse_statsd_line` answers with an error changes nothing of the registry with its meters and counters,
  -- nor of the caches of percentile meters. This says nothing of the pool of strings, which keeps the tags that
  -- were interned before the error.
  pub parse_statsd_line_error :
      (s : Server F) (now : ℕ) (buffer : List ℕ) (e : StatsdError)
      → (parse_statsd_line F lib s now buffer).1 ≡ some e
      → let after = (parse_statsd_line F lib s now buffer).0 in
        (after.registry ≡ s.registry)
        × (after.perc_timers ≡ s.perc_timers)
        × (after.perc_ds ≡ s.perc_ds)
  parse_statsd_line_error s now buffer e h =
      let same = parse_statsd_line_refused s now buffer e h in
      (ap (λ t. t.registry) same, ap (λ t. t.perc_timers) same, ap (λ t. t.perc_ds) same)
