-- ===== src/Meter/Gauge/Laws.antt =====
-- What the gauges publish, and when a gauge expires.
use spectatord.Base.{
  ℕ, ◌+◌, ◌≤◌, ◌<◌, ◌≡◌, refl, ◌∙◌, ◌⊎◌, List, [], ◌∷◌, true, false, arith, if◌then◌else◌,
  Bool-cases, inl, inr, ◌↔◌,
}
use spectatord.Float.{Float, IsIeee}
use spectatord.Id.{with_default_stat, with_stat}
use spectatord.Id.Refs
use spectatord.Meter.{update_max}
use spectatord.Meter.Gauge.{
  Gauge, has_expired, measure_gauge, set_gauge, set_ttl, k_min_ttl_nanos, MaxGauge,
  measure_max_gauge, update_max_gauge,
}

module _ (F : Float) where
  -- A gauge lives for its TTL after the last `Set`, and no TTL is below five seconds.
  pub has_expired_iff :
      (g : Gauge F) (ttl at now : ℕ) (value : F.Double)
      → ((has_expired now (set_gauge F (set_ttl g ttl) at value) ≡ true)
          ↔ ((at + ttl < now) × (at + k_min_ttl_nanos < now)))
  unfolding has_expired set_gauge set_ttl
  has_expired_iff g ttl at now value = (λ h. ground arith, λ (p, q). ground arith)

  -- A gauge that is measured after its TTL publishes its last value once more, and then nothing until it is
  -- set again.
  pub measure_expired_twice :
      (ieee : IsIeee F) (g : Gauge F) (now later : ℕ)
      → has_expired now g ≡ true
      → F.is_nan g.value ≡ false
      → ((measure_gauge F now g).1
          ≡ record { id = with_default_stat g.meter.id Refs.gauge; value = g.value } ∷ [])
        × ((measure_gauge F later (measure_gauge F now g).0).1 ≡ [])
  unfolding measure_gauge
  measure_expired_twice ieee g now later h k = rw (h, k) (refl, rw ieee.nan-is_nan refl)

  -- Until then each measurement publishes the value that was set, and leaves the gauge as it is.
  pub measure-set_gauge :
      (g : Gauge F) (at now : ℕ) (value : F.Double)
      → F.is_nan value ≡ false
      → now ≤ at + g.ttl_nanos
      → measure_gauge F now (set_gauge F g at value) ≡ (
        set_gauge F g at value,
        record { id = with_default_stat g.meter.id Refs.gauge; value = value } ∷ [],
      )
  unfolding measure_gauge set_gauge has_expired
  measure-set_gauge g at now value h k = ground arith

  unfoldable pub update_each : MaxGauge F → List (ℕ × F.Double) → MaxGauge F
  update_each g [] = g
  update_each g ((now, value) ∷ vs) = update_each (update_max_gauge F g now value) vs

  -- No value of the list is above the bound.
  abbrev pub Bounds : F.Double → List (ℕ × F.Double) → Type 0
  Bounds top [] = Unit {0}
  Bounds top ((now, value) ∷ vs) = (F.lt top value ≡ false) × Bounds top vs

  -- The bound is the start or one of the values.
  abbrev pub Among : F.Double → F.Double → List (ℕ × F.Double) → Type 0
  Among top start [] = top ≡ start
  Among top start ((now, value) ∷ vs) = (Among top start vs) ⊎ (top ≡ value)

  module _ (ieee : IsIeee F) where
    lt_mono : (a b c : F.Double) → F.lt a c ≡ false → F.lt (update_max F a b) c ≡ false
    unfolding update_max
    lt_mono a b c h = ground (arith, ieee.lt_trans a b c)

    max-above : (a b : F.Double) → F.lt (update_max F a b) b ≡ false
    unfolding update_max
    max-above a b = ground (arith, ieee.lt_irrefl b)

    each_mono :
        (vs : List (ℕ × F.Double)) (g : MaxGauge F) (c : F.Double)
        → F.lt g.value c ≡ false
        → F.lt (update_each g vs).value c ≡ false
    unfolding update_each update_max_gauge
    each_mono [] g c h = h
    each_mono ((now, value) ∷ vs) g c h = each_mono vs _ c (lt_mono g.value value c h)

    each-Bounds : (vs : List (ℕ × F.Double)) (g : MaxGauge F) → Bounds (update_each g vs).value vs
    unfolding update_each
    each-Bounds [] g = tt
    each-Bounds ((now, value) ∷ vs) g = (
      each_mono vs (update_max_gauge F g now value) value
          (unfold update_max_gauge in max-above g.value value),
      each-Bounds vs (update_max_gauge F g now value),
    )

  max_cases : (a b : F.Double) → (update_max F a b ≡ a) ⊎ (update_max F a b ≡ b)
  unfolding update_max
  max_cases a b = elim (Bool-cases (F.lt a b)) [ inl e ↦ inr (rw e) | inr e ↦ inl (rw e) ]

  Among-step :
      (top start value : F.Double) (now : ℕ) (vs : List (ℕ × F.Double))
      → Among top (update_max F start value) vs
      → Among top start ((now, value) ∷ vs)
  Among-step top start value now [] h = elim (max_cases start value) [
    | inl e ↦ inl (h ∙ e)
    | inr e ↦ inr (h ∙ e)
  ]
  Among-step top start value now ((n, v) ∷ vs) (inr e) = inl (inr e)
  Among-step top start value now ((n, v) ∷ vs) (inl h) =
      elim (Among-step top start value now vs h) [ inl a ↦ inl (inl a) | inr e ↦ inr e ]

  each-Among :
      (vs : List (ℕ × F.Double)) (g : MaxGauge F)
      → Among (update_each g vs).value g.value vs × ((update_each g vs).meter.id ≡ g.meter.id)
  unfolding update_each update_max_gauge
  each-Among [] g = (refl, refl)
  each-Among ((now, value) ∷ vs) g =
      let (a, e) = each-Among vs (update_max_gauge F g now value) in
      (Among-step (update_each (update_max_gauge F g now value) vs).value g.value value now vs a, e)

  -- After a run of updates a max gauge publishes a value that is not below any of them and is one of them or
  -- the value before, unless that is the lowest double. Measured again it publishes nothing.
  pub measure-update_each :
      (ieee : IsIeee F) (g : MaxGauge F) (vs : List (ℕ × F.Double))
      → let top = (update_each g vs).value in
        Bounds top vs
        × Among top g.value vs
        × ((measure_max_gauge F (update_each g vs)).1 ≡ (
            if F.eq top F.lowest
            then []
            else record { id = with_stat g.meter.id Refs.max; value = top } ∷ []))
        × ((measure_max_gauge F (measure_max_gauge F (update_each g vs)).0).1 ≡ [])
  unfolding measure_max_gauge
  measure-update_each ieee g vs = (
    each-Bounds ieee vs g,
    (each-Among vs g).0,
    rw ((each-Among vs g).1) refl,
    rw ieee.eq_lowest refl,
  )
