-- ===== src/Meter/Counter/Laws.antt =====
-- What a counter publishes after a run of `Add`.
use spectatord.Base.{ℕ, ◌≡◌, refl, ap, ◌∙◌, List, [], ◌∷◌, true, arith, if◌then◌else◌}
use spectatord.Float.{Float, IsIeee}
use spectatord.Id.{with_default_stat}
use spectatord.Id.Refs
use spectatord.Meter.{Meter, zero_double, touch}
use spectatord.Meter.Counter.{Counter, measure, add}

module _ (F : Float) where
  -- `Add`, once for each time and delta.
  unfoldable pub add_each : Counter F → List (ℕ × F.Double) → Counter F
  add_each c [] = c
  add_each c ((now, delta) ∷ ds) = add_each (add F c now delta) ds

  -- The sum from `start` on of the deltas that are not negative, in order.
  unfoldable pub sum_from : F.Double → List (ℕ × F.Double) → F.Double
  sum_from start [] = start
  sum_from start ((now, delta) ∷ ds) =
      sum_from (if F.lt delta (zero_double F) then start else F.add start delta) ds

  count-add :
      (c : Counter F) (now : ℕ) (delta : F.Double)
      → ((add F c now delta).count
          ≡ (if F.lt delta (zero_double F) then c.count else F.add c.count delta))
        × ((add F c now delta).meter ≡ touch c.meter now)
  unfolding add
  count-add c now delta = ground arith

  pub count-add_each :
      (ds : List (ℕ × F.Double)) (c : Counter F)
      → ((add_each c ds).count ≡ sum_from c.count ds) × ((add_each c ds).meter.id ≡ c.meter.id)
  unfolding add_each sum_from
  count-add_each [] c = (refl, refl)
  count-add_each ((now, delta) ∷ ds) c =
      let (p, q) = count-add_each ds (add F c now delta) in
      (
        p ∙ ap (λ s. sum_from s ds) (count-add c now delta).0,
        q ∙ ap (λ (m : Meter). m.id) (count-add c now delta).1,
      )

  -- What is published after a run of `Add`: the sum of what was not negative, if that is positive, under
  -- the id with the statistic `count` by default. The counter is at 0 again.
  pub measure-add_each :
      (c : Counter F) (ds : List (ℕ × F.Double))
      → ((measure F (add_each c ds)).1 ≡ (
          if F.lt (zero_double F) (sum_from c.count ds)
          then record { id = with_default_stat c.meter.id Refs.count; value = sum_from c.count ds }
            ∷ []
          else []))
        × ((measure F (add_each c ds)).0.count ≡ zero_double F)
  unfolding measure
  measure-add_each c ds = (rw ((count-add_each ds c).0, (count-add_each ds c).1), refl)

  sum_from_nan :
      (ieee : IsIeee F) (ds : List (ℕ × F.Double)) (start : F.Double)
      → F.is_nan start ≡ true
      → F.is_nan (sum_from start ds) ≡ true
  unfolding sum_from
  sum_from_nan ieee [] start h = h
  sum_from_nan ieee ((now, delta) ∷ ds) start h =
      sum_from_nan ieee ds _ (ground (arith, ieee.add-nan_left start delta h))

  -- One NaN among the deltas silences the counter for the interval: what was added before and after it
  -- in the interval is not published.
  pub measure_nan :
      (ieee : IsIeee F) (c : Counter F) (before after : List (ℕ × F.Double)) (now : ℕ)
      (delta : F.Double)
      → F.is_nan delta ≡ true
      → (measure F (add_each (add F (add_each c before) now delta) after)).1 ≡ []
  unfolding measure
  measure_nan ieee c before after now delta h =
      rw (ieee.lt-nan_right (zero_double F) _ poisoned) refl
    where
      poisoned : F.is_nan (add_each (add F (add_each c before) now delta) after).count ≡ true
      poisoned = rw ((count-add_each after (add F (add_each c before) now delta)).0) (
          sum_from_nan ieee after _ (
            rw ((count-add (add_each c before) now delta).0)
              (rw (ieee.lt-nan_left delta (zero_double F) h) (ieee.add-nan_right _ delta h))))
