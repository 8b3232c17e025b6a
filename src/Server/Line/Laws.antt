-- ===== src/Server/Line/Laws.antt =====
-- What `parse_line` of server/spectatord.cc does with a line that it refuses.
use spectatord.Base.{ℕ, ◌+◌, ◌≡◌, refl, ap, List, some, drop, arith}
use spectatord.Int.{ℤ, pos}
use spectatord.Float.{Float}
use spectatord.Server.{CLib, Server}
use spectatord.Server.Measurement.{
  Value, ParseResult, missing_name, missing_value, unable_to_parse_value, measured, get_measurement,
}
use spectatord.Server.Line.{LineError, dispatch, after_measurement, from_separator, parse_line}
use spectatord.CText.{deref, advance}
use spectatord.Id.{MeterId}

module _ (F : Float) where
  dispatch_error :
      (s : Server F) (now type : ℕ) (extra : ℤ) (id : MeterId) (value : Value F) (e : LineError)
      → (dispatch F s now type extra id value).1 ≡ some e
      → (dispatch F s now type extra id value).0 ≡ s
  unfolding dispatch
  dispatch_error s now type extra id value e h = ground arith

  after_measurement_error :
      (s : Server F) (now type : ℕ) (extra : ℤ) (m : ParseResult F) (e : LineError)
      → (after_measurement F s now type extra m).1 ≡ some e
      → (after_measurement F s now type extra m).0 ≡ s
  after_measurement_error s now type extra missing_name e h = refl
  after_measurement_error s now type extra missing_value e h = refl
  after_measurement_error s now type extra unable_to_parse_value e h = refl
  after_measurement_error s now type extra (measured id value w) e h =
      dispatch_error s now type extra id value e h

  from_separator_error :
      (lib : CLib F) (s : Server F) (now type : ℕ) (extra : ℤ) (p : List ℕ) (i : ℕ) (e : LineError)
      → (from_separator F lib s now type extra p i).1 ≡ some e
      → (from_separator F lib s now type extra p i).0 ≡ s
  from_separator_error lib s now type extra p i e h =
      ground
        (arith, after_measurement_error s now type extra (get_measurement lib type (advance p)) e)

  parse_line_refused :
      (lib : CLib F) (s : Server F) (now : ℕ) (buffer : List ℕ) (e : LineError)
      → (parse_line F lib s now buffer).1 ≡ some e
      → (parse_line F lib s now buffer).0 ≡ s
  unfolding parse_line
  parse_line_refused lib s now buffer e h =
      let q = advance (advance buffer) in
      let extra = (lib.strtoll q).0 in
      let n = (lib.strtoll q).1 in
      ground (
        arith,
        from_separator_error lib s now (deref buffer) extra (drop n q) (2 + n) e,
        from_separator_error lib s now (deref buffer) (pos 0) (advance buffer) 1 e,
      )

  -- A line that `parse_line` answers with an error, on every error path, changes nothing of the registry with its meters and
  -- counters, nor of the caches of percentile meters. This says nothing of the pool of strings, which keeps
  -- the name and the tags that were interned before the error.
  pub parse_line_error :
      (lib : CLib F) (s : Server F) (now : ℕ) (buffer : List ℕ) (e : LineError)
      → (parse_line F lib s now buffer).1 ≡ some e
      → let after = (parse_line F lib s now buffer).0 in
        (after.registry ≡ s.registry)
        × (after.perc_timers ≡ s.perc_timers)
        × (after.perc_ds ≡ s.perc_ds)
  parse_line_error lib s now buffer e h =
      let same = parse_line_refused lib s now buffer e h in
      (ap (λ t. t.registry) same, ap (λ t. t.perc_timers) same, ap (λ t. t.perc_ds) same)
