-- ===== src/HttpClient/Entry.antt =====
-- spectator/log_entry.h: a request's entry in the registry.
use spectatord.Base.{ℕ, zero, suc, ◌+◌, ◌/◌, ◌%◌, List, [], ◌∷◌, Bool, ltb, if◌then◌else◌}
use spectatord.CText.{chars}
use spectatord.Int.{ℤ, pos, negsuc, ◌-ℤ◌}
use spectatord.Float.{Float}
use spectatord.Tags.{StrRef, empty_tags}
use spectatord.Id.{MeterId, make_id, add, intern_str, with_tag, with_tags}
use spectatord.Registry.{Registry}
use spectatord.Percentile.{new_perc_timer, record_percentile_timer}
use spectatord.HttpClient.Url.{path_from_url}

-- Decimal digits, on fuel: a number has no more than its own successor.
abbrev digits : ℕ → ℕ → List ℕ → List ℕ
digits zero n rest = rest
digits (suc fuel) n rest =
    let more = digits fuel (n / 10) ((b'0' + n % 10) ∷ rest) in
    if ltb n 10 then (b'0' + n) ∷ rest else more

-- `fmt::format("{}", code)`
unfoldable pub format_int : ℤ → List ℕ
format_int (pos n) = digits 20 n []
format_int (negsuc n) = b'-' ∷ digits 20 (suc n) []

-- `start_` and `id_`; times are nanoseconds.
pub record LogEntry : Type 0 where
  pub start : ℕ
  pub id : MeterId

-- The constructor
unfoldable pub new_entry : List ℕ → List ℕ → List ℕ → ℕ → LogEntry
new_entry process_name method url now =
    let t1 = add empty_tags (chars "nf.process") process_name in
    let t2 = add t1 (chars "owner") (chars "spectatord") in
    let t3 = add t2 (chars "ipc.endpoint") (path_from_url url) in
    let t4 = add t3 (chars "http.method") method in
    let t5 = add t4 (chars "http.status") (chars "-1") in
    record { start = now; id = make_id (intern_str (chars "ipc.client.call")) t5 }

unfoldable pub set_status_code : LogEntry → ℤ → LogEntry
set_status_code e code = record e {
  id = with_tag e.id (intern_str (chars "http.status")) (intern_str (format_int code));
}

-- `attempt`
abbrev pub attempt : ℕ → StrRef
attempt zero = intern_str (chars "initial")
attempt (suc zero) = intern_str (chars "second")
attempt (suc (suc n)) = intern_str (chars "third_up")

unfoldable pub set_attempt : LogEntry → ℕ → Bool → LogEntry
set_attempt e attempt_number is_final = record e {
  id =
      with_tags e.id (intern_str (chars "ipc.attempt")) (attempt attempt_number)
        (intern_str (chars "ipc.attempt.final"))
        (if is_final then intern_str (chars "true") else intern_str (chars "false"));
}

unfoldable pub set_error : LogEntry → List ℕ → LogEntry
set_error e error = record e {
  id =
      with_tags e.id (intern_str (chars "ipc.result")) (intern_str (chars "failure"))
        (intern_str (chars "ipc.status")) (intern_str error);
}

unfoldable pub set_success : LogEntry → LogEntry
set_success e = record e {
  id =
      with_tags e.id (intern_str (chars "ipc.status")) (intern_str (chars "success"))
        (intern_str (chars "ipc.result")) (intern_str (chars "success"));
}

-- `log`: a timer between a millisecond and ten seconds, of the time from the start to `now`.
unfoldable pub log : (F : Float) → Registry F → LogEntry → ℕ → Bool → Registry F
log F r e now status_metrics_enabled =
    let (r', timer) = new_perc_timer F now r e.id (pos 1_000_000) (pos 10_000_000_000) in
    if status_metrics_enabled
    then record_percentile_timer F r' timer now (pos now -ℤ pos e.start)
    else r
