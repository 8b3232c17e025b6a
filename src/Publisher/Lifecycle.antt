-- ===== src/Publisher/Lifecycle.antt =====
-- `Start`, `Stop` and the destructor of `Publisher`, in spectator/publisher.h, with `GlobalInit` and `GlobalShutdown` of
-- spectator/http_client.cc: the flags and the sender's thread. A thread that is joined ends, since it has seen
-- `should_stop_`; a join of no thread throws.
use spectatord.Base.{ℕ, suc, ◌+◌, ◌≡◌, refl, List, [], ◌∷◌, Bool, true, false, if◌then◌else◌, arith}
use spectatord.Int.{ℤ, pos, ltb_ℤ}

-- `sender_thread` is whether there is a thread to join. `init` and `shutdown` are the static flags of `GlobalInit` and
-- `GlobalShutdown`, which no call resets. The last fields count the calls of `curl_global_init` and
-- `curl_global_cleanup`, the threads made, and the last flushes.
pub record Lifecycle : Type 0 where
  pub started : Bool
  pub http_initialized : Bool
  pub should_stop : Bool
  pub sender_thread : Bool
  pub init : Bool
  pub shutdown : Bool
  pub curl_inits : ℕ
  pub curl_cleanups : ℕ
  pub spawned : ℕ
  pub flushes : ℕ

-- A new publisher of a process that has used HTTP nowhere.
abbrev pub fresh : Lifecycle
fresh = record {
  started = false;
  http_initialized = false;
  should_stop = false;
  sender_thread = false;
  init = false;
  shutdown = false;
  curl_inits = 0;
  curl_cleanups = 0;
  spawned = 0;
  flushes = 0;
}

pub data Outcome : Type 0 where
  done : Outcome
  ignored : Outcome
  invalid_batch_size : Outcome
  no_thread_to_join : Outcome

-- `GlobalInit` acts on its first call in a process alone.
abbrev pub global_init : Lifecycle → Lifecycle
global_init s = if s.init then s else record s { init = true; curl_inits = suc s.curl_inits }

abbrev init_http : Lifecycle → Lifecycle
init_http s = if s.http_initialized then s else global_init (record s { http_initialized = true })

-- `Start`: `started_` is set before the size of a batch is looked at.
unfoldable pub start : Bool → ℤ → Lifecycle → Lifecycle × Outcome
start uri_empty batch_size s =
    let s' = init_http s in
    if uri_empty
    then (s', Outcome.ignored)
    else if s'.started
    then (s', Outcome.ignored)
    else if ltb_ℤ (pos 0) batch_size
    then (
      record s' { started = true; sender_thread = true; spawned = suc s'.spawned },
      Outcome.done,
    )
    else (record s' { started = true }, Outcome.invalid_batch_size)

-- `GlobalShutdown`, likewise.
abbrev pub global_shutdown : Lifecycle → Lifecycle
global_shutdown s =
    if s.shutdown then s else record s { shutdown = true; curl_cleanups = suc s.curl_cleanups }

abbrev shutdown_http : Lifecycle → Lifecycle × Outcome
shutdown_http s = (
  if s.http_initialized then global_shutdown (record s { http_initialized = false }) else s,
  Outcome.done,
)

-- `Stop`: a join that throws leaves the client of HTTP as it was.
unfoldable pub stop : Lifecycle → Lifecycle × Outcome
stop s =
    if s.started
    then (if s.sender_thread
        then shutdown_http (record s {
          started = false;
          should_stop = true;
          sender_thread = false;
          flushes = suc s.flushes;
        })
        else (record s { started = false; should_stop = true }, Outcome.no_thread_to_join))
    else shutdown_http s

-- The destructor
unfoldable pub destroy : Lifecycle → Lifecycle × Outcome
unfolding stop
destroy s = if s.started then stop s else (s, Outcome.done)

pub data Call : Type 0 where
  start_call : Bool → ℤ → Call
  stop_call : Call

abbrev pub run : List Call → Lifecycle → Lifecycle
run [] s = s
run (Call.start_call uri_empty batch_size ∷ calls) s = run calls (start uri_empty batch_size s).0
run (Call.stop_call ∷ calls) s = run calls (stop s).0

abbrev pub ValidCalls : List Call → Type 0
ValidCalls [] = Unit {0}
ValidCalls (Call.start_call uri_empty batch_size ∷ calls) =
    (ltb_ℤ (pos 0) batch_size ≡ true) × ValidCalls calls
ValidCalls (Call.stop_call ∷ calls) = ValidCalls calls

abbrev pub one_if : Bool → ℕ
one_if true = 1
one_if false = 0

-- There is a thread exactly while the publisher is started, and each thread is flushed once. The library of HTTP is
-- set up and cleaned up once at most, and is set up where a flag says so, and before it is cleaned up.
pub record Inv (s : Lifecycle) : Type 0 where
  pub one_thread : s.started ≡ s.sender_thread
  pub flushed : s.spawned ≡ s.flushes + one_if s.sender_thread
  pub set_up : s.curl_inits ≡ one_if s.init
  pub cleaned_up : s.curl_cleanups ≡ one_if s.shutdown
  pub up : s.http_initialized ≡ true → s.init ≡ true
  pub down : s.shutdown ≡ true → s.init ≡ true

start-Inv :
    (uri_empty : Bool) (batch_size : ℤ) (s : Lifecycle)
    → ltb_ℤ (pos 0) batch_size ≡ true
    → Inv s
    → Inv (start uri_empty batch_size s).0
unfolding start
start-Inv uri_empty batch_size s h i = ground (arith, i.up, i.down)

stop-Inv : (s : Lifecycle) → Inv s → Inv (stop s).0
unfolding stop
stop-Inv s i = ground (arith, i.up, i.down)

fresh-Inv : Inv fresh
fresh-Inv = record {
  one_thread = refl;
  flushed = refl;
  set_up = refl;
  cleaned_up = refl;
  up = λ h. absurd (cc h);
  down = λ h. absurd (cc h);
}

run-Inv_from : (calls : List Call) (s : Lifecycle) → ValidCalls calls → Inv s → Inv (run calls s)
run-Inv_from [] s v i = i
run-Inv_from (Call.start_call u b ∷ calls) s v i = run-Inv_from calls _ v.1 (start-Inv u b s v.0 i)
run-Inv_from (Call.stop_call ∷ calls) s v i = run-Inv_from calls _ v (stop-Inv s i)

-- After any calls of `Start` and `Stop` with positive sizes of a batch, of a publisher that is the first in its process
-- to use HTTP, there is a thread to join exactly while the publisher is started, and each thread that has ended was
-- followed by one flush. The library of HTTP is set up once at most, cleaned up once at most, set up while the flag
-- says that HTTP is up, and cleaned up after it was set up alone.
pub run-Inv : (calls : List Call) → ValidCalls calls → Inv (run calls fresh)
run-Inv calls v = run-Inv_from calls fresh v fresh-Inv

-- Of a publisher that is not started and has no thread, a `Start` with a URI and a size of a batch that is not positive
-- throws. A `Start` after it, with whatever size, is ignored and makes no thread; a `Stop` after it throws, with HTTP
-- still up.
pub stop-start_invalid :
    (batch_size again : ℤ) (s : Lifecycle)
    → s.started ≡ false
    → s.sender_thread ≡ false
    → ltb_ℤ (pos 0) batch_size ≡ false
    → let thrown = start false batch_size s in
      (thrown.1 ≡ Outcome.invalid_batch_size)
      × ((start false again thrown.0).1 ≡ Outcome.ignored)
      × ((start false again thrown.0).0.sender_thread ≡ false)
      × ((stop thrown.0).1 ≡ Outcome.no_thread_to_join)
      × ((stop thrown.0).0.http_initialized ≡ true)
unfolding start stop
stop-start_invalid batch_size again s h g b = ground arith

-- A publisher that runs, is stopped, and is started again with a URI and a positive size of a batch makes a new sender
-- thread, which finds `should_stop_` set; HTTP is flagged as up, though its library was cleaned up and not set up again.
pub start-stop_again :
    (batch_size : ℤ) (s : Lifecycle)
    → s.started ≡ true
    → s.sender_thread ≡ true
    → s.http_initialized ≡ true
    → s.init ≡ true
    → ltb_ℤ (pos 0) batch_size ≡ true
    → let again = start false batch_size (stop s).0 in
      (again.1 ≡ Outcome.done)
      × (again.0.sender_thread ≡ true)
      × (again.0.spawned ≡ suc s.spawned)
      × (again.0.should_stop ≡ true)
      × (again.0.http_initialized ≡ true)
      × (again.0.shutdown ≡ true)
      × (again.0.curl_inits ≡ s.curl_inits)
unfolding start stop
start-stop_again batch_size s h g u i b = ground arith
