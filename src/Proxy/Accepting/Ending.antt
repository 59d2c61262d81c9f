-- ===== src/Proxy/Accepting/Ending.antt =====
-- internal/proxy/transparent_loop.go: which connections the accept loop handles, how it ends, and what
-- becomes of a connection.
use goper.Base.{
  ℕ, zero, suc, ◌<◌, Bool, true, false, List, [], ◌∷◌, ◌++◌, length, Option, none, some, ◌≡◌, refl,
  arith, All,
}
use goper.Base.Text.{Text}
use goper.Capture.Entry.{Time}
use goper.Proxy.Transparent.{InnerRequest, peek, dispatch_transparent}
use goper.Proxy.Accepting.{
  Conn, Resolver, Transparent, or_default, init_resolver, init_transparent, set_peek_deadline,
  after_peek, peek_and_buffer, dispatched, handle_with, handle_transparent_conn, timeout, fatal,
  Accepted, accepted, failed, accept_retryable, accept_continue, accept_once, and_handled,
  after_once, accept_loop, stopped, stopped_by, run_with, run_transparent,
}

-- The connections among the results.
abbrev pub conns : List Accepted → List Conn
conns [] = []
conns (accepted conn ∷ as') = conn ∷ conns as'
conns (failed e ∷ as') = conns as'

abbrev pub is_fatal : Accepted → Bool
is_fatal (accepted conn) = false
is_fatal (failed timeout) = false
is_fatal (failed (fatal e)) = true

-- A connection or a timeout.
abbrev pub IsSteady : Accepted → Type 0
IsSteady a = is_fatal a ≡ false

accept_loop-waits :
    (fuel : ℕ) (as' : List Accepted)
    → All IsSteady as'
    → length as' < fuel
    → accept_loop fuel as' ≡ some (conns as', none)
unfolding accept_loop after_once accept_once accept_continue accept_retryable and_handled
accept_loop-waits zero as' s h = absurd (omega arith)
accept_loop-waits (suc fuel) [] s h = refl
accept_loop-waits (suc fuel) (accepted conn ∷ as') s h =
    rw (accept_loop-waits fuel as' s.1 (omega arith)) refl
accept_loop-waits (suc fuel) (failed timeout ∷ as') s h =
    accept_loop-waits (suc fuel) as' s.1 (omega arith)
accept_loop-waits (suc fuel) (failed (fatal e) ∷ as') s h = absurd (ground (arith, s.0))

accept_loop-stops :
    (fuel : ℕ) (as' after : List Accepted) (e : Text)
    → All IsSteady as'
    → length as' < fuel
    → accept_loop fuel (as' ++ failed (fatal e) ∷ after) ≡ some (conns as', some (fatal e))
unfolding accept_loop after_once accept_once accept_continue accept_retryable and_handled
accept_loop-stops zero as' after e s h = absurd (omega arith)
accept_loop-stops (suc fuel) [] after e s h = refl
accept_loop-stops (suc fuel) (accepted conn ∷ as') after e s h =
    rw (accept_loop-stops fuel as' after e s.1 (omega arith)) refl
accept_loop-stops (suc fuel) (failed timeout ∷ as') after e s h =
    accept_loop-stops (suc fuel) as' after e s.1 (omega arith)
accept_loop-stops (suc fuel) (failed (fatal t) ∷ as') after e s h = absurd (ground (arith, s.0))

-- With a resolver, and fuel for one round more than there are results, transparent mode handles every
-- connection that Accept returns, in order, whatever timeouts come in between. It waits for the next
-- one until Accept returns an error that is not a timeout, and ends with this error.
pub run_transparent_lem :
    (fuel : ℕ) (platform : Option Resolver) (s : Transparent) (r : Resolver)
    (as' after : List Accepted) (e : Text)
    → or_default s.resolver platform ≡ some r
    → All IsSteady as'
    → length as' < fuel
    → (run_transparent fuel platform s as' ≡ some (conns as', none))
      × (run_transparent fuel platform s (as' ++ failed (fatal e) ∷ after)
          ≡ some (conns as', some (stopped (fatal e))))
unfolding run_transparent run_with init_transparent init_resolver stopped_by
run_transparent_lem fuel platform s r as' after e d steady h =
    rw (d, accept_loop-waits fuel as' steady h, accept_loop-stops fuel as' after e steady h)
      (refl, refl)

-- A connection that sends these bytes, and on which deadlines work.
abbrev pub sending : Text → Option Time → Conn
sending sent deadline = record {
  sent = sent;
  deadlines_work = true;
  deadline = deadline;
  closed = false;
}

peek-first : (first : ℕ) (more : Text) → peek (first ∷ more) 1 ≡ some (first ∷ [])
unfolding peek
peek-first first more = ground arith

-- Such a connection is routed by its first byte, with no deadline left on it, and closed afterwards.
pub handle_transparent_conn_lem :
    (platform : Option Resolver) (s : Transparent) (r : Resolver) (now : Time)
    (request : InnerRequest) (first : ℕ) (more : Text) (deadline : Option Time)
    → or_default s.resolver platform ≡ some r
    → handle_transparent_conn platform s now request (sending (first ∷ more) deadline) ≡ (
      dispatch_transparent (r (sending (first ∷ more) none)) (first ∷ more) request,
      record (sending (first ∷ more) none) { closed = true },
    )
unfolding handle_transparent_conn handle_with init_transparent init_resolver dispatched
    peek_and_buffer set_peek_deadline after_peek
handle_transparent_conn_lem platform s r now request first more deadline d =
    rw (d, peek-first first more) refl
