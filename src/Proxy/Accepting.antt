-- ===== src/Proxy/Accepting.antt =====
-- internal/proxy/transparent_loop.go: the accept loop of transparent mode, and each connection up to the
-- first byte, by which Proxy.Transparent routes it.
pub mod Ending
pub mod Platform
use goper.Base.{
  ℕ, zero, suc, ◌+◌, ◌*◌, ◌^◌, Bool, true, false, List, [], ◌∷◌, map, Option, none, some,
  if◌then◌else◌,
}
use goper.Base.Chain.{◌>>=◌}
use goper.Base.Text.{Text}
use goper.Capture.Entry.{Time}
use goper.Proxy.Sni.{Result, ok}
use goper.Proxy.Transparent.{OriginalDst, InnerRequest, peek, dispatch_transparent}

-- A connection: what the client sends, whether setting a deadline works, its read deadline, and
-- whether it has been closed.
pub record Conn : Type 0 where
  pub sent : Text
  pub deadlines_work : Bool
  pub deadline : Option Time
  pub closed : Bool

abbrev pub Resolver : Type 0
Resolver = Conn → Option OriginalDst

-- `peeker` is whether the default peeker is set: the program knows no other.
pub record Transparent : Type 0 where
  pub resolver : Option Resolver
  pub peeker : Bool

-- `platform` is what `defaultResolver` returns: nil everywhere but on Linux.
unfoldable pub or_default : Option Resolver → Option Resolver → Option Resolver
or_default none platform = platform
or_default (some r) platform = some r

unfoldable pub init_resolver : Option Resolver → Transparent → Option Resolver × Transparent
init_resolver platform s = let r = or_default s.resolver platform in (r, record s { resolver = r })

abbrev with_peeker : Option Resolver × Transparent → Option Resolver × Transparent
with_peeker (none, s) = (none, s)
with_peeker (some r, s) = (some r, record s { peeker = true })

-- The resolver, `none` where transparent mode is unsupported.
unfoldable pub init_transparent : Option Resolver → Transparent → Option Resolver × Transparent
init_transparent platform s = with_peeker (init_resolver platform s)

-- 10 seconds, in nanoseconds.
abbrev pub peek_timeout : ℕ
peek_timeout = 10 * 10 ^ 9

unfoldable pub set_peek_deadline : Time → Conn → Bool × Conn
set_peek_deadline now conn =
    if conn.deadlines_work
    then (true, record conn { deadline = some (now + peek_timeout) })
    else (false, conn)

-- The first byte, if it comes, and the connection; the deadline is cleared once it has.
unfoldable pub after_peek : Conn → Option Text → Option ℕ × Conn
after_peek conn none = (none, conn)
after_peek conn (some []) = (none, conn)
after_peek conn (some (first ∷ more)) = (some first, record conn { deadline = none })

unfoldable pub peek_and_buffer : Time → Conn → Option ℕ × Conn
unfolding after_peek
peek_and_buffer now conn =
    let (fine, conn') = set_peek_deadline now conn in
    if fine then after_peek conn' (peek conn'.sent 1) else (none, conn')

-- What becomes of a request on the connection, `ok none` where none is served, and the connection.
unfoldable pub dispatched :
    Resolver → InnerRequest → Option ℕ × Conn → Result (Option InnerRequest) × Conn
dispatched resolver r (none, conn) = (ok none, conn)
dispatched resolver r (some first, conn) = (dispatch_transparent (resolver conn) conn.sent r, conn)

abbrev close : {A : Type 0} → A × Conn → A × Conn
close (a, conn) = (a, record conn { closed = true })

unfoldable pub handle_with :
    Time → InnerRequest → Conn → Option Resolver → Result (Option InnerRequest) × Conn
unfolding dispatched
handle_with now r conn none = (ok none, conn)
handle_with now r conn (some resolver) = dispatched resolver r (peek_and_buffer now conn)

unfoldable pub handle_transparent_conn :
    Option Resolver → Transparent → Time → InnerRequest → Conn → Result (Option InnerRequest) × Conn
unfolding handle_with
handle_transparent_conn platform s now r conn =
    close (handle_with now r conn (init_transparent platform s).0)

pub data AcceptError : Type 0 where
  timeout : AcceptError
  fatal : Text → AcceptError

-- What one call of Accept on the listener returns.
pub data Accepted : Type 0 where
  accepted : Conn → Accepted
  failed : AcceptError → Accepted

unfoldable pub accept_retryable : AcceptError → Bool
accept_retryable timeout = true
accept_retryable (fatal t) = false

unfoldable pub accept_continue : Accepted → Bool
accept_continue (accepted conn) = false
accept_continue (failed e) = accept_retryable e

-- On what the calls of Accept return one after another, `none` while the last one has not returned.
unfoldable pub accept_once : List Accepted → Option (Accepted × List Accepted)
accept_once [] = none
accept_once (a ∷ as') =
    let rest = accept_once as' in if accept_continue a then rest else some (a, as')

-- The connections that are handled, each in a goroutine, and the error that ends the loop; `none`
-- in its place while the loop waits. The whole is `none` when the fuel runs out.
abbrev pub Loop : Type 0
Loop = Option (List Conn × Option AcceptError)

unfoldable pub and_handled : Conn → List Conn × Option AcceptError → Loop
and_handled conn (conns, e) = some (conn ∷ conns, e)

unfoldable pub after_once : (List Accepted → Loop) → Option (Accepted × List Accepted) → Loop
after_once loop none = some ([], none)
after_once loop (some (failed e, rest)) = some ([], some e)
after_once loop (some (accepted conn, rest)) = do more ← loop rest; and_handled conn more

unfoldable pub accept_loop : ℕ → List Accepted → Loop
accept_loop zero as' = none
accept_loop (suc fuel) as' = after_once (λ rest. accept_loop fuel rest) (accept_once as')

pub data RunError : Type 0 where
  unsupported : RunError
  stopped : AcceptError → RunError

unfoldable pub stopped_by : List Conn × Option AcceptError → Option (List Conn × Option RunError)
stopped_by (conns, none) = some (conns, none)
stopped_by (conns, some e) = some (conns, some (stopped e))

unfoldable pub run_with : ℕ → Option Resolver → List Accepted → Option (List Conn × Option RunError)
run_with fuel none as' = some ([], some unsupported)
run_with fuel (some r) as' = do loop ← accept_loop fuel as'; stopped_by loop

unfoldable pub run_transparent :
    ℕ → Option Resolver → Transparent → List Accepted → Option (List Conn × Option RunError)
unfolding run_with
run_transparent fuel platform s as' = run_with fuel (init_transparent platform s).0 as'
