-- ===== src/Proxy/Inner.antt =====
-- internal/proxy/transparent_loop.go, serveInner: one connection served through a listener of its own.
-- The goroutine of http.Server.Serve accepts until Accept fails; goroutines that have the connection
-- close it. Each step is a part that runs under a lock or a `sync.Once`, or one channel operation.
pub mod Sound
pub mod Ending
use goper.Base.{ℕ, zero, suc, ◌+◌, ◌<◌, ◌≡◌, Bool, true, false, Option, none, some, if◌then◌else◌}

-- A `singleConnListener`: `closed` is whether its channel is closed.
pub record Listener : Type 0 where
  pub served : Bool
  pub closed : Bool
  pub once : Bool

-- Where the goroutine of Serve is: at a call of Accept, blocked on the channel in it, or at the end,
-- after Accept has returned net.ErrClosed.
pub data Phase : Type 0 where
  accepting waiting ended : Phase

-- `handed` counts the connections that Accept has returned, `closing` the goroutines in Close between
-- the closing of the inner connection and `onClose`.
pub record Inner : Type 0 where
  pub listener : Listener
  pub phase : Phase
  pub handed : ℕ
  pub conn_closed : Bool
  pub closing : ℕ
  pub conn_once : Bool

unfoldable pub serve_inner : Inner
serve_inner = record {
  listener = record { served = false; closed = false; once = false };
  phase = Phase.accepting;
  handed = 0;
  conn_closed = false;
  closing = 0;
  conn_once = false;
}

-- The part of Accept under the lock: whether it returns the connection.
unfoldable pub accept_locked : Listener → Bool × Listener
accept_locked l = if l.served then (false, l) else (true, record l { served = true })

-- Closing a channel again panics, `none`.
unfoldable pub close_signal : Listener → Option Listener
close_signal l = if l.closed then none else some (record l { closed = true })

unfoldable pub mark_once : Option Listener → Option Listener
mark_once none = none
mark_once (some l) = some (record l { once = true })

unfoldable pub close_listener : Listener → Option Listener
close_listener l = if l.once then some l else mark_once (close_signal l)

-- The next step of Serve, `none` while it is blocked and after its end.
unfoldable pub after_accept : Inner → Bool × Listener → Inner
after_accept s (true, l) = record s { listener = l; handed = s.handed + 1 }
after_accept s (false, l) = record s { listener = l; phase = Phase.waiting }

unfoldable pub serve_phase : Inner → Phase → Option Inner
serve_phase s Phase.accepting = some (after_accept s (accept_locked s.listener))
serve_phase s Phase.waiting =
    if s.listener.closed then some (record s { phase = Phase.ended }) else none
serve_phase s Phase.ended = none

unfoldable pub serve_next : Inner → Option Inner
serve_next s = serve_phase s s.phase

-- The first half of Close on the connection, and the second, `once.Do(onClose)`.
unfoldable pub close_inner : Inner → Inner
close_inner s = record s { conn_closed = true; closing = s.closing + 1 }

unfoldable pub notified : Inner → Option Listener → Option Inner
notified s none = none
notified s (some l) = some (record s { listener = l; conn_once = true })

unfoldable pub notify_close : Inner → Option Inner
notify_close s = if s.conn_once then some s else notified s (close_listener s.listener)

-- A step of a goroutine that closes the connection, which Accept has returned.
pub data Close (s : Inner) : Inner → Type 0 where
  closes : 0 < s.handed → Close s (close_inner s)
  notifies :
      {t : Inner} (n : ℕ)
      → s.closing ≡ n + 1
      → notify_close s ≡ some t
      → Close s (record t { closing = n })

pub data Step (s : Inner) : Inner → Type 0 where
  serves : {t : Inner} → serve_next s ≡ some t → Step s t
  leaves : {t : Inner} → Close s t → Step s t

pub data Reach : Inner → Type 0 where
  start : Reach serve_inner
  later : {s t : Inner} → Reach s → Step s t → Reach t
