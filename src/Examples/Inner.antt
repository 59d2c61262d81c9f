-- ===== src/Examples/Inner.antt =====
-- internal/proxy/transparent_loop.go: a connection that is accepted, served and closed.
use goper.Base.{[], ◌∷◌, ◌≡◌, ◌≢◌, ◌≤◌, ◌⊎◌, none, some, true, false, refl, arith, ◌++◌}
use goper.Base.Text.{codes}
use goper.Proxy.Inner.{
  Phase, Inner, serve_inner, accept_locked, after_accept, serve_phase, serve_next, close_signal,
  mark_once, close_listener, close_inner, notified, notify_close, closes, notifies, serves, leaves,
  Reach, start, later,
}
use goper.Proxy.Inner.Sound.{Reach-serves_once}
use goper.Proxy.Inner.Ending.{Runs, here, serve, Runs-ends}
use goper.Proxy.Accepting.{
  Conn, Resolver, unsupported, accepted, failed, timeout, fatal, run_transparent, stopped,
}
use goper.Proxy.Accepting.Ending.{sending}
use goper.Proxy.Accepting.Platform.{linux, other, unset, default_resolver, run_transparent_on}
use goper.Proxy.OriginalDst.{SocketCourse, not_tcp}

abbrev in_use : Inner
in_use = record {
  listener = record { served = true; closed = false; once = false };
  phase = Phase.accepting;
  handed = 1;
  conn_closed = false;
  closing = 0;
  conn_once = false;
}

in_use-Reach : Reach in_use
unfolding serve_next serve_phase after_accept accept_locked serve_inner
in_use-Reach = later start (serves refl)

-- The handler has closed the connection, while Serve has not called Accept again.
abbrev finished : Inner
finished = record {
  listener = record { served = true; closed = true; once = true };
  phase = Phase.accepting;
  handed = 1;
  conn_closed = true;
  closing = 0;
  conn_once = true;
}

finished-Reach : Reach finished
unfolding close_inner notify_close notified close_listener mark_once close_signal
finished-Reach =
    later (later in_use-Reach (leaves (closes (omega arith)))) (leaves (notifies 0 refl refl))

abbrev after_serve : Inner
after_serve = record finished { phase = Phase.ended }

finished-Runs : Runs finished 2 after_serve
unfolding serve_next serve_phase after_accept accept_locked
finished-Runs = serve (serve here refl) refl

Reach-serves_once_example :
    (finished.handed ≤ 1)
    × (notify_close finished ≢ none)
    × (Phase.accepting ≡ Phase.ended → true ≡ true)
Reach-serves_once_example = Reach-serves_once finished-Reach

Runs-ends_example :
    (2 ≤ 3)
    × ((after_serve.phase ≡ Phase.ended) ⊎ ((u : Inner) × (serve_next after_serve ≡ some u)))
Runs-ends_example = Runs-ends finished-Reach refl finished-Runs

abbrev nowhere : Resolver
nowhere conn = none

-- A connection that is no TCP connection.
abbrev no_tcp : Conn → SocketCourse
no_tcp conn = not_tcp

run_transparent_on_example :
    let as' = failed timeout ∷ accepted (sending [] none) ∷ [] in
    (run_transparent 3 (default_resolver other no_tcp) unset as' ≡ some ([], some unsupported))
    × (run_transparent 3 (default_resolver linux no_tcp) unset as'
        ≡ some (sending [] none ∷ [], none))
    × (run_transparent 3
          (default_resolver linux no_tcp)
          unset
          (as' ++ failed (fatal (codes "closed")) ∷ [])
        ≡ some (sending [] none ∷ [], some (stopped (fatal (codes "closed")))))
run_transparent_on_example =
    run_transparent_on no_tcp 3 (failed timeout ∷ accepted (sending [] none) ∷ []) []
      (codes "closed") (refl, (refl, tt)) (omega arith)
