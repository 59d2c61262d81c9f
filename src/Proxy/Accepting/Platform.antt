-- ===== src/Proxy/Accepting/Platform.antt =====
-- internal/proxy/transparent_defaults_linux.go and transparent_defaults_other.go: the resolver that
-- transparent mode takes when none is set, and what it does with it.
use goper.Base.{ℕ, ◌<◌, List, [], ◌∷◌, ◌++◌, length, Option, none, some, ◌≡◌, refl, All, false}
use goper.Base.Text.{Text}
use goper.Proxy.Accepting.{
  Conn, Resolver, Transparent, Accepted, failed, fatal, or_default, init_resolver, init_transparent,
  unsupported, stopped, run_with, run_transparent,
}
use goper.Proxy.Accepting.Ending.{IsSteady, conns, run_transparent_lem}
use goper.Proxy.OriginalDst.{SocketCourse, get_original_dst}

pub data Platform : Type 0 where
  linux other : Platform

-- How the system calls on a connection go is a parameter.
unfoldable pub linux_resolver : (Conn → SocketCourse) → Resolver
linux_resolver course conn = get_original_dst (course conn)

unfoldable pub default_resolver : Platform → (Conn → SocketCourse) → Option Resolver
default_resolver linux course = some (linux_resolver course)
default_resolver other course = none

-- The server as NewServer makes it.
abbrev pub unset : Transparent
unset = record { resolver = none; peeker = false }

-- Transparent mode, with fuel for one round more than there are results of Accept. On another
-- platform than Linux it ends at once with an error. On Linux it handles every connection that Accept
-- returns, in order, whatever timeouts come in between. It waits for the next one until Accept returns
-- an error that is not a timeout, and ends with this error.
pub run_transparent_on :
    (course : Conn → SocketCourse) (fuel : ℕ) (as' after : List Accepted) (e : Text)
    → All IsSteady as'
    → length as' < fuel
    → (run_transparent fuel (default_resolver other course) unset as' ≡ some ([], some unsupported))
      × (run_transparent fuel (default_resolver linux course) unset as' ≡ some (conns as', none))
      × (run_transparent fuel
            (default_resolver linux course)
            unset
            (as' ++ failed (fatal e) ∷ after)
          ≡ some (conns as', some (stopped (fatal e))))
unfolding run_transparent run_with init_transparent init_resolver default_resolver or_default
run_transparent_on course fuel as' after e steady h =
    let (waits, stops) =
      run_transparent_lem fuel (some (linux_resolver course)) unset (linux_resolver course) as'
        after e refl steady h in
    (refl, waits, stops)
