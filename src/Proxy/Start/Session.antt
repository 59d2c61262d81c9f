-- ===== src/Proxy/Start/Session.antt =====
-- internal/proxy/proxy.go with internal/api/handlers.go: what the API lists of the exchanges that pass
-- through a server that NewServer returned.
use goper.Base.{
  ℕ, zero, suc, ◌+◌, ◌^◌, ◌<◌, Bool, List, [], length, Option, none, some, ◌≡◌, refl, sym, ap,
  subst, ◌∙◌, arith, All,
}
use goper.Base.Chain.{or_else}
use goper.Base.Int.{ℤ, pos, negsuc}
use goper.Base.Text.{Text}
use goper.Capture.Entry.{Time, Env}
use goper.Capture.Ids.{IsNotDash}
use goper.Capture.Ring.{new_ring_buffer, with_capacity}
use goper.Capture.Ring.Spec.{Holds, keep_last}
use goper.Capture.Ring.History.{new_ring_buffer-Holds}
use goper.Main.{Config}
use goper.Output.Writers.{Writer}
use goper.Proxy.X509.{Draws, Crypto}
use goper.Proxy.Authority.{Ca}
use goper.Proxy.CaStore.{CaDir, Course, load_or_create_ca}
use goper.Proxy.Handlers.{Server, set_regexes, configure_capture_regexes}
use goper.Proxy.Handlers.Issued.{IsRecorded}
use goper.Proxy.Session.{Exchange, session, recorded}
use goper.Proxy.Session.Kept.{session-IsRecorded}
use goper.Proxy.Start.{ProxyServer, fresh, wired, with_ca, new_server}
use goper.Api.Queries.{Values}
use goper.Api.Handlers.{json_entries, list_requests}
use goper.Api.Handlers.Replies.{asked, list_requests_lem}

-- How many entries a buffer of this configured size keeps.
abbrev pub kept_of : ℤ → ℕ
kept_of (pos zero) = 10_000
kept_of (pos (suc n)) = suc n
kept_of (negsuc n) = 10_000

pub new_ring_buffer-capacity : (env : Env) (n : ℤ) → (new_ring_buffer env n).capacity ≡ kept_of n
unfolding new_ring_buffer with_capacity
new_ring_buffer-capacity env (pos zero) = refl
new_ring_buffer-capacity env (pos (suc n)) = ground arith
new_ring_buffer-capacity env (negsuc n) = ground arith

set_regexes-store :
    (s s' : Server) (include exclude : Option (Option (Text → Bool)))
    → set_regexes s include exclude ≡ some s'
    → s'.store ≡ s.store
unfolding set_regexes
set_regexes-store s s' none exclude h = absurd (ground (arith, h))
set_regexes-store s s' (some i) none h = absurd (ground (arith, h))
set_regexes-store s s' (some i) (some e) h = ap (λ (t : Server). t.store) (ap (or_else s) (sym h))

configured-store :
    (compile : Text → Option (Text → Bool)) (env : Env) (cfg : Config) (s : Server)
    → configure_capture_regexes compile (fresh env cfg) cfg.capture_include cfg.capture_exclude
      ≡ some s
    → s.store ≡ new_ring_buffer env cfg.buffer_size
unfolding configure_capture_regexes fresh
configured-store compile env cfg s h = set_regexes-store (fresh env cfg) s _ _ h

wired-store :
    (env : Env) (cfg : Config) (ca : Ca) (p : ProxyServer) (o : Option Server)
    → ((s : Server) → o ≡ some s → s.store ≡ new_ring_buffer env cfg.buffer_size)
    → wired cfg ca o ≡ some p
    → p.handlers.store ≡ new_ring_buffer env cfg.buffer_size
unfolding wired
wired-store env cfg ca p none f h = absurd (ground (arith, h))
wired-store env cfg ca p (some s) f h =
    ap (λ (t : ProxyServer). t.handlers.store) (ap (or_else p) (sym h)) ∙ f s refl

with_ca-store :
    (crypto : Crypto) (compile : Text → Option (Text → Bool)) (env : Env) (cfg : Config)
    (ca : Option Ca) (p : ProxyServer)
    → with_ca crypto compile env cfg ca ≡ some p
    → p.handlers.store ≡ new_ring_buffer env cfg.buffer_size
unfolding with_ca
with_ca-store crypto compile env cfg none p h = absurd (ground (arith, h))
with_ca-store crypto compile env cfg (some ca) p h =
    wired-store env cfg ca p
      (configure_capture_regexes compile (fresh env cfg) cfg.capture_include cfg.capture_exclude)
      (configured-store compile env cfg) h

-- NewServer returned a server, whatever outputs it was given since. When exchanges have passed through
-- it, the API lists, of the newest recorded entries up to the configured size (10000 where it is not
-- positive), those that the query asks for. Recorded is, in the order of the responses, an entry for
-- each exchange whose URL passes the filters and whose response could be read.
pub session_listed :
    (crypto : Crypto) (compile : Text → Option (Text → Bool)) (env env' : Env) (cfg : Config)
    (disk : CaDir) (course : Course) (draws : Draws) (p : ProxyServer) (outputs : List Writer)
    (xs : List Exchange) (parse_time : Text → Option Time) (query : Values) (ca_pem : Option Text)
    → (new_server crypto compile env cfg disk course draws).0 ≡ some p
    → All (λ (x : Exchange). All IsNotDash x.stamp) xs
    → env'.counter + length xs < 2 ^ 63
    → let s = record p.handlers { outputs = outputs } in
      let page =
        asked parse_time query (keep_last (kept_of cfg.buffer_size) (recorded s env' xs)) in
      list_requests parse_time
        (record { store = (session s env' xs).0.store; ca_pem = ca_pem })
        query
      ≡ json_entries 200 (length page) page
unfolding new_server
session_listed crypto compile env env' cfg disk course draws p outputs xs parse_time query ca_pem h
      plain room =
    let s = record p.handlers { outputs = outputs } in
    let store =
      with_ca-store crypto compile env cfg (load_or_create_ca crypto disk course draws).0 p h in
    let start : IsRecorded s.store env' [] = record {
      holds = subst (λ rb. Holds rb []) (sym store) (new_ring_buffer-Holds env cfg.buffer_size);
      issued = tt;
    } in
    let size = ap (λ rb. rb.capacity) store ∙ new_ring_buffer-capacity env cfg.buffer_size in
    let after = session-IsRecorded s env' xs [] start plain room in
    let held =
      subst (λ n. Holds (session s env' xs).0.store (keep_last n (recorded s env' xs))) size
        after.holds in
    list_requests_lem parse_time (record { store = (session s env' xs).0.store; ca_pem = ca_pem })
      (keep_last (kept_of cfg.buffer_size) (recorded s env' xs)) query held
