-- ===== src/Main/Outputs.antt =====
-- cmd/goper/main.go, setupOutputs: the outputs of the server, and what a session leaves in their files.
pub mod Bodies
use goper.Base.{
  ℕ, Bool, false, ◌||◌, List, [], ◌∷◌, ◌++◌, Option, none, some, ◌≡◌, ◌≢◌, refl, sym, ap, ◌∙◌,
  if◌then◌else◌, Bool-cases, inl, inr, arith,
}
use mathlib.Core.List.{append-nil}
use goper.Base.Chain.{or_else}
use goper.Base.Text.{Text, codes, text_eq, text_eq_iff}
use goper.Capture.Entry.{Env}
use goper.Main.{Config, setup_outputs, wire_outputs}
use goper.Output.Writers.{FileSystem, FilePath, Writer, json_body_writer, ndjson_body_writer}
use goper.Output.Files.{IsWorking, lines_of, domain_lines, write_each_lem}
use goper.Output.Calls.{calls, run_calls, run_calls-ndjson}
use goper.Proxy.X509.{Draws, Crypto}
use goper.Proxy.Authority.{Ca}
use goper.Proxy.CaStore.{CaDir, Course, load_or_create_ca}
use goper.Proxy.Handlers.{Server, add_output, set_regexes, configure_capture_regexes}
use goper.Proxy.Session.{Exchange, session}
use goper.Proxy.Session.Captured.{captured, session-IsWritten}
use goper.Proxy.Start.{ProxyServer, fresh, wired, with_ca, new_server}

-- The writers that settings ask for: none with --no-capture or an empty directory, else one.
abbrev pub outputs_of : Config → List Writer
outputs_of cfg =
    if cfg.no_capture || text_eq cfg.output_dir []
    then []
    else if text_eq cfg.output_format (codes "ndjson")
    then ndjson_body_writer cfg.output_dir ∷ []
    else json_body_writer cfg.output_dir ∷ []

pub setup_outputs-outputs :
    (s : Server) (cfg : Config)
    → let s' = setup_outputs s cfg in
      (s'.outputs ≡ s.outputs ++ outputs_of cfg) × (s'.written ≡ s.written)
unfolding setup_outputs wire_outputs add_output
setup_outputs-outputs s cfg = elim (Bool-cases cfg.no_capture) [
  | inl off ↦ rw off (sym (append-nil s.outputs), refl)
  | inr on ↦ elim (Bool-cases (text_eq cfg.output_dir [])) [
    | inl nowhere ↦ rw (on, nowhere) (sym (append-nil s.outputs), refl)
    | inr dir ↦ elim (Bool-cases (text_eq cfg.output_format (codes "ndjson"))) [
      | inl ndjson ↦ rw (on, dir, ndjson) (refl, refl)
      | inr json ↦ rw (on, dir, json) (refl, refl)
    ]
  ]
]

set_regexes-outputs :
    (s s' : Server) (include exclude : Option (Option (Text → Bool)))
    → set_regexes s include exclude ≡ some s'
    → (s'.outputs ≡ s.outputs) × (s'.written ≡ s.written)
unfolding set_regexes
set_regexes-outputs s s' none exclude h = absurd (ground (arith, h))
set_regexes-outputs s s' (some include) none h = absurd (ground (arith, h))
set_regexes-outputs s s' (some include) (some exclude) h =
    let e = sym h in (ap (λ o. (or_else s o).outputs) e, ap (λ o. (or_else s o).written) e)

wired-outputs :
    (cfg : Config) (ca : Ca) (o : Option Server) (p : ProxyServer)
    → wired cfg ca o ≡ some p
    → o ≡ some p.handlers
unfolding wired
wired-outputs cfg ca none p h = ground (arith, h)
wired-outputs cfg ca (some s) p h = ap (λ o. some (or_else p o).handlers) h

-- A new server has no outputs and has written nothing.
pub with_ca-outputs :
    (crypto : Crypto) (compile : Text → Option (Text → Bool)) (env : Env) (cfg : Config)
    (o : Option Ca) (p : ProxyServer)
    → with_ca crypto compile env cfg o ≡ some p
    → (p.handlers.outputs ≡ []) × (p.handlers.written ≡ [])
unfolding with_ca configure_capture_regexes fresh
with_ca-outputs crypto compile env cfg none p h = absurd (ground (arith, h))
with_ca-outputs crypto compile env cfg (some ca) p h =
    set_regexes-outputs (fresh env cfg) p.handlers _ _ (wired-outputs cfg ca _ p h)

outputs_of-ndjson :
    (cfg : Config)
    → cfg.no_capture ≡ false
    → cfg.output_dir ≢ []
    → cfg.output_format ≡ codes "ndjson"
    → outputs_of cfg ≡ ndjson_body_writer cfg.output_dir ∷ []
outputs_of-ndjson cfg on dir format =
    let there : text_eq cfg.output_dir [] ≡ false =
      ground (arith, dir, text_eq_iff cfg.output_dir []) in
    let ndjson = (text_eq_iff cfg.output_format (codes "ndjson")).1 format in
    rw (on, there, ndjson) refl

-- With one output, the calls of WriteEntry are those on it for the captured entries, in order.
pub session-calls :
    (crypto : Crypto) (compile : Text → Option (Text → Bool)) (env env' : Env) (cfg : Config)
    (disk : CaDir) (course : Course) (draws : Draws) (p : ProxyServer) (xs : List Exchange)
    (w : Writer)
    → (new_server crypto compile env cfg disk course draws).0 ≡ some p
    → outputs_of cfg ≡ w ∷ []
    → let s = setup_outputs p.handlers cfg in
      (session s env' xs).0.written ≡ calls (w ∷ []) (captured s env' xs)
unfolding new_server
session-calls crypto compile env env' cfg disk course draws p xs w h one =
    let s = setup_outputs p.handlers cfg in
    let (no_outputs, unwritten) =
      with_ca-outputs crypto compile env cfg (load_or_create_ca crypto disk course draws).0 p h in
    let (outputs, written) = setup_outputs-outputs p.handlers cfg in
    session-IsWritten s env' xs
    ∙ ap (λ l. l ++ calls s.outputs (captured s env' xs)) (written ∙ unwritten)
    ∙ ap (λ ws. calls ws (captured s env' xs))
        (outputs ∙ ap (λ l. l ++ outputs_of cfg) no_outputs ∙ one)

module _ (crypto : Crypto) (compile : Text → Option (Text → Bool)) {S : Type 0} (fs : FileSystem S)
    (content : S → FilePath → Text) (works : IsWorking fs content) (unicode_lower : ℕ → ℕ)
    (indent compact : Text → Option Text) where
  -- NewServer returned a server, and the settings ask for NDJSON below a directory. On a file system
  -- that works, when exchanges have passed through the server, the file of a domain holds what it held
  -- and behind it, in the order of the responses, the compact JSON lines of exactly those entries whose
  -- host has this domain and whose body is JSON, out of one for each exchange whose URL passes the
  -- filters and whose response could be read and does not stream.
  pub session_on_disk :
      (env env' : Env) (cfg : Config) (disk : CaDir) (course : Course) (draws : Draws)
      (p : ProxyServer) (xs : List Exchange) (files : S) (domain : Text)
      → (new_server crypto compile env cfg disk course draws).0 ≡ some p
      → cfg.no_capture ≡ false
      → cfg.output_dir ≢ []
      → cfg.output_format ≡ codes "ndjson"
      → let s = setup_outputs p.handlers cfg in
        let done = (session s env' xs).0 in
        content
          (run_calls fs unicode_lower indent compact files done.written)
          (lines_of cfg.output_dir domain)
        ≡ content files (lines_of cfg.output_dir domain)
          ++ domain_lines unicode_lower compact domain (captured s env' xs)
  session_on_disk env env' cfg disk course draws p xs files domain h on dir format =
      let s = setup_outputs p.handlers cfg in
      ap
        (λ cs.
          content (run_calls fs unicode_lower indent compact files cs)
            (lines_of cfg.output_dir domain))
        (session-calls crypto compile env env' cfg disk course draws p xs
          (ndjson_body_writer cfg.output_dir) h (outputs_of-ndjson cfg on dir format))
      ∙ ap (λ t. content t (lines_of cfg.output_dir domain))
          (run_calls-ndjson fs unicode_lower indent compact content works cfg.output_dir files
            (captured s env' xs))
      ∙ write_each_lem fs content works unicode_lower compact cfg.output_dir files domain
          (captured s env' xs)
