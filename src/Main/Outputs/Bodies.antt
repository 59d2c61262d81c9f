-- ===== src/Main/Outputs/Bodies.antt =====
-- cmd/goper/main.go, setupOutputs: what a session leaves in the files of the JSON writer.
use goper.Base.{
  ℕ, ◌+◌, ◌^◌, ◌<◌, Bool, false, List, [], ◌∷◌, length, Option, some, ◌≡◌, ◌≢◌, refl, sym, ap,
  subst, ◌∙◌, arith, All,
}
use goper.Base.Text.{Text, codes, text_eq, text_eq_iff}
use goper.Capture.Entry.{Env, CapturedEntry}
use goper.Capture.Ids.{IsNotDash}
use goper.Main.{Config, setup_outputs}
use goper.Main.Outputs.{outputs_of, session-calls}
use goper.Output.Writers.{FileSystem, FilePath, json_body_writer, indent_json}
use goper.Output.Files.{IsWorking}
use goper.Output.Calls.{run_calls}
use goper.Output.Bodies.{Stored, json_each-Stored, run_calls-json}
use goper.Proxy.X509.{Draws, Crypto}
use goper.Proxy.CaStore.{CaDir, Course}
use goper.Proxy.Session.{Exchange, session}
use goper.Proxy.Session.Captured.{captured}
use goper.Proxy.Session.Numbered.{captured-Apart}
use goper.Proxy.Start.{ProxyServer, new_server}

outputs_of-json :
    (cfg : Config)
    → cfg.no_capture ≡ false
    → cfg.output_dir ≢ []
    → cfg.output_format ≡ codes "json"
    → outputs_of cfg ≡ json_body_writer cfg.output_dir ∷ []
outputs_of-json cfg on dir format =
    let there : text_eq cfg.output_dir [] ≡ false =
      ground (arith, dir, text_eq_iff cfg.output_dir []) in
    let other : text_eq cfg.output_format (codes "ndjson") ≡ false =
      ap (λ f. text_eq f (codes "ndjson")) format ∙ json_no_ndjson in
    rw (on, there, other) refl
  where
    json_no_ndjson : text_eq (codes "json") (codes "ndjson") ≡ false
    json_no_ndjson = unfold text_eq in refl

module _ (crypto : Crypto) (compile : Text → Option (Text → Bool)) {S : Type 0} (fs : FileSystem S)
    (content : S → FilePath → Text) (works : IsWorking fs content) (unicode_lower : ℕ → ℕ)
    (indent compact : Text → Option Text) where
  -- NewServer returned a server, and the settings ask for JSON below a directory. On a file system that
  -- works, when exchanges have passed through the server, every entry whose body is JSON, out of one for
  -- each exchange whose URL passes the filters and whose response could be read and does not stream, has
  -- its own file below the directory of its domain, which holds that body, indented.
  pub session_bodies :
      (env env' : Env) (cfg : Config) (disk : CaDir) (course : Course) (draws : Draws)
      (p : ProxyServer) (xs : List Exchange) (files : S)
      → (new_server crypto compile env cfg disk course draws).0 ≡ some p
      → cfg.no_capture ≡ false
      → cfg.output_dir ≢ []
      → cfg.output_format ≡ codes "json"
      → All (λ (x : Exchange). All IsNotDash x.stamp) xs
      → env'.counter + length xs < 2 ^ 63
      → let s = setup_outputs p.handlers cfg in
        let after = run_calls fs unicode_lower indent compact files (session s env' xs).0.written in
        All
          (λ (e : CapturedEntry).
            Stored fs content works unicode_lower indent compact cfg.output_dir after e
              (indent_json indent e))
          (captured s env' xs)
  session_bodies env env' cfg disk course draws p xs files h on dir format plain room =
      let s = setup_outputs p.handlers cfg in
      let es = captured s env' xs in
      let run = run_calls fs unicode_lower indent compact files in
      let all_calls =
        ap run (
          session-calls crypto compile env env' cfg disk course draws p xs
            (json_body_writer cfg.output_dir) h (outputs_of-json cfg on dir format))
        ∙ run_calls-json fs content works unicode_lower indent compact cfg.output_dir files es in
      subst
        (λ after.
          All
            (λ (e : CapturedEntry).
              Stored fs content works unicode_lower indent compact cfg.output_dir after e
                (indent_json indent e))
            es)
        (sym all_calls)
        (json_each-Stored fs content works unicode_lower indent compact cfg.output_dir files es
          (captured-Apart s env' xs plain room))
