-- ===== src/Examples/Session.antt =====
-- internal/proxy/proxy.go with internal/api/handlers.go: two exchanges, one of which is filtered.
use goper.Base.{Bool, false, List, [], ◌∷◌, Option, none, some, ◌≡◌, refl, arith, length}
use goper.Base.Int.{pos}
use goper.Base.Text.{Text, codes, text_eq}
use goper.Capture.Entry.{Time}
use goper.Capture.Ring.Spec.{keep_last}
use goper.Output.Writers.{ndjson_body_writer}
use goper.Proxy.Handlers.{set_regexes, compile_capture_regex, configure_capture_regexes}
use goper.Proxy.CaStore.{
  write_file, write_key, write_ca_files, encode_ca_key_pem, encode_ca_files, write_encoded,
  persist_ca, create_and_persist_ca, load_or_create_at, load_or_create_ca,
}
use goper.Proxy.CaStore.Persistence.{no_ca, smooth}
use goper.Proxy.Certificates.{new_cert_cache}
use goper.Proxy.Authority.{ca_provider}
use goper.Proxy.Session.{Exchange, session, recorded}
use goper.Proxy.Start.{ProxyServer, fresh, wired, with_ca, new_server}
use goper.Proxy.Start.Session.{session_listed, kept_of}
use goper.Main.{Config, default_config, setup_outputs}
use goper.Main.Outputs.{session_on_disk}
use goper.Main.Outputs.Bodies.{session_bodies}
use goper.Output.Bodies.{Stored}
use goper.Output.Writers.{indent_json}
use goper.Capture.Entry.{CapturedEntry}
use goper.Base.{All}
use goper.Output.Calls.{run_calls}
use goper.Output.Files.{lines_of, domain_lines}
use goper.Proxy.Session.Captured.{captured}
use goper.Examples.Output.{
  in_memory_files, reading, in_memory_files-IsWorking, unchanged, empty_files,
}
use goper.Api.Handlers.{json_entries, list_requests}
use goper.Api.Handlers.Replies.{asked}
use goper.Examples.Authority.{toy, morning, our_ca, generated}
use goper.Examples.Handlers.{noon, request_for, answer}

abbrev literal : Text → Option (Text → Bool)
literal pattern = some (text_eq pattern)

abbrev filtering : Config
filtering = record default_config { buffer_size = pos 1; capture_include = codes "http://a/" }

abbrev visit : Text → Exchange
visit url = record {
  request = request_for url;
  asked_at = 5;
  response = some answer;
  answered_at = 6;
  stamp = codes "20260101120000";
}

abbrev ready : ProxyServer
ready = record {
  handlers = record (fresh noon filtering) { include_re = some (text_eq (codes "http://a/")) };
  cache = new_cert_cache (ca_provider our_ca);
  ca = our_ca;
  config = filtering;
  goproxy_verbose = false;
  goproxy_ca = our_ca.tls;
}

is_ready : (new_server toy literal noon filtering no_ca smooth morning).0 ≡ some ready
unfolding new_server with_ca wired configure_capture_regexes set_regexes compile_capture_regex
    load_or_create_ca load_or_create_at create_and_persist_ca persist_ca write_encoded
    encode_ca_files encode_ca_key_pem write_ca_files write_key write_file text_eq ca_provider
    default_config fresh
is_ready = rw generated refl

abbrev visits : List Exchange
visits = visit (codes "http://a/") ∷ visit (codes "http://b/") ∷ []

abbrev no_time : Text → Option Time
no_time t = none

session_listed_example :
    let s = record ready.handlers { outputs = ndjson_body_writer (codes "a") ∷ [] } in
    let page =
      asked no_time [] (keep_last (kept_of filtering.buffer_size) (recorded s noon visits)) in
    list_requests no_time (record { store = (session s noon visits).0.store; ca_pem = none }) []
    ≡ json_entries 200 (length page) page
session_listed_example =
    session_listed toy literal noon noon filtering no_ca smooth morning ready
      (ndjson_body_writer (codes "a") ∷ []) visits no_time [] none is_ready (omega arith)
      (omega arith)

abbrev to_disk : Config
to_disk = record filtering { output_format = codes "ndjson" }

abbrev writing : ProxyServer
writing = record ready { config = to_disk }

is_writing : (new_server toy literal noon to_disk no_ca smooth morning).0 ≡ some writing
unfolding new_server with_ca wired configure_capture_regexes set_regexes compile_capture_regex
    load_or_create_ca load_or_create_at create_and_persist_ca persist_ca write_encoded
    encode_ca_files encode_ca_key_pem write_ca_files write_key write_file text_eq ca_provider
    default_config fresh
is_writing = rw generated refl

session_on_disk_example :
    let s = setup_outputs writing.handlers to_disk in
    reading
      (run_calls in_memory_files unchanged some some empty_files (session s noon visits).0.written)
      (lines_of (codes "captures") (codes "a"))
    ≡ domain_lines unchanged some (codes "a") (captured s noon visits)
unfolding default_config
session_on_disk_example =
    session_on_disk toy literal in_memory_files reading in_memory_files-IsWorking unchanged some
      some noon noon to_disk no_ca smooth morning writing visits empty_files (codes "a") is_writing
      refl (λ e. ground (arith, e)) refl

session_bodies_example :
    let s = setup_outputs ready.handlers filtering in
    let after =
      run_calls in_memory_files unchanged some some empty_files (session s noon visits).0.written in
    All
      (λ (e : CapturedEntry).
        Stored in_memory_files reading in_memory_files-IsWorking unchanged some some
          (codes "captures")
          after
          e
          (indent_json some e))
      (captured s noon visits)
unfolding default_config
session_bodies_example =
    session_bodies toy literal in_memory_files reading in_memory_files-IsWorking unchanged some some
      noon noon filtering no_ca smooth morning ready visits empty_files is_ready refl
      (λ e. ground (arith, e)) refl (omega arith) (omega arith)
