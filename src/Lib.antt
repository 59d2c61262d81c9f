-- ===== src/Lib.antt =====
-- goper is an HTTP(S) proxy that records what passes through it. A request that reaches the proxy
-- server is filtered by its URL, recorded and sent on; its response is read up to a limit,
-- recorded and sent on. The recorded entries go to a ring buffer in memory, from which an API
-- lists and streams them, and to output writers on disk. This library models that program over
-- lists of bytes (Text), the numbers of Go's int and int64 with their wrap-around where the code
-- can reach it, and explicit state.
--
-- Which file models what, with the paths of the code from the repository's root:
--   Capture.Entry, Capture.Ids        internal/capture/entry.go. Env is the clock and the counter
--     behind NewEntryID; an operation that reads them takes an Env and returns the next one.
--   Capture.Ring and its modules      internal/capture/store.go, RingBuffer: new_ring_buffer,
--     push_locked (Push up to the release of the lock, made of finalize_entry, make_room with
--     evict_oldest, and write_tail), get, list (scan_from, keep_slot, paginate), clear, len,
--     stats. A buffer stands for the list of its entries, Ring.Spec.Holds.
--   Capture.Filter                    internal/capture/store.go, ListOpts, Matches, paginate.
--   Capture.Subscribers and below     internal/capture/store.go, Subscribe, Unsubscribe and
--     notifySubscribers: channels on a heap, and a step for each part of an operation that runs
--     under the lock or is one send, so that any interleaving of goroutines is a list of events.
--     A send on a closed channel, and closing one again, is none.
--   Capture.Streams                   what the code uses of io: a Reader is the bytes that are
--     left and how it ends, with EOF or with an error.
--   Capture.Media, Capture.Recorder   internal/capture/capture.go: content types, printable
--     bodies, header redaction, CaptureRequest, CaptureResponse, CombineEntry, DefaultRecorder.
--   Proxy.Body and below              internal/proxy/proxy_body.go (readBodyBounded and what it
--     calls) and fixContentLength of internal/proxy/proxy.go.
--   Proxy.X509                        what these use of crypto/x509, crypto/tls, crypto/rand and
--     net: certificates by their fields, and the operations as the record Crypto.
--   Proxy.Authority and below         internal/proxy/mitm.go: GenerateCA and the CA's template. What
--     is relied on of crypto/x509 is Authority.Valid.IsX509.
--   Proxy.HostCertificate             internal/proxy/mitm_cert_cache.go, generateCert.
--   Proxy.Certificates and below      internal/proxy/mitm_cert_cache.go, GetCertificate: a step for
--     the part under the read lock and a step for the part under the write lock.
--   Proxy.CaStore and below           internal/proxy/mitm_ca_store.go, over the course that each
--     write to the disk takes.
--   Proxy.Accepting and below         internal/proxy/transparent_loop.go: the accept loop, and a
--     connection up to its first byte.
--   Proxy.Transparent and below       internal/proxy/transparent_shared.go (the peek) and
--     transparent_loop.go (from the first byte to the URL that is routed).
--   Proxy.OriginalDst                 internal/proxy/transparent.go, GetOriginalDst.
--   Proxy.Inner and below             internal/proxy/transparent_loop.go, serveInner: the listener of
--     one connection, with a step relation for the goroutine of Serve and those that close it.
--   Proxy.Handlers and below          internal/proxy/proxy.go and proxy_body.go: the filters, the
--     handlers and what they record, over Capture.Recorder, Capture.Ring and Proxy.Body.
--   Proxy.Session and below           internal/proxy/proxy.go: exchanges that pass through the handlers
--     one after another.
--   Proxy.Concurrent and below        the same recording by several goroutines at once: a step for
--     combining an entry, one for pushing it, and the clear of the API in between.
--   Proxy.Start and below             internal/proxy/proxy.go, NewServer, from its settings on.
--   Proxy.Sni and below               internal/proxy/transparent_shared.go, parseClientHello; the
--     layout of the message in RFC 8446 and RFC 6066 is Sni.Encoding.
--   Api and below                     internal/api/handlers.go, handlers_sse.go and
--     handlers_replay.go: the query strings (Api.Queries), the replies over the store
--     (Api.Handlers), the stream to one client (Api.Stream) and the replay (Api.Replay). Api.Routes
--     is internal/api/api.go and ui.go: the routes of NewServer and its middleware, over the state
--     of the handlers and the channels that streams subscribe with.
--   Iptables and below                internal/iptables/iptables.go: Setup and Teardown over a
--     runner, which Iptables.Table describes as a table of rules.
--   Main and below                    cmd/goper/main.go and internal/config/config.go: the
--     settings and what they set up (Main), the flags of the command line (Main.Flags, with the
--     numbers that they read in Main.Numbers), the log (Main.Logging), and the program from its
--     command line to its exit code (Main.Program).
--   Httpx                             internal/httpx/httpx.go; what the two servers run on their ports
--     is in Proxy.Start.Running and Api.Server.
--   Output and below                  internal/output/file_writer.go and output.go: the directory of a
--     host (Output), the writers over a file system (Output.Writers), and their calls in a row
--     (Output.Calls). What a session leaves in the files is in Main.Outputs.
--   Base and below                    numbers, lists, text, UTF-8 and maps for all of these.
--   Examples and below                concrete runs.
--
-- Bounds and fuel. The loops of parseClientHello run on fuel, the length of the data and one more
-- round: each round goes at least three bytes on. The accept loop runs on fuel, one round for
-- each result of Accept and one more. strconv.Itoa is written on fuel 20, the digits of the
-- largest int64. A slice is taken to be shorter than 2 ^ 60 elements, so that indices into it
-- never wrap. Evictions and bytes captured are int64 and kept modulo 2 ^ 64; limits of bodies are
-- int64, and limit + 1 wraps as it does in Go.
--
-- Simplifications that hold for the code: a mutex is modelled by atomic steps; an entry is a value
-- because no one writes to it after Push; a header is listed in the order of one iteration; a
-- handler reads the clock as one instant; the error of an output writer, which the proxy only
-- logs, is left out. The API and the proxy server share the store, so that a request of the API sees
-- the store as the exchanges before it have left it.
--
-- Parameters. A compiled regular expression is the test that it makes. time.Parse, the functions
-- of encoding/json, the case tables of unicode beyond ASCII, http.NewRequest, the client that
-- replays requests, the router chi, the operations of crypto/x509 and the program iptables are
-- parameters; what the theorems need of iptables is stated in Iptables.Table, of files in
-- Output.Files, of certificates in Proxy.Authority.Valid and Proxy.CaStore.Persistence, and of
-- chi in Api.Routes.Clearing.
--
-- Not modelled: what goproxy, net/http, crypto/tls and crypto/x509 do with what the code hands to them,
-- the JavaScript of the dashboard's page, and log lines other than those of the API's requests and the
-- URL that is announced.
pub mod Api
pub mod Base
pub mod Capture
pub mod Httpx
pub mod Iptables
pub mod Main
pub mod Output
pub mod Proxy
mod Examples
