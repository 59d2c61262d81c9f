-- ===== src/Httpx.antt =====
-- internal/httpx/httpx.go: the HTTP servers of the API and of the proxy. `net.Listen` is the
-- parameter `net_listen`, an error as its text; durations are in nanoseconds. What `srv.Serve` does
-- with the requests is in Proxy.Session and Api.Routes.
use goper.Base.{ℕ, ◌*◌, ◌^◌, ◌∷◌, ◌++◌, ◌⊎◌, inl, inr}
use goper.Base.Int.{ℤ, pos}
use goper.Base.Text.{Text, codes}
use goper.Capture.Entry.{decimal}

-- The fields of an `http.Server` that are set, and the listener that it serves.
pub record HttpServer (H L : Type 0) : Type 0 where
  pub handler : H
  pub read_header_timeout : ℤ
  pub read_timeout : ℤ
  pub idle_timeout : ℤ
  pub listener : L

abbrev pub seconds : ℕ → ℤ
seconds n = pos (n * 10 ^ 9)

abbrev pub serve : {H L : Type 0} → H → L → ℤ → HttpServer H L
serve handler l read_timeout = record {
  handler = handler;
  read_header_timeout = seconds 10;
  read_timeout = read_timeout;
  idle_timeout = seconds 120;
  listener = l;
}

abbrev pub listen_addr : ℤ → Text
listen_addr port = b':' ∷ decimal port

abbrev listen_error : {L : Type 0} → Text → L ⊎ Text → L ⊎ Text
listen_error addr (inl l) = inl l
listen_error addr (inr e) = inr (codes "listen " ++ (addr ++ (codes ": " ++ e)))

abbrev pub listen : {L : Type 0} → (Text → L ⊎ Text) → ℤ → L ⊎ Text
listen net_listen port = listen_error (listen_addr port) (net_listen (listen_addr port))

-- What a `Run` of a server comes to: the error of listening, an HTTP server, or the accept loop of
-- transparent mode.
pub data Running (H L : Type 0) : Type 0 where
  not_listening : Text → Running H L
  serving : HttpServer H L → Running H L
  accepting : L → Running H L
