-- ===== src/Api/Server.antt =====
-- internal/api/api.go: the server of the API.
use goper.Base.{Option, ◌⊎◌, inl, inr, ◌++◌}
use goper.Base.Int.{ℤ}
use goper.Base.Text.{Text, codes}
use goper.Capture.Entry.{decimal}
use goper.Capture.Ring.{RingBuffer}
use goper.Httpx.{Running, not_listening, serving, serve, seconds, listen}
use goper.Api.Handlers.{Handler}

-- The store of the handler is that of the proxy server: the two share it.
pub record ApiServer : Type 0 where
  pub handler : Handler
  pub port : ℤ

unfoldable pub new_server : ℤ → RingBuffer → Option Text → ApiServer
new_server port store ca_pem = record {
  handler = record { store = store; ca_pem = ca_pem };
  port = port;
}

module _ {L : Type 0} where
  unfoldable pub run_with_listener : ApiServer → L → Running Handler L
  run_with_listener s l = serving (serve s.handler l (seconds 15))

  abbrev run_on : ApiServer → L ⊎ Text → Running Handler L
  run_on s (inl l) = run_with_listener s l
  run_on s (inr e) = not_listening e

  unfoldable pub run : (Text → L ⊎ Text) → ApiServer → Running Handler L
  unfolding run_with_listener
  run net_listen s = run_on s (listen net_listen s.port)

abbrev pub ca_url : ℤ → Text
ca_url port = codes "http://localhost:" ++ (decimal port ++ codes "/api/ca.pem")
