-- ===== src/Proxy/Start/Running.antt =====
-- internal/proxy/proxy.go: what the proxy server runs on its port. The accept loop is
-- `run_transparent` of Proxy.Accepting.
use goper.Base.{◌⊎◌, inl, inr, if◌then◌else◌}
use goper.Base.Int.{pos}
use goper.Base.Text.{Text}
use goper.Httpx.{Running, not_listening, serving, accepting, serve, listen}
use goper.Proxy.Start.{ProxyServer}
use goper.Proxy.Handlers.{Server}

module _ {L : Type 0} where
  unfoldable pub run_with_listener : ProxyServer → L → Running Server L
  run_with_listener s l =
      if s.config.transparent then accepting l else serving (serve s.handlers l (pos 0))

  abbrev run_on : ProxyServer → L ⊎ Text → Running Server L
  run_on s (inl l) = run_with_listener s l
  run_on s (inr e) = not_listening e

  unfoldable pub run : (Text → L ⊎ Text) → ProxyServer → Running Server L
  unfolding run_with_listener
  run net_listen s = run_on s (listen net_listen s.config.port)
