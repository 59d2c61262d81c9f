-- ===== src/Main/Logging.antt =====
-- cmd/goper/main.go: the log that a run sets up, and what it announces. `level` is the number behind
-- a `slog.Level`.
use goper.Base.{Option, none, some, if◌then◌else◌}
use goper.Base.Int.{ℤ}
use goper.Base.Text.{Text, codes, text_eq}
use goper.Api.Server.{ca_url}
use goper.Main.{Config}

-- The handlers of log/slog that write to standard error.
pub data LogHandler : Type 0 where
  json_handler text_handler : ℤ → LogHandler

unfoldable pub setup_logging : Config → LogHandler
setup_logging cfg =
    if text_eq cfg.log_format (codes "json")
    then json_handler cfg.log_level
    else text_handler cfg.log_level

-- The URL that is logged for downloading the CA's certificate.
unfoldable pub log_ready : Config → Option Text → Option Text
log_ready cfg none = none
log_ready cfg (some ca_pem) = some (ca_url cfg.api_port)
