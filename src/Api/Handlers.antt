-- ===== src/Api/Handlers.antt =====
-- internal/api/handlers.go: what each handler replies. `writeJSON` of a value is the constructor
-- with its status; encoding it is encoding/json.
pub mod Replies
use goper.Base.{ℕ, ◌-◌, ◌/◌, ◌^◌, Bool, List, [], ◌∷◌, Option, none, some, length}
use goper.Base.Int.{ℤ}
use goper.Base.Text.{Text, codes}
use goper.Capture.Entry.{CapturedEntry, Time}
use goper.Capture.Ring.{RingBuffer, StoreStats, get, list, clear, stats}
use goper.Api.Queries.{Values, list_opts_from_query}

-- A status with the value that is encoded, or the bytes of a file.
pub data Response : Type 0 where
  json_entries : ℕ → ℕ → List CapturedEntry → Response
  json_entry : ℕ → CapturedEntry → Response
  json_field : ℕ → Text → Text → Response
  json_stats : ℕ → StoreStats → ℕ → Response
  pem_file : Text → Response

pub record Handler : Type 0 where
  pub store : RingBuffer
  pub ca_pem : Option Text

unfoldable pub list_requests : (Text → Option Time) → Handler → Values → Response
list_requests parse_time h query =
    let entries = list h.store (list_opts_from_query parse_time query) in
    json_entries 200 (length entries) entries

abbrev pub entry_not_found : Response
entry_not_found = json_field 404 (codes "error") (codes "entry not found")

unfoldable pub reply_found : Option CapturedEntry → Response
reply_found none = entry_not_found
reply_found (some entry) = json_entry 200 entry

unfoldable pub get_request : Handler → Text → Response
unfolding reply_found
get_request h id = reply_found (get h.store id)

unfoldable pub clear_requests : Handler → Handler × Response
clear_requests h =
    (record h { store = clear h.store }, json_field 200 (codes "status") (codes "cleared"))

-- The uptime in whole seconds; the monotonic clock never runs backward.
unfoldable pub get_stats : Time → Handler → Response
get_stats now h = json_stats 200 (stats h.store) ((now - (stats h.store).start_time) / 10 ^ 9)

unfoldable pub reply_ca : Option Text → Response
reply_ca none = json_field 404 (codes "error") (codes "CA not available")
reply_ca (some pem) = pem_file pem

unfoldable pub get_ca : Handler → Response
unfolding reply_ca
get_ca h = reply_ca h.ca_pem
