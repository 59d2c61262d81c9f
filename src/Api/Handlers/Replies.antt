-- ===== src/Api/Handlers/Replies.antt =====
-- internal/api/handlers.go: the replies of the handlers against the entries that the store holds.
use goper.Base.{List, Option, none, some, ◌≡◌, refl, ap, ◌∙◌, length, select}
use goper.Base.Text.{Text, codes}
use goper.Capture.Entry.{CapturedEntry, Time}
use goper.Capture.Filter.{matches, paginate}
use goper.Capture.Ring.Spec.{Holds, find}
use goper.Capture.Ring.Refine.{get-Holds, list-Holds}
use goper.Api.Queries.{Values, list_opts_from_query}
use goper.Api.Handlers.{
  Response, json_entries, json_entry, json_field, reply_found, Handler, list_requests, get_request,
}

-- The entries that a query asks for, of those in a list.
abbrev pub asked : (Text → Option Time) → Values → List CapturedEntry → List CapturedEntry
asked parse_time query q =
    let opts = list_opts_from_query parse_time query in paginate (select (matches opts) q) opts

-- What is to be replied with these entries, and to an id whose entry this is.
abbrev pub page_of : List CapturedEntry → Response
page_of entries = json_entries 200 (length entries) entries

abbrev pub entry_or_404 : Option CapturedEntry → Response
entry_or_404 none = json_field 404 (codes "error") (codes "entry not found")
entry_or_404 (some entry) = json_entry 200 entry

pub list_requests_lem :
    (parse_time : Text → Option Time) (h : Handler) (q : List CapturedEntry) (query : Values)
    → Holds h.store q
    → list_requests parse_time h query ≡ page_of (asked parse_time query q)
unfolding list_requests
list_requests_lem parse_time h q query held =
    ap page_of (list-Holds h.store (list_opts_from_query parse_time query) q held)

reply_found_lem : (o : Option CapturedEntry) → reply_found o ≡ entry_or_404 o
unfolding reply_found
reply_found_lem none = refl
reply_found_lem (some entry) = refl

pub get_request_lem :
    (h : Handler) (q : List CapturedEntry) (id : Text)
    → Holds h.store q
    → get_request h id ≡ entry_or_404 (find id q)
unfolding get_request
get_request_lem h q id held =
    ap reply_found (get-Holds h.store q id held) ∙ reply_found_lem (find id q)
