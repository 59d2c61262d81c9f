-- ===== src/Proxy/Session.antt =====
-- internal/proxy/proxy.go: the exchanges that pass through a server one after another, in the order of
-- their responses. Handling a request leaves the server as it is, so requests may come in between.
pub mod Kept
pub mod Captured
pub mod Numbered
use goper.Base.{List, [], ◌∷◌, ◌++◌, Option, none, some, if◌then◌else◌}
use goper.Base.Text.{Text}
use goper.Capture.Entry.{Time, Env, CapturedEntry}
use goper.Capture.Recorder.{Request}
use goper.Proxy.Body.{Response, BodyRead, read_body_bounded}
use goper.Proxy.Handlers.{Server, CaptureCtx, handle_request, handle_response, full_entry}

-- A request and its response, nil where the target did not answer, with what the two handlers read
-- from the clock.
pub record Exchange : Type 0 where
  pub request : Request
  pub asked_at : Time
  pub response : Option Response
  pub answered_at : Time
  pub stamp : Text

abbrev pub at_request : Env → Exchange → Env
at_request env x = record env { now = x.asked_at }

abbrev pub at_response : Env → Exchange → Env
at_response env x = record env { now = x.answered_at; stamp = x.stamp }

-- The `UserData` that handling the request leaves for the response.
abbrev pub user_data : Server → Env → Exchange → Option CaptureCtx
user_data s env x = (handle_request s (at_request env x) x.request).1

unfoldable pub exchange : Server → Env → Exchange → Server × Env
exchange s env x =
    let (s', env', out) = handle_response s (at_response env x) (user_data s env x) x.response in
    (s', env')

unfoldable pub session : Server → Env → List Exchange → Server × Env
session s env [] = (s, env)
session s env (x ∷ xs) = let (s', env') = exchange s env x in session s' env' xs

-- The entry of a response, if its body can be read.
abbrev pub entry_read : CapturedEntry → BodyRead → List CapturedEntry
entry_read e b = if b.failed then [] else e ∷ []

abbrev pub entry_of : Server → Env → Option CaptureCtx → Option Response → List CapturedEntry
entry_of s env none resp = []
entry_of s env (some ctx) none = []
entry_of s env (some ctx) (some resp) =
    let b = (read_body_bounded resp s.response_body_limit).0 in
    entry_read (full_entry s env ctx resp b.body).0 b

-- The entries of the exchanges whose URL passes the filters and whose response could be read.
unfoldable pub recorded : Server → Env → List Exchange → List CapturedEntry
recorded s env [] = []
recorded s env (x ∷ xs) =
    let (s', env') = exchange s env x in
    entry_of s (at_response env x) (user_data s env x) x.response ++ recorded s' env' xs
