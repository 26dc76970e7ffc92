-- ===== src/Client/Web.antt =====
-- HTTP requests of the client: httGet of client/tunnel/tunnel.go and httpGet of
-- client/bootstrap/mgr.go. Package http, JSON and Sprintf's "%s" are what the source calls.
use titan_tunnel.Prelude.{ℕ, List, Option, none, some, GoString, ◌==◌, if◌then◌else◌}

-- Pop of client/tunnel
pub record Pop : Type 0 where
  pub url : GoString
  pub token : GoString

pub record Web : Type 0 where
  -- the status and the body of an answer, `none` for an error
  pub get : GoString → Option (ℕ × Option GoString)
  -- json.Unmarshal into a Pop, into the access points and into the bootstraps of a Config
  pub unmarshal_pop : GoString → Option Pop
  pub unmarshal_access_points : GoString → Option (List GoString)
  pub unmarshal_bootstraps : GoString → Option (List GoString)

abbrev body_of : Option (ℕ × Option GoString) → Option GoString
body_of none = none
body_of (some (status, body)) = if status == 200 then body else none

unfoldable pub http_get : Web → GoString → Option GoString
http_get web url = body_of (web.get url)
