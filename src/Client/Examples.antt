-- ===== src/Client/Examples.antt =====
-- Examples for the client.
use titan_tunnel.Prelude.{
  [], ◌∷◌, none, some, ok, err, GoString, codes, true, str_eq, ◌≡◌, refl, if◌then◌else◌,
}
use titan_tunnel.Client.Web.{Pop, Web, http_get}
use titan_tunnel.Client.Access.{
  ask, access_points, get_access_point, get_pop, IsFirst, get_pop-IsFirst,
}
use titan_tunnel.Client.Bootstrap.{
  Files, BootstrapMgr, content, not_json, get_bootstraps_from_server, new_bootstrap_mgr,
  get_bootstraps_from_server-not_json,
}

abbrev pop : Pop
pop = record { url = codes "ws://p1"; token = codes "t" }

-- Every page is a login page, but for the access point "b".
abbrev web : Web
web = record {
  get = λ url.
      if str_eq url (codes "b?nodeid=n")
      then some (200, some (codes "{}"))
      else some (200, some (codes "<html>"));
  unmarshal_pop = λ bytes. if str_eq bytes (codes "{}") then some pop else none;
  unmarshal_access_points = λ bytes. some (codes "a" ∷ codes "b" ∷ []);
  unmarshal_bootstraps = λ bytes. none;
}

abbrev files : Files
files = record { mkdir = true; write_file = λ bytes old. (true, content bytes) }

abbrev mgr : BootstrapMgr
mgr = record { file = content (codes "[]"); bootstraps = codes "x" ∷ codes "y" ∷ [] }

got_pop : get_pop web (codes "n") [] (codes "boot" ∷ []) ≡ ok pop
unfolding get_pop access_points get_access_point http_get str_eq ask
got_pop = refl

get_pop-IsFirst_example : IsFirst web (codes "n") (access_points web [] (codes "boot" ∷ [])) pop
get_pop-IsFirst_example = get_pop-IsFirst web (codes "n") [] (codes "boot" ∷ []) pop got_pop

-- A network that answers everything with a login page.
abbrev portal : Web
portal = record {
  get = λ url. some (200, some (codes "<html>"));
  unmarshal_pop = λ bytes. none;
  unmarshal_access_points = λ bytes. none;
  unmarshal_bootstraps = λ bytes. none;
}

login_page : (url : GoString) → http_get portal url ≡ some (codes "<html>")
unfolding http_get
login_page url = refl

get_bootstraps_from_server-not_json_example :
    ((get_bootstraps_from_server portal files mgr).bootstraps ≡ mgr.bootstraps)
    × (new_bootstrap_mgr portal files
          (codes "{}")
          (get_bootstraps_from_server portal files mgr).file
        ≡ err not_json)
get_bootstraps_from_server-not_json_example =
    get_bootstraps_from_server-not_json portal files mgr (codes "x") (codes "y" ∷ [])
      (codes "<html>") (codes "{}") refl (λ u m. login_page u) (λ f. refl) refl refl
