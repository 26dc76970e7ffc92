-- ===== src/Manager/Pops.antt =====
-- The server of a node: manager/internal/logic/getnodepoplogic.go.
pub mod Room
pub mod Choice
pub mod Requests
pub mod Sticky
pub mod Limits
pub mod Assigned
pub mod Counted
use titan_tunnel.Prelude.{
  ℕ, List, [], ◌∷◌, ◌++◌, Option, none, some, Result, ok, err, GoString, codes, Bool, true, false,
  not, ◌&&◌, ◌==◌, str_eq, if◌then◌else◌,
}
use titan_tunnel.Prelude.Maps.{GoMap, get}
use titan_tunnel.Rpc.Checks.{less}
use titan_tunnel.Manager.Store.{
  Redis, PopError, redis_failed, pop_not_found, no_location, no_pop, no_server, no_token, panicked,
  Action, set_node_pop, get_node_pop, node_count_of_pop,
}

-- config.Pop, without the settings of its RPC client; `max_count` is the bit pattern of an int.
pub record Pop : Type 0 where
  pub id : GoString
  pub area : GoString
  pub ws_url : GoString
  pub max_count : ℕ

pub record Config : Type 0 where
  pub pops : List Pop
  pub default_area : GoString
  pub geo_api : GoString
  pub geo_key : GoString

pub record Location : Type 0 where
  pub country : GoString
  pub province : GoString
  pub city : GoString
  pub ip : GoString

-- `none` is a nil pointer
pub record LocationData : Type 0 where
  pub location : Option Location

pub record LocationResp : Type 0 where
  pub code : ℕ
  pub data_ : Option LocationData
  pub msg : GoString

-- What http.Client.Get answers, `none` for an error, with the status and what can be read of the
-- body; json.Unmarshal of a body; and GetNodeAccessToken of the server's RPC service.
pub record Outside : Type 1 where
  pub Api : Type 0
  pub http_get : GoString → Option (ℕ × Option GoString)
  pub unmarshal_location : GoString → Option LocationResp
  pub get_node_access_token : Api → GoString → Option GoString

pub record GetNodePopResp : Type 0 where
  pub server_url : GoString
  pub access_token : GoString

-- The first pop that passes a test.
abbrev pub first_with : (Pop → Bool) → List Pop → Option Pop
first_with p [] = none
first_with p (pop ∷ pops) = let rest = first_with p pops in if p pop then some pop else rest

module _ (out : Outside) (config : Config) where
  abbrev in_reply : Option LocationData → Result PopError (Option Location)
  in_reply none = err panicked
  in_reply (some d) = ok d.location

  abbrev checked : Option LocationResp → Result PopError (Option Location)
  checked none = err no_location
  checked (some resp) =
      if not (resp.code == 0) && not (resp.code == 200)
      then err no_location
      else in_reply resp.data_

  abbrev body_read : Option GoString → Result PopError (Option Location)
  body_read none = err no_location
  body_read (some body) = checked (out.unmarshal_location body)

  abbrev replied : Option (ℕ × Option GoString) → Result PopError (Option Location)
  replied none = err no_location
  replied (some (status, body)) = if status == 200 then body_read body else err no_location

  unfoldable pub get_local_info : GoString → Result PopError (Option Location)
  get_local_info ip = replied (
      out.http_get (
        config.geo_api
        ++ (codes "?key=" ++ (config.geo_key ++ (codes "&ip=" ++ (ip ++ codes "&language=en"))))))

  unfoldable pub get_pod_server : GoMap out.Api → GoString → Option out.Api
  get_pod_server servers id = get servers id

  -- the pop of an area, or else of the default area
  abbrev or_default : Option Pop → Option Pop → Option Pop
  or_default (some pop) d = some pop
  or_default none d = d

  unfoldable pub get_pod_config : GoString → Option Pop
  get_pod_config area =
      or_default (first_with (λ pop. str_eq pop.area area) config.pops)
        (first_with (λ pop. str_eq pop.area config.default_area) config.pops)

  module _ (redis : Redis) where
    -- The country in which a pop is looked for; a nil location is dereferenced.
    abbrev pub country_of : Location → GoString
    country_of l = if str_eq l.province (codes "Hong Kong") then codes "HongKong" else l.country

    -- count >= int64(pop.MaxCount) does not hold
    abbrev pub has_room : Option ℕ → Pop → Bool
    has_room none pop = false
    has_room (some count) pop = less count pop.max_count

    -- The first loop: a pop of the country with room.
    unfoldable pub is_free_in : GoString → redis.Db → Pop → Bool
    is_free_in country db pop =
        str_eq pop.area country && has_room (node_count_of_pop redis pop.id db) pop

    -- SetNodePop, whose error is only logged
    abbrev pub taken_by : GoString → Option Pop → Action redis Pop
    taken_by node none db = (err no_pop, db)
    taken_by node (some pop) db = (ok pop, (set_node_pop redis node pop.id db).1)

    -- The two loops.
    unfoldable pub new_pop : GoString → GoString → Action redis Pop
    new_pop node country db =
        taken_by node
          (or_default (first_with (is_free_in country db) config.pops)
            (first_with (λ pop. str_eq pop.area config.default_area) config.pops))
          db

    abbrev pub located : GoString → Result PopError (Option Location) → Action redis Pop
    located node (err panicked) db = (err panicked, db)
    located node (err e) db = (err no_location, db)
    located node (ok none) db = (err panicked, db)
    located node (ok (some l)) db = new_pop node (country_of l) db

    abbrev pub known : Option Pop → Action redis Pop
    known none db = (err pop_not_found, db)
    known (some pop) db = (ok pop, db)

    abbrev pub looked_up :
        GoString → GoString → Result PopError (Option GoString) → Action redis Pop
    looked_up node ip (err e) db = (err e, db)
    looked_up node ip (ok (some id)) db =
        known (first_with (λ pop. str_eq pop.id id) config.pops) db
    looked_up node ip (ok none) db = located node (get_local_info ip) db

    unfoldable pub allocate_pop : GoString → GoString → Action redis Pop
    allocate_pop node ip db = looked_up node ip (get_node_pop redis node db) db

    abbrev with_token : Pop → Option GoString → Result PopError GetNodePopResp
    with_token pop none = err no_token
    with_token pop (some token) = ok (record { server_url = pop.ws_url; access_token = token })

    abbrev from_server : GoString → Pop → Option out.Api → Result PopError GetNodePopResp
    from_server node pop none = err no_server
    from_server node pop (some api) = with_token pop (out.get_node_access_token api node)

    abbrev answered :
        GoMap out.Api
        → GoString
        → Result PopError Pop × redis.Db
        → Result PopError GetNodePopResp × redis.Db
    answered servers node (err e, db) = (err e, db)
    answered servers node (ok pop, db) = (from_server node pop (get_pod_server servers pop.id), db)

    unfoldable pub get_node_pop_resp :
        GoMap out.Api → GoString → GoString → Action redis GetNodePopResp
    get_node_pop_resp servers node ip db = answered servers node (allocate_pop node ip db)
