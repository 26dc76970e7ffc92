-- ===== src/Rpc/Users.antt =====
-- The methods of ippop/rpc/internal/logic that read and change users. A response with an ErrMsg is
-- an error here, as a nil response with an error is.
pub mod Success
pub mod Refused
pub mod Create
pub mod Changes
use titan_tunnel.Prelude.{
  ℕ, ◌*◌, ◌%◌, ◌^◌, List, [], ◌∷◌, Option, none, some, Result, ok, err, GoString, codes, Bool, true,
  false, is_empty, not, ◌&&◌, ◌||◌, str_eq, if◌then◌else◌,
}
use titan_tunnel.Prelude.State.{St, pure, raise, ◌>>=◌, ◌>>◌}
use titan_tunnel.Model.StructMap.{Strconv}
use titan_tunnel.Model.Redis.{Redis}
use titan_tunnel.Model.Records.{User, Node}
use titan_tunnel.Model.Store.{
  ModelError, node_not_exist, no_free_node, user_not_exist, user_already_exist, node_already_bind,
  node_offline, user_already_bind, traffic_not_allow, route_is_empty, invalid_action, cache_failed,
  Action, get_user, get_node, save_user, delete_user,
}
use titan_tunnel.Model.Bind.{
  bind_node_with_new_user, unbind_node, switch_node_by_user, allocate_free_node, add_free_node,
}
use titan_tunnel.Rpc.Checks.{
  Route, TrafficLimit, route_mode_type_manual, to_int, check_route, check_traffic,
  check_node_unused,
}

pub record CreateUserReq : Type 0 where
  pub user_name : GoString
  pub password : GoString
  pub traffic_limit : Option TrafficLimit
  pub route : Option Route
  pub upload_rate_limite : ℕ
  pub download_rate_limit : ℕ

pub record CreateUserResp : Type 0 where
  pub user_name : GoString
  pub traffic_limit : TrafficLimit
  pub route : Route
  pub node_ip : GoString

pub record ModifyUserReq : Type 0 where
  pub user_name : GoString
  pub traffic_limit : Option TrafficLimit
  pub route : Option Route

pub record UserInfo : Type 0 where
  pub user_name : GoString
  pub traffic_limit : TrafficLimit
  pub route : Route
  pub node_ip : GoString
  pub node_online : Bool
  pub current_traffic : ℕ
  pub off : Bool
  pub upload_rate_limite : ℕ
  pub download_rate_limit : ℕ

-- What a request meets outside: the clock, the date a month later, the hex digits of an MD5 sum, and
-- whether the API server drops the user's cache when asked.
pub record Call : Type 0 where
  pub now : ℕ
  pub month_later : ℕ
  pub md5_hex : GoString → GoString
  pub cache_deleted : GoString → Bool

abbrev pub default_total_traffic : ℕ
default_total_traffic = 1000

abbrev pub traffic_unit : ℕ
traffic_unit = 1024 * 1024 * 1024

module _ (redis : Redis) (conv : Strconv) (call : Call) where
  abbrev pub default_traffic_limit : TrafficLimit
  default_traffic_limit = record {
    start_time = call.now;
    end_time = call.month_later;
    total_traffic = default_total_traffic;
  }

  abbrev pub limit_of : Option TrafficLimit → TrafficLimit
  limit_of none = default_traffic_limit
  limit_of (some limit) = limit

  abbrev pub route_of : Option Route → Route
  route_of none = record { mode = route_mode_type_manual; node_id = []; intervals = 0 }
  route_of (some route) = route

  -- The user that CreateUser stores.
  abbrev pub new_user : CreateUserReq → GoString → User
  new_user req id = record {
    user_name = req.user_name;
    password_md5 = call.md5_hex req.password;
    start_time = (limit_of req.traffic_limit).start_time;
    end_time = (limit_of req.traffic_limit).end_time;
    total_traffic = ((limit_of req.traffic_limit).total_traffic * traffic_unit) % 2 ^ 64;
    current_traffic = 0;
    route_mode = to_int (route_of req.route).mode;
    route_node_id = id;
    update_route_intervals = to_int (route_of req.route).intervals;
    update_route_time = 0;
    off = false;
    upload_rate_limit = req.upload_rate_limite;
    download_rate_limit = req.download_rate_limit;
  }

  abbrev pub existing : Option User → Action redis User
  existing none = raise user_not_exist
  existing (some user) = pure user

  abbrev pub absent : Option User → Action redis (Unit {0})
  absent none = pure tt
  absent (some user) = raise user_already_exist

  abbrev pub existing_node : Option Node → Action redis Node
  existing_node none = raise node_not_exist
  existing_node (some node) = pure node

  abbrev pub check_optional_route : Option Route → Action redis (Unit {0})
  check_optional_route none = pure tt
  check_optional_route (some route) = check_route redis conv (some route)

  abbrev pub check_optional_traffic : Option TrafficLimit → Action redis (Unit {0})
  check_optional_traffic none = pure tt
  check_optional_traffic (some limit) = check_traffic redis call.now limit

  abbrev pub node_for : GoString → Action redis GoString
  node_for id = if is_empty id then allocate_free_node redis call.now else pure id

  abbrev pub non_empty : GoString → Action redis (Unit {0})
  non_empty id = if is_empty id then raise no_free_node else pure tt

  abbrev pub created : CreateUserReq → GoString → Node → CreateUserResp
  created req id node = record {
    user_name = req.user_name;
    traffic_limit = limit_of req.traffic_limit;
    route = record (route_of req.route) { node_id = id };
    node_ip = node.ip;
  }

  unfoldable pub create_user : CreateUserReq → Action redis CreateUserResp
  create_user req = do
    found ← get_user redis conv req.user_name
    absent found
    check_optional_route req.route
    check_optional_traffic req.traffic_limit
    id ← node_for (route_of req.route).node_id
    non_empty id
    got ← get_node redis conv id
    node ← existing_node got
    bind_node_with_new_user redis call.now conv id (new_user req id)
    pure (created req id node)

  unfoldable pub delete_user_cache : GoString → Action redis (Unit {0})
  delete_user_cache name = if call.cache_deleted name then pure tt else raise cache_failed

  abbrev pub modified : User → TrafficLimit → Route → User
  modified user limit route = record user {
    start_time = limit.start_time;
    end_time = limit.end_time;
    total_traffic = limit.total_traffic;
    route_mode = to_int route.mode;
    update_route_intervals = to_int route.intervals;
  }

  abbrev pub another_node : User → Route → Action redis (Unit {0})
  another_node user route =
      if str_eq user.route_node_id route.node_id then raise user_already_bind else pure tt

  abbrev pub modify_checked : GoString → TrafficLimit → Route → Action redis (Unit {0})
  modify_checked name limit route = do
    check_route redis conv (some route)
    check_traffic redis call.now limit
    found ← get_user redis conv name
    user ← existing found
    another_node user route
    switch_node_by_user redis call.now conv (modified user limit route) route.node_id
    delete_user_cache name

  abbrev pub modify_with : GoString → Option TrafficLimit → Option Route → Action redis (Unit {0})
  modify_with name none route = raise traffic_not_allow
  modify_with name (some limit) none = raise route_is_empty
  modify_with name (some limit) (some route) = modify_checked name limit route

  unfoldable pub modify_user : ModifyUserReq → Action redis (Unit {0})
  modify_user req = modify_with req.user_name req.traffic_limit req.route

  abbrev pub unbind_route : User → Action redis (Unit {0})
  unbind_route user =
      if not (is_empty user.route_node_id)
      then unbind_node redis call.now conv user.route_node_id
      else pure tt

  -- DeleteUser of this package; `delete_user` is the model's.
  unfoldable pub remove_user : GoString → Action redis (Unit {0})
  remove_user name = do
    found ← get_user redis conv name
    user ← existing found
    delete_user redis name
    unbind_route user
    delete_user_cache name

  abbrev pub save_and_drop : User → GoString → Action redis (Unit {0})
  save_and_drop user name = do save_user redis conv user; delete_user_cache name

  unfoldable pub start_or_stop_user : GoString → GoString → Action redis (Unit {0})
  start_or_stop_user name action =
      if not (str_eq action (codes "start")) && not (str_eq action (codes "stop"))
      then raise invalid_action
      else (do
        found ← get_user redis conv name
        user ← existing found
        save_and_drop (record user { off = str_eq action (codes "stop") }) name)

  unfoldable pub modify_user_password : GoString → GoString → Action redis (Unit {0})
  modify_user_password name password = do
    found ← get_user redis conv name
    user ← existing found
    save_and_drop (record user { password_md5 = call.md5_hex password }) name
