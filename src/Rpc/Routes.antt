-- ===== src/Rpc/Routes.antt =====
-- SwitchUserRouteNode and GetUser of ippop/rpc/internal/logic.
pub mod Keeps
use titan_tunnel.Prelude.{
  ℕ, ◌%◌, ◌^◌, List, [], ◌∷◌, Option, none, some, Result, ok, err, GoString, Bool, true, false,
  is_empty, not, if◌then◌else◌,
}
use titan_tunnel.Prelude.State.{St, pure, raise, ◌>>=◌, ◌>>◌}
use titan_tunnel.Model.StructMap.{Strconv}
use titan_tunnel.Model.Redis.{Redis}
use titan_tunnel.Model.Records.{User, Node}
use titan_tunnel.Model.Store.{
  ModelError, node_not_exist, node_already_bind, node_offline, Action, get_user, get_node,
}
use titan_tunnel.Model.Bind.{switch_node_by_user, allocate_free_node, add_free_node}
use titan_tunnel.Rpc.Checks.{Route, TrafficLimit}
use titan_tunnel.Rpc.Users.{
  Call, UserInfo, existing, existing_node, delete_user_cache, CreateUserReq, ModifyUserReq,
  create_user, modify_user, remove_user, start_or_stop_user, modify_user_password,
}

-- The requests that change users.
pub data Request : Type 0 where
  create : CreateUserReq → Request
  modify : ModifyUserReq → Request
  remove : GoString → Request
  switch_node start_or_stop set_password : GoString → GoString → Request

module _ (redis : Redis) (conv : Strconv) (call : Call) where
  abbrev pub check_usable : Option Node → Action redis (Unit {0})
  check_usable none = raise node_not_exist
  check_usable (some node) =
      if not (is_empty node.bind_user)
      then raise node_already_bind
      else if not node.online
      then raise node_offline
      else pure tt

  unfoldable pub check_node : GoString → Action redis (Unit {0})
  check_node id = do got ← get_node redis conv id; check_usable got

  abbrev pub chosen_node : GoString → Action redis GoString
  chosen_node id =
      if not (is_empty id) then (do check_node id; pure id) else allocate_free_node redis call.now

  -- Whatever the call has answered, its error stays.
  abbrev pub freed_on_error :
      GoString → Result ModelError (Unit {0}) × redis.Db → Result ModelError (Unit {0}) × redis.Db
  freed_on_error id (ok u, db) = (ok u, db)
  freed_on_error id (err e, db) = (err e, (add_free_node redis call.now id db).1)

  abbrev pub switch_or_free : User → GoString → Action redis (Unit {0})
  switch_or_free user id db = freed_on_error id (switch_node_by_user redis call.now conv user id db)

  unfoldable pub switch_user_route_node : GoString → GoString → Action redis (Unit {0})
  switch_user_route_node name node_id = do
    found ← get_user redis conv name
    user ← existing redis conv call found
    id ← chosen_node node_id
    switch_or_free user id
    delete_user_cache redis conv call name

  abbrev pub info_of : GoString → User → Node → UserInfo
  info_of name user node = record {
    user_name = name;
    traffic_limit = record {
      start_time = user.start_time;
      end_time = user.end_time;
      total_traffic = user.total_traffic;
    };
    route = record {
      mode = user.route_mode % 2 ^ 32;
      node_id = user.route_node_id;
      intervals = user.update_route_intervals % 2 ^ 32;
    };
    node_ip = node.ip;
    node_online = node.online;
    current_traffic = user.current_traffic;
    off = user.off;
    upload_rate_limite = user.upload_rate_limit;
    download_rate_limit = user.download_rate_limit;
  }

  unfoldable pub get_user_info : GoString → Action redis UserInfo
  get_user_info name = do
    found ← get_user redis conv name
    user ← existing redis conv call found
    got ← get_node redis conv user.route_node_id
    node ← existing_node redis conv call got
    pure (info_of name user node)

  abbrev pub serve_request : Request → Action redis (Unit {0})
  serve_request (create req) = create_user redis conv call req >> pure tt
  serve_request (modify req) = modify_user redis conv call req
  serve_request (remove name) = remove_user redis conv call name
  serve_request (switch_node name id) = switch_user_route_node name id
  serve_request (start_or_stop name action) = start_or_stop_user redis conv call name action
  serve_request (set_password name password) = modify_user_password redis conv call name password
