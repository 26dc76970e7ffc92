-- ===== src/Rpc/Examples.antt =====
-- Examples for ippop/api/model and ippop/rpc/internal/logic, on a database in memory.
use titan_tunnel.Prelude.{
  [], none, some, ok, err, GoString, codes, true, false, is_empty, str_eq, ◌≡◌, ◌≢◌, ◌⊎◌, refl,
  arith,
}
use titan_tunnel.Prelude.Maps.{empty, put, get, merge, is_empty_map, to_list}
use titan_tunnel.Prelude.State.{◌>>=◌}
use titan_tunnel.Model.StructMap.{
  struct_to_map, struct_to_map_from, format_value, map_to_struct, load_field,
}
use titan_tunnel.Model.MemoryRedis.{Memory, memory_redis, memory_redis_laws}
use titan_tunnel.Model.Records.{
  Node, user_key, node_key, key_user_zset, key_node_free, key_node_bind, key_node_online, zero_node,
}
use titan_tunnel.Model.Store.{
  redis_failed, node_already_bind, exec, hgetall, load_struct, is_node_online, save_user,
  delete_user, get_user, get_node,
}
use titan_tunnel.Model.Store.Users.{IsInRange, get_user-save_user}
use titan_tunnel.Model.Store.Nodes.{bound_user}
use titan_tunnel.Model.Bind.{
  bind_node_with_new_user, bind_found, unbind_node, unbind_found, switch_node_by_user, switch_from,
  switch_to, allocate_free_node, add_free_node,
}
use titan_tunnel.Model.Bind.Effects.{binding, is_consistent}
use titan_tunnel.Model.Bind.Consistency.{
  Consistent, bind_node-binding, unbind_node-binding, switch_node-binding, bind, run_op-Consistent,
  bind_node-bound,
}
use titan_tunnel.Rpc.Checks.{to_int}
use titan_tunnel.Rpc.Users.{
  CreateUserReq, CreateUserResp, Call, new_user, create_user, remove_user, start_or_stop_user,
  delete_user_cache,
}
use titan_tunnel.Rpc.Users.Create.{create_user-get_user}
use titan_tunnel.Rpc.Users.Refused.{create_user-known_mode}
use titan_tunnel.Rpc.Users.Changes.{start_or_stop_user-get_user, remove_user-gone}
use titan_tunnel.Rpc.Routes.{create, serve_request}
use titan_tunnel.Rpc.Routes.Keeps.{serve_request-Consistent}
use titan_tunnel.Model.Samples.{conv, formats, db, user, in_range, db_u, saved, db-Consistent}

get_user-save_user_example :
    (get_user memory_redis conv (codes "u") db_u ≡ (ok (some user), db_u))
    ⊎ (get_user memory_redis conv (codes "u") db_u ≡ (err redis_failed, db_u))
get_user-save_user_example =
    get_user-save_user memory_redis memory_redis_laws conv formats user db db_u in_range saved

abbrev db_b : Memory
db_b = (bind_node_with_new_user memory_redis 7 conv (codes "n1") user db).1

bound : bind_node_with_new_user memory_redis 7 conv (codes "n1") user db ≡ (ok tt, db_b)
unfolding bind_node_with_new_user bind_found exec get_node hgetall load_struct is_node_online ◌>>=◌
    map_to_struct load_field is_empty_map get put empty str_eq node_key
bound = refl

bind_node-binding_example :
    binding (memory_redis_laws.view db_b) (codes "n1")
    ≡ record { user = codes "u"; bound = true; free = false; online = true }
unfolding str_eq
bind_node-binding_example =
    (bind_node-binding memory_redis memory_redis_laws conv 7 (codes "n1") user db db_b bound).1
      (codes "n1")

run_op-Consistent_example : Consistent (memory_redis_laws.view db_b)
run_op-Consistent_example =
    run_op-Consistent memory_redis memory_redis_laws conv 7 (bind (codes "n1") user) db db_b
      db-Consistent bound

abbrev db_s : Memory
db_s = (switch_node_by_user memory_redis 8 conv user (codes "n2") db_b).1

switched : switch_node_by_user memory_redis 8 conv user (codes "n2") db_b ≡ (ok tt, db_s)
unfolding bind_node_with_new_user bind_found unbind_node unbind_found switch_node_by_user
    switch_from switch_to add_free_node exec get_node hgetall load_struct is_node_online ◌>>=◌
    map_to_struct load_field is_empty_map get put merge to_list empty str_eq node_key user_key
    struct_to_map struct_to_map_from format_value key_node_free key_node_bind key_node_online
    key_user_zset
switched = refl

switch_node-binding_example :
    binding (memory_redis_laws.view db_s) (codes "n1")
    ≡ record { user = []; bound = false; free = true; online = true }
unfolding bind_node_with_new_user bind_found unbind_node unbind_found switch_node_by_user
    switch_from switch_to add_free_node exec get_node hgetall load_struct is_node_online ◌>>=◌
    map_to_struct load_field is_empty_map get put merge to_list empty str_eq node_key user_key
    struct_to_map struct_to_map_from format_value key_node_free key_node_bind key_node_online
    key_user_zset
switch_node-binding_example =
    (switch_node-binding memory_redis memory_redis_laws conv 8 user (codes "n2") db_b db_s
        switched).1
      (codes "n1")

abbrev db_n : Memory
db_n = (unbind_node memory_redis 8 conv (codes "n1") db_b).1

unbound : unbind_node memory_redis 8 conv (codes "n1") db_b ≡ (ok tt, db_n)
unfolding bind_node_with_new_user bind_found unbind_node unbind_found switch_node_by_user
    switch_from switch_to add_free_node exec get_node hgetall load_struct is_node_online ◌>>=◌
    map_to_struct load_field is_empty_map get put merge to_list empty str_eq node_key user_key
    struct_to_map struct_to_map_from format_value key_node_free key_node_bind key_node_online
    key_user_zset
unbound = refl

unbind_node-binding_example :
    binding (memory_redis_laws.view db_n) (codes "n1")
    ≡ record { user = []; bound = false; free = true; online = true }
unfolding bind_node_with_new_user bind_found unbind_node unbind_found switch_node_by_user
    switch_from switch_to add_free_node exec get_node hgetall load_struct is_node_online ◌>>=◌
    map_to_struct load_field is_empty_map get put merge to_list empty str_eq node_key user_key
    struct_to_map struct_to_map_from format_value key_node_free key_node_bind key_node_online
    key_user_zset
unbind_node-binding_example =
    unbind_node-binding memory_redis memory_redis_laws conv 8 (codes "n1") db_b db_n unbound
      (codes "n1")

abbrev db_f : Memory
db_f = (add_free_node memory_redis 9 (codes "n1") db_b).1

given_back : add_free_node memory_redis 9 (codes "n1") db_b ≡ (ok tt, db_f)
unfolding add_free_node exec
given_back = refl

abbrev node_b : Node
node_b = record zero_node {
  id = codes "n1";
  online = true;
  ip = codes "1.2.3.4";
  bind_user = codes "u";
}

found_b : get_node memory_redis conv (codes "n1") db_b ≡ (ok (some node_b), db_b)
unfolding bind_node_with_new_user bind_found unbind_node unbind_found switch_node_by_user
    switch_from switch_to add_free_node exec get_node hgetall load_struct is_node_online ◌>>=◌
    map_to_struct load_field is_empty_map get put merge to_list empty str_eq node_key user_key
    struct_to_map struct_to_map_from format_value key_node_free key_node_bind key_node_online
    key_user_zset
found_b = refl

has_user : is_empty (bound_user (memory_redis_laws.view db_b) (codes "n1")) ≡ false
unfolding bind_node_with_new_user bind_found unbind_node unbind_found switch_node_by_user
    switch_from switch_to add_free_node exec get_node hgetall load_struct is_node_online ◌>>=◌
    map_to_struct load_field is_empty_map get put merge to_list empty str_eq node_key user_key
    struct_to_map struct_to_map_from format_value key_node_free key_node_bind key_node_online
    key_user_zset
has_user = refl

is_online : (memory_redis_laws.view db_b).set key_node_online (codes "n1") ≡ true
unfolding bind_node_with_new_user bind_found unbind_node unbind_found switch_node_by_user
    switch_from switch_to add_free_node exec get_node hgetall load_struct is_node_online ◌>>=◌
    map_to_struct load_field is_empty_map get put merge to_list empty str_eq node_key user_key
    struct_to_map struct_to_map_from format_value key_node_free key_node_bind key_node_online
    key_user_zset
is_online = refl

bind_node-bound_example :
    (bind_node_with_new_user memory_redis 9 conv (codes "n1") user db_b
      ≡ (err node_already_bind, db_f))
    × ((memory_redis_laws.view db_f).zset key_node_free (codes "n1") ≡ true)
    × (is_consistent (binding (memory_redis_laws.view db_f) (codes "n1")) ≡ false)
bind_node-bound_example =
    bind_node-bound memory_redis memory_redis_laws conv 9 (codes "n1") user node_b db_b db_f found_b
      has_user is_online given_back

abbrev call : Call
call = record { now = 10; month_later = 20; md5_hex = λ s. s; cache_deleted = λ name. true }

abbrev req : CreateUserReq
req = record {
  user_name = codes "u";
  password = codes "pw";
  traffic_limit = none;
  route = none;
  upload_rate_limite = 0;
  download_rate_limit = 0;
}

abbrev resp : CreateUserResp
resp = record {
  user_name = codes "u";
  traffic_limit = record { start_time = 10; end_time = 20; total_traffic = 1000 };
  route = record { mode = 1; node_id = codes "n1"; intervals = 0 };
  node_ip = codes "1.2.3.4";
}

abbrev db_c : Memory
db_c = (create_user memory_redis conv call req db).1

created_u : create_user memory_redis conv call req db ≡ (ok resp, db_c)
unfolding create_user get_user allocate_free_node to_int bind_node_with_new_user bind_found
    unbind_node unbind_found switch_node_by_user switch_from switch_to add_free_node exec get_node
    hgetall load_struct is_node_online ◌>>=◌ map_to_struct load_field is_empty_map get put merge
    to_list empty str_eq node_key user_key struct_to_map struct_to_map_from format_value
    key_node_free key_node_bind key_node_online key_user_zset
created_u = refl

created-IsInRange : IsInRange (new_user memory_redis conv call req (codes "n1"))
unfolding to_int
created-IsInRange = record {
  start_time = omega arith;
  end_time = omega arith;
  total_traffic = omega arith;
  current_traffic = omega arith;
  route_mode = omega arith;
  update_route_intervals = omega arith;
  update_route_time = omega arith;
  upload_rate_limit = omega arith;
  download_rate_limit = omega arith;
}

create_user-get_user_example :
    (get_user memory_redis conv (codes "u") db ≡ (ok none, db))
    × ((get_user memory_redis conv (codes "u") db_c
          ≡ (ok (some (new_user memory_redis conv call req (codes "n1"))), db_c))
        ⊎ (get_user memory_redis conv (codes "u") db_c ≡ (err redis_failed, db_c)))
    × (bound_user (memory_redis_laws.view db) (codes "n1") ≡ [])
    × (bound_user (memory_redis_laws.view db_c) (codes "n1") ≡ codes "u")
create_user-get_user_example =
    create_user-get_user memory_redis memory_redis_laws conv call formats req resp db db_c
      created-IsInRange created_u

create_user-known_mode_example :
    create_user memory_redis conv call
      (record req { route = some (record { mode = 2; node_id = []; intervals = 0 }) })
      db
    ≢ (ok resp, db_c)
create_user-known_mode_example =
    create_user-known_mode memory_redis memory_redis_laws conv call
      (record req { route = some (record { mode = 2; node_id = []; intervals = 0 }) })
      (record { mode = 2; node_id = []; intervals = 0 }) resp db db_c refl (omega arith)
      (omega arith)

served : serve_request memory_redis conv call (create req) db ≡ (ok tt, db_c)
unfolding create_user get_user allocate_free_node to_int bind_node_with_new_user bind_found
    unbind_node unbind_found switch_node_by_user switch_from switch_to add_free_node exec get_node
    hgetall load_struct is_node_online ◌>>=◌ map_to_struct load_field is_empty_map get put merge
    to_list empty str_eq node_key user_key struct_to_map struct_to_map_from format_value
    key_node_free key_node_bind key_node_online key_user_zset
served = refl

serve_request-Consistent_example : Consistent (memory_redis_laws.view db_c)
serve_request-Consistent_example =
    serve_request-Consistent memory_redis memory_redis_laws conv call (create req) db db_c
      db-Consistent served

abbrev db_o : Memory
db_o = (start_or_stop_user memory_redis conv call (codes "u") (codes "stop") db_u).1

stopped : start_or_stop_user memory_redis conv call (codes "u") (codes "stop") db_u ≡ (ok tt, db_o)
unfolding start_or_stop_user save_user delete_user_cache get_user bind_node_with_new_user bind_found
    unbind_node unbind_found switch_node_by_user switch_from switch_to add_free_node exec get_node
    hgetall load_struct is_node_online ◌>>=◌ map_to_struct load_field is_empty_map get put merge
    to_list empty str_eq node_key user_key struct_to_map struct_to_map_from format_value
    key_node_free key_node_bind key_node_online key_user_zset
stopped = refl

found_u : get_user memory_redis conv (codes "u") db_u ≡ (ok (some user), db_u)
unfolding save_user get_user bind_node_with_new_user bind_found unbind_node unbind_found
    switch_node_by_user switch_from switch_to add_free_node exec get_node hgetall load_struct
    is_node_online ◌>>=◌ map_to_struct load_field is_empty_map get put merge to_list empty str_eq
    node_key user_key struct_to_map struct_to_map_from format_value key_node_free key_node_bind
    key_node_online key_user_zset
found_u = refl

start_or_stop_user-get_user_example :
    (get_user memory_redis conv (codes "u") db_o
      ≡ (ok (some (record user { off = str_eq (codes "stop") (codes "stop") })), db_o))
    ⊎ (get_user memory_redis conv (codes "u") db_o ≡ (err redis_failed, db_o))
start_or_stop_user-get_user_example =
    start_or_stop_user-get_user memory_redis memory_redis_laws conv call formats (codes "stop") user
      db_u db_o in_range found_u stopped

abbrev db_r : Memory
db_r = (remove_user memory_redis conv call (codes "u") db_u).1

removed : remove_user memory_redis conv call (codes "u") db_u ≡ (ok tt, db_r)
unfolding remove_user delete_user save_user delete_user_cache get_user bind_node_with_new_user
    bind_found unbind_node unbind_found switch_node_by_user switch_from switch_to add_free_node exec
    get_node hgetall load_struct is_node_online ◌>>=◌ map_to_struct load_field is_empty_map get put
    merge to_list empty str_eq node_key user_key struct_to_map struct_to_map_from format_value
    key_node_free key_node_bind key_node_online key_user_zset
removed = refl

remove_user-gone_example :
    ((field : GoString) → (memory_redis_laws.view db_r).hash (user_key (codes "u")) field ≡ none)
    × ((memory_redis_laws.view db_r).zset key_user_zset (codes "u") ≡ false)
    × (bound_user (memory_redis_laws.view db_r) (codes "n1") ≡ [])
    × ((memory_redis_laws.view db_r).zset key_node_bind (codes "n1") ≡ false)
remove_user-gone_example =
    remove_user-gone memory_redis memory_redis_laws conv call (codes "u") user db_u db_r found_u
      refl removed
