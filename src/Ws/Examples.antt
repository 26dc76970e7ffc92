-- ===== src/Ws/Examples.antt =====
-- Examples for ippop/api/ws.
use titan_tunnel.Prelude.{
  ℕ, ◌+◌, ◌%◌, ◌^◌, List, Bool-cases, [], ◌∷◌, some, ok, err, GoString, codes, true, false, str_eq,
  ◌≡◌, ◌⊎◌, inl, inr, refl,
}
use titan_tunnel.Prelude.Maps.{empty, put, get, merge, is_empty_map, to_list}
use titan_tunnel.Prelude.State.{◌>>=◌}
use titan_tunnel.Model.StructMap.{
  struct_to_map, struct_to_map_from, format_value, map_to_struct, load_field,
}
use titan_tunnel.Model.MemoryRedis.{Memory, memory_redis, memory_redis_laws}
use titan_tunnel.Model.Records.{
  User, Node, user_key, node_key, key_user_zset, key_node_free, key_node_bind, key_node_online,
  zero_node,
}
use titan_tunnel.Model.Store.{
  redis_failed, exec, hgetall, load_struct, is_node_online, save_user, get_user, get_node,
}
use titan_tunnel.Model.Store.Nodes.{bound_user}
use titan_tunnel.Model.Bind.{
  bind_node_with_new_user, bind_found, unbind_node, unbind_found, switch_node_by_user, switch_from,
  switch_to, allocate_free_node, add_free_node,
}
use titan_tunnel.Model.Bind.Effects.{binding}
use titan_tunnel.Model.Samples.{conv, formats, db, user, in_range, db_u}
use titan_tunnel.Model.Bind.Consistency.{Consistent}
use titan_tunnel.Rpc.Users.{Call}
use titan_tunnel.Rpc.Checks.{less}
use titan_tunnel.Model.Store.{set_node_offline}
use titan_tunnel.Model.Bind.{remove_free_node}
use titan_tunnel.Socks5.Wire
use titan_tunnel.Socks5.Wire.{read_full, read_byte, write}
use titan_tunnel.Socks5.Protocol.{
  format_addr, reply_socks5_client, read_port, read_addr_spec, new_request, read_auth_methods,
  user_pass_auth_success,
}
use titan_tunnel.Socks5.Auth.{offers, verify, user_pass_auth_exchange, authenticate}
use titan_tunnel.Socks5.Auth.Exchange.{open_conn}
use titan_tunnel.Socks5.Request.{
  serve_socks5_conn, handle_socks5_request, handle_socks5_connect, is_blocked, target_address,
}
use titan_tunnel.Socks5.Request.Guard.{HandedOn}
use titan_tunnel.Socks5.Request.Sent.{greeting}
use titan_tunnel.Socks5.Samples.{net, conversation, peer, handed_on}
use titan_tunnel.Ws.Access.Admits.{accepts, serve-MayEnter}
use titan_tunnel.Ws.Access.{handle_user_auth}
use titan_tunnel.Ws.Access.Rules.{MayEnter, handle_user_auth_iff}
use titan_tunnel.Ws.Traffic.{Event, counted, tick, Meter, meter_run, traffic_of, add, save_traffic}
use titan_tunnel.Ws.Traffic.Conserved.{total_taken, meter_run-conserved, save_traffic-get_user}
use titan_tunnel.Ws.Offline.{switch_node_for_user, handle_node_offline}
use titan_tunnel.Ws.Offline.Moves.{switch_node_for_user-moves, handle_node_offline-binding}

abbrev call : Call
call = record { now = 10; month_later = 20; md5_hex = λ s. s; cache_deleted = λ name. true }

found_u : get_user memory_redis conv (codes "u") db_u ≡ (ok (some user), db_u)
unfolding save_user get_user bind_node_with_new_user bind_found unbind_node unbind_found
    switch_node_by_user switch_from switch_to add_free_node exec get_node hgetall load_struct
    is_node_online ◌>>=◌ map_to_struct load_field is_empty_map get put merge to_list empty str_eq
    node_key user_key struct_to_map struct_to_map_from format_value key_node_free key_node_bind
    key_node_online key_user_zset
found_u = refl

let_in : handle_user_auth memory_redis conv 3 (codes "u") [] db_u ≡ (ok tt, db_u)
unfolding handle_user_auth less save_user get_user bind_node_with_new_user bind_found unbind_node
    unbind_found switch_node_by_user switch_from switch_to add_free_node exec get_node hgetall
    load_struct is_node_online ◌>>=◌ map_to_struct load_field is_empty_map get put merge to_list
    empty str_eq node_key user_key struct_to_map struct_to_map_from format_value key_node_free
    key_node_bind key_node_online key_user_zset
let_in = refl

handle_user_auth_iff_example :
    (u : User) × (get_user memory_redis conv (codes "u") db_u ≡ (ok (some u), db_u))
    × MayEnter u [] 3
handle_user_auth_iff_example =
    (handle_user_auth_iff memory_redis memory_redis_laws conv call 3 (codes "u") [] db_u).0 let_in

abbrev events : List Event
events = counted (codes "u") 5 ∷ tick ∷ counted (codes "v") 1 ∷ counted (codes "u") 2 ∷ []

abbrev meter : Meter
meter = record { users = empty; taken = [] }

meter_run-conserved_example :
    (total_taken (codes "u") (meter_run events meter).taken
        + traffic_of (meter_run events meter).users (codes "u"))
      % 2 ^ 64
    ≡ 7
unfolding traffic_of add get put empty str_eq
meter_run-conserved_example = meter_run-conserved events meter (codes "u")

abbrev db_t : Memory
db_t = (save_traffic memory_redis conv (codes "u") 4 db_u).1

added : save_traffic memory_redis conv (codes "u") 4 db_u ≡ (ok tt, db_t)
unfolding save_traffic less save_user get_user bind_node_with_new_user bind_found unbind_node
    unbind_found switch_node_by_user switch_from switch_to add_free_node exec get_node hgetall
    load_struct is_node_online ◌>>=◌ map_to_struct load_field is_empty_map get put merge to_list
    empty str_eq node_key user_key struct_to_map struct_to_map_from format_value key_node_free
    key_node_bind key_node_online key_user_zset
added = refl

positive : less 0 4 ≡ true
unfolding less
positive = refl

save_traffic-get_user_example :
    (get_user memory_redis conv (codes "u") db_t
      ≡ (ok (some (record user { current_traffic = (0 + 4) % 2 ^ 64 })), db_t))
    ⊎ (get_user memory_redis conv (codes "u") db_t ≡ (err redis_failed, db_t))
save_traffic-get_user_example =
    save_traffic-get_user memory_redis memory_redis_laws conv formats 4 user db_u db_t in_range
      positive found_u added

-- The user of n3, which is not free; n1 is.
abbrev db_3 : Memory
db_3 = (save_user memory_redis conv (record user { route_node_id = codes "n3" }) db).1

abbrev db_m : Memory
db_m = (switch_node_for_user memory_redis conv call (codes "u") db_3).1

moved : switch_node_for_user memory_redis conv call (codes "u") db_3 ≡ (ok tt, db_m)
unfolding switch_node_for_user allocate_free_node save_user get_user bind_node_with_new_user
    bind_found unbind_node unbind_found switch_node_by_user switch_from switch_to add_free_node exec
    get_node hgetall load_struct is_node_online ◌>>=◌ map_to_struct load_field is_empty_map get put
    merge to_list empty str_eq node_key user_key struct_to_map struct_to_map_from format_value
    key_node_free key_node_bind key_node_online key_user_zset
moved = refl

db_3-Consistent : Consistent (memory_redis_laws.view db_3)
unfolding save_user get_user bind_node_with_new_user bind_found unbind_node unbind_found
    switch_node_by_user switch_from switch_to add_free_node exec get_node hgetall load_struct
    is_node_online ◌>>=◌ map_to_struct load_field is_empty_map get put merge to_list empty str_eq
    node_key user_key struct_to_map struct_to_map_from format_value key_node_free key_node_bind
    key_node_online key_user_zset
db_3-Consistent id = elim (Bool-cases (binding (memory_redis_laws.view db_3) id).free) [
  | inl a ↦ rw a refl
  | inr a ↦ rw a refl
]

switch_node_for_user-moves_example :
    (u : User) × (to : GoString) × (get_user memory_redis conv (codes "u") db_3
      ≡ (ok (some u), db_3))
    × ((memory_redis_laws.view db_3).zset key_node_free to ≡ true)
    × (bound_user (memory_redis_laws.view db_m) to ≡ u.user_name)
    × Consistent (memory_redis_laws.view db_m)
switch_node_for_user-moves_example =
    switch_node_for_user-moves memory_redis memory_redis_laws conv call (codes "u") db_3 db_m
      db_3-Consistent moved

abbrev db_o : Memory
db_o = (set_node_offline memory_redis (codes "n1") db).1

abbrev db_f : Memory
db_f = (remove_free_node memory_redis 10 (codes "n1") db_o).1

offline : set_node_offline memory_redis (codes "n1") db ≡ (ok tt, db_o)
unfolding set_node_offline exec
offline = refl

abbrev node_o : Node
node_o = record zero_node { id = codes "n1"; ip = codes "1.2.3.4" }

found_o : get_node memory_redis conv (codes "n1") db_o ≡ (ok (some node_o), db_o)
unfolding set_node_offline save_user get_user bind_node_with_new_user bind_found unbind_node
    unbind_found switch_node_by_user switch_from switch_to add_free_node exec get_node hgetall
    load_struct is_node_online ◌>>=◌ map_to_struct load_field is_empty_map get put merge to_list
    empty str_eq node_key user_key struct_to_map struct_to_map_from format_value key_node_free
    key_node_bind key_node_online key_user_zset
found_o = refl

taken_back : remove_free_node memory_redis 10 (codes "n1") db_o ≡ (ok tt, db_f)
unfolding remove_free_node exec
taken_back = refl

handle_node_offline-binding_example :
    binding
      (memory_redis_laws.view (handle_node_offline memory_redis conv call (codes "n1") db))
      (codes "n1")
    ≡ record { user = []; bound = false; free = false; online = false }
unfolding bind_node_with_new_user bind_found unbind_node unbind_found switch_node_by_user
    switch_from switch_to add_free_node exec get_node hgetall load_struct is_node_online ◌>>=◌
    map_to_struct load_field is_empty_map get put merge to_list empty str_eq node_key user_key
    struct_to_map struct_to_map_from format_value key_node_free key_node_bind key_node_online
    key_user_zset
handle_node_offline-binding_example =
    handle_node_offline-binding memory_redis memory_redis_laws conv call (codes "n1") node_o db db_o
      db_f offline found_o refl taken_back (codes "n1")

-- The user of the conversation.
abbrev db_p : Memory
db_p = (save_user memory_redis conv (record user { password_md5 = codes "p" }) db).1

served :
    serve_socks5_conn net
      (accepts memory_redis memory_redis_laws conv (record call { now = 3 }) db_p)
      true
      peer
      conversation
    ≡ (
      ok handed_on,
      open_conn [] (5 ∷ 2 ∷ 1 ∷ 0 ∷ 5 ∷ 0 ∷ 0 ∷ 1 ∷ 97 ∷ 98 ∷ 99 ∷ 100 ∷ 4 ∷ 56 ∷ []),
    )
unfolding serve_socks5_conn authenticate offers read_auth_methods read_byte read_full
    user_pass_auth_exchange verify user_pass_auth_success write new_request read_addr_spec read_port
    handle_socks5_request handle_socks5_connect is_blocked target_address reply_socks5_client
    format_addr handle_user_auth Wire.◌>>=◌ less save_user get_user bind_node_with_new_user
    bind_found unbind_node unbind_found switch_node_by_user switch_from switch_to add_free_node exec
    get_node hgetall load_struct is_node_online ◌>>=◌ map_to_struct load_field is_empty_map get put
    merge to_list empty str_eq node_key user_key struct_to_map struct_to_map_from format_value
    key_node_free key_node_bind key_node_online key_user_zset
served = refl

serve-MayEnter_example :
    (methods : List ℕ) × (name : GoString) × (pass : GoString) × (rest : List ℕ) × (u : User)
    × (conversation.input ≡ greeting methods name pass rest)
    × (get_user memory_redis conv name db_p ≡ (ok (some u), db_p))
    × MayEnter u pass 3
    × HandedOn net name handed_on
serve-MayEnter_example =
    serve-MayEnter memory_redis memory_redis_laws conv (record call { now = 3 }) net peer db_p
      conversation _ handed_on served
