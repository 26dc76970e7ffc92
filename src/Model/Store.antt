-- ===== src/Model/Store.antt =====
-- Reading and writing users and nodes, ippop/api/model/user.go and node.go.
pub mod Hashes
pub mod Users
pub mod Nodes
use titan_tunnel.Prelude.{
  ℕ, List, [], ◌∷◌, Option, none, some, Result, ok, err, GoString, codes, Bool, true, false,
  if◌then◌else◌,
}
use titan_tunnel.Prelude.Maps.{empty, put, is_empty_map}
use titan_tunnel.Prelude.State.{St, pure, raise, reads, of_result, ◌>>=◌, ◌>>◌}
use titan_tunnel.Model.StructMap.{
  Strconv, StructError, StructField, Hash, struct_to_map, map_to_struct,
}
use titan_tunnel.Model.Redis.{Redis, Cmd, hset, zadd, zrem, sadd, srem, del}
use titan_tunnel.Model.Records.{
  User, Node, user_fields, node_fields, user_of_fields, node_of_fields, zero_user, zero_node,
  user_key, node_key, key_user_zset, key_node_zset, key_node_online, key_node_free,
}

pub data ModelError : Type 0 where
  redis_failed invalid_field invalid_time : ModelError
  node_not_exist node_already_bind no_free_node : ModelError
  user_not_exist user_already_exist : ModelError
  route_is_empty invalid_route_mode invalid_traffic_time traffic_out_of_date : ModelError
  invalid_total_traffic traffic_not_allow user_already_bind node_offline : ModelError
  invalid_action cache_failed : ModelError
  user_off password_not_match user_out_of_date user_out_of_traffic : ModelError

module _ (redis : Redis) where
  abbrev pub Action {ℓ} : Type ℓ → Type ℓ
  Action A = St ModelError redis.Db A

  abbrev executed : Bool × redis.Db → Result ModelError (Unit {0}) × redis.Db
  executed (true, db) = (ok tt, db)
  executed (false, db) = (err redis_failed, db)

  -- One write, or a transaction.
  unfoldable pub exec : List Cmd → Action (Unit {0})
  exec cs db = executed (redis.exec cs db)

  abbrev found {ℓ} : {A : Type ℓ} → Option A → Result ModelError A
  found none = err redis_failed
  found (some a) = ok a

  unfoldable pub hgetall : GoString → Action Hash
  unfolding reads
  hgetall key = reads (λ db. found (redis.hgetall key db))

  unfoldable pub is_node_online : GoString → Action Bool
  unfolding reads
  is_node_online id = reads (λ db. found (redis.sismember key_node_online id db))

  unfoldable pub set_node_online : GoString → Action (Unit {0})
  set_node_online id = exec (sadd key_node_online id ∷ [])

  unfoldable pub set_node_offline : GoString → Action (Unit {0})
  set_node_offline id = exec (srem key_node_online id ∷ [])

  -- TODO in the source: two commands, not a transaction
  unfoldable pub delete_user : GoString → Action (Unit {0})
  delete_user name = do exec (del (user_key name) ∷ []); exec (zrem key_user_zset name ∷ [])

  unfoldable pub delete_node_online_data : Action (Unit {0})
  delete_node_online_data = do exec (del key_node_online ∷ []); exec (del key_node_free ∷ [])

  module _ (conv : Strconv) where
    abbrev loaded : Result StructError (List StructField) → Result ModelError (List StructField)
    loaded (ok fs) = ok fs
    loaded (err e) = err invalid_field

    unfoldable pub load_struct : Hash → List StructField → Action (List StructField)
    unfolding of_result
    load_struct m fs = of_result (loaded (map_to_struct conv m fs))

    unfoldable pub save_user : User → Action (Unit {0})
    save_user user =
        exec (hset (user_key user.user_name) (struct_to_map conv (user_fields user)) ∷ [])

    -- none is nil: the user does not exist
    unfoldable pub get_user : GoString → Action (Option User)
    get_user name = do
      m ← hgetall (user_key name)
      if is_empty_map m
          then pure none
          else (do fs ← load_struct m (user_fields zero_user); pure (some (user_of_fields fs)))

    unfoldable pub save_node : Node → Action (Unit {0})
    save_node node = exec (hset (node_key node.id) (struct_to_map conv (node_fields node)) ∷ [])

    unfoldable pub get_node : GoString → Action (Option Node)
    get_node id = do
      m ← hgetall (node_key id)
      if is_empty_map m then pure none else (do
        fs ← load_struct m (node_fields zero_node)
        online ← is_node_online id
        pure (some (node_of_fields id online fs)))

    -- `parse_time` is time.Parse with the layout of the source: a Unix time, none for an error.
    unfoldable pub set_node_and_zadd : (GoString → Option ℕ) → Node → Action (Unit {0})
    set_node_and_zadd parse_time node = elim (parse_time node.register_at) [
      | none ↦ raise invalid_time
      | some t ↦ exec (
          hset (node_key node.id) (struct_to_map conv (node_fields node))
          ∷ zadd key_node_zset t node.id
          ∷ [])
    ]

    -- `format_uint` is fmt.Sprintf("%d", delay) of a uint64.
    unfoldable pub set_node_net_delay : (ℕ → GoString) → GoString → ℕ → Action (Unit {0})
    set_node_net_delay format_uint id delay =
        exec (hset (node_key id) (put empty (codes "net_delay") (format_uint delay)) ∷ [])
