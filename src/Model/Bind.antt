-- ===== src/Model/Bind.antt =====
-- Binding of nodes to users, ippop/api/model/bind.go. `now` is time.Now().Unix() of the call.
pub mod Effects
pub mod Consistency
use titan_tunnel.Prelude.{
  ℕ, List, [], ◌∷◌, ◌++◌, Option, none, some, Result, ok, err, GoString, Bool, true, false,
  is_empty, not, ◌&&◌, if◌then◌else◌,
}
use titan_tunnel.Prelude.State.{St, pure, raise, reads, of_result, ◌>>=◌, ◌>>◌}
use titan_tunnel.Model.StructMap.{Strconv, struct_to_map}
use titan_tunnel.Model.Redis.{Redis, Cmd, hset, zadd, zrem}
use titan_tunnel.Model.Records.{
  User, Node, user_fields, node_fields, user_key, node_key, key_user_zset, key_node_bind,
  key_node_free,
}
use titan_tunnel.Model.Store.{
  ModelError, redis_failed, node_not_exist, node_already_bind, no_free_node, Action, exec, get_node,
}

module _ (redis : Redis) (now : ℕ) where
  unfoldable pub remove_free_node : GoString → Action redis (Unit {0})
  remove_free_node id = exec redis (zrem key_node_free id ∷ [])

  unfoldable pub add_free_node : GoString → Action redis (Unit {0})
  add_free_node id = exec redis (zadd key_node_free now id ∷ [])

  abbrev pub popped : Option (Option GoString) × redis.Db → Result ModelError GoString × redis.Db
  popped (none, db) = (err redis_failed, db)
  popped (some none, db) = (err no_free_node, db)
  popped (some (some id), db) = (ok id, db)

  unfoldable pub allocate_free_node : Action redis GoString
  allocate_free_node db = popped (redis.zpop_min key_node_free db)

  module _ (conv : Strconv) where
    abbrev put_node : Node → Cmd
    put_node n = hset (node_key n.id) (struct_to_map conv (node_fields n))

    abbrev put_user : User → Cmd
    put_user u = hset (user_key u.user_name) (struct_to_map conv (user_fields u))

    -- The deferred call where the binding fails after the node was read: its error is dropped.
    abbrev give_back : Node → GoString → ModelError → Action redis (Unit {0})
    give_back node id e db = if node.online then (err e, (add_free_node id db).1) else (err e, db)

    -- The transaction of BindNodeWithNewUser.
    abbrev pub bind_commands : Node → GoString → User → List Cmd
    bind_commands node id user =
        put_node (record node { bind_user = user.user_name })
        ∷ put_user user
        ∷ zadd key_user_zset now user.user_name
        ∷ zadd key_node_bind now id
        ∷ zrem key_node_free id
        ∷ []

    abbrev or_give_back :
        Node
        → GoString
        → Result ModelError (Unit {0}) × redis.Db
        → Result ModelError (Unit {0}) × redis.Db
    or_give_back node id (ok u, db) = (ok u, db)
    or_give_back node id (err e, db) = give_back node id e db

    unfoldable pub bind_found : GoString → User → Option Node → Action redis (Unit {0})
    bind_found id user none db = (err node_not_exist, db)
    bind_found id user (some node) db =
        if not (is_empty node.bind_user)
        then give_back node id node_already_bind db
        else or_give_back node id (exec redis (bind_commands node id user) db)

    unfoldable pub bind_node_with_new_user : GoString → User → Action redis (Unit {0})
    bind_node_with_new_user id user = do found ← get_node redis conv id; bind_found id user found

    abbrev pub if_online : Node → Cmd → List Cmd → List Cmd
    if_online n c cs = if n.online then c ∷ cs else cs

    -- The transaction of UnbindNode.
    abbrev pub unbind_commands : Node → GoString → List Cmd
    unbind_commands node id =
        put_node (record node { bind_user = [] })
        ∷ zrem key_node_bind id
        ∷ if_online node (zadd key_node_free now id) []

    unfoldable pub unbind_found : GoString → Option Node → Action redis (Unit {0})
    unbind_found id none = raise node_not_exist
    unbind_found id (some node) = exec redis (unbind_commands node id)

    unfoldable pub unbind_node : GoString → Action redis (Unit {0})
    unbind_node id = do found ← get_node redis conv id; unbind_found id found

    -- The transaction of SwitchNodeByUser.
    abbrev pub switch_commands : User → Node → Node → List Cmd
    switch_commands user from to =
        put_node (record from { bind_user = [] })
        ∷ zrem key_node_bind from.id
        ∷ if_online from (zadd key_node_free now from.id) (
            put_node (record to { bind_user = user.user_name })
            ∷ put_user (record user { route_node_id = to.id })
            ∷ zadd key_node_bind now to.id
            ∷ zrem key_node_free to.id
            ∷ [])

    unfoldable pub switch_to : User → Node → Option Node → Action redis (Unit {0})
    switch_to user from none = raise node_not_exist
    switch_to user from (some to) =
        if not (is_empty to.bind_user)
        then raise node_already_bind
        else exec redis (switch_commands user from to)

    unfoldable pub switch_from : User → GoString → Option Node → Action redis (Unit {0})
    switch_from user to_id none = raise node_not_exist
    switch_from user to_id (some from) = do to ← get_node redis conv to_id; switch_to user from to

    unfoldable pub switch_node_by_user : User → GoString → Action redis (Unit {0})
    switch_node_by_user user to_id = do
      from ← get_node redis conv user.route_node_id
      switch_from user to_id from
