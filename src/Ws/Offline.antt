-- ===== src/Ws/Offline.antt =====
-- What happens when the tunnel of a node ends: handleNodeOffline and swithNodeForUser of
-- ippop/api/ws/tunmgr.go. The user cache, from which the user is then dropped, is not modelled.
pub mod Moves
use titan_tunnel.Prelude.{
  ℕ, Option, none, some, Result, ok, err, GoString, Bool, true, false, is_empty, not, if◌then◌else◌,
}
use titan_tunnel.Prelude.State.{St, ◌>>=◌}
use titan_tunnel.Model.StructMap.{Strconv}
use titan_tunnel.Model.Redis.{Redis}
use titan_tunnel.Model.Records.{User, Node}
use titan_tunnel.Model.Store.{ModelError, Action, get_user, get_node, set_node_offline}
use titan_tunnel.Model.Bind.{allocate_free_node, remove_free_node}
use titan_tunnel.Rpc.Users.{Call, existing}
use titan_tunnel.Rpc.Routes.{switch_or_free}

module _ (redis : Redis) (conv : Strconv) (call : Call) where
  unfoldable pub switch_node_for_user : GoString → Action redis (Unit {0})
  switch_node_for_user name = do
    found ← get_user redis conv name
    user ← existing redis conv call found
    id ← allocate_free_node redis call.now
    switch_or_free redis conv call user id

  -- Errors are only logged.
  abbrev pub leave_node : GoString → Result ModelError (Option Node) → redis.Db → redis.Db
  leave_node id (err e) db = db
  leave_node id (ok none) db = db
  leave_node id (ok (some node)) db =
      if not (is_empty node.bind_user)
      then (switch_node_for_user node.bind_user db).1
      else (remove_free_node redis call.now id db).1

  abbrev pub after_offline : GoString → redis.Db → redis.Db
  after_offline id db = leave_node id (get_node redis conv id db).0 (get_node redis conv id db).1

  unfoldable pub handle_node_offline : GoString → redis.Db → redis.Db
  handle_node_offline id db = after_offline id (set_node_offline redis id db).1
