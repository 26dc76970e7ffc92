-- ===== src/Ws/Offline/Moves.antt =====
-- Where the user of a node goes whose tunnel of ippop/api/ws has ended.
use titan_tunnel.Prelude.{
  [], ◌∷◌, some, ok, GoString, true, false, is_empty, str_eq, str_eq_refl, if◌then◌else◌, ◌≡◌, inl,
  inr, refl, ap, ◌∙◌, arith, Bool-cases,
}
use titan_tunnel.Prelude.State.{after}
use titan_tunnel.Model.StructMap.{Strconv}
use titan_tunnel.Model.Redis.{Redis, RedisLaws, View, srem, zrem, apply}
use titan_tunnel.Model.Records.{User, Node, key_node_free, key_node_online}
use titan_tunnel.Model.Store.{get_user, get_node, set_node_offline}
use titan_tunnel.Model.Store.Nodes.{bound_user}
use titan_tunnel.Model.Bind.{allocate_free_node, remove_free_node, switch_node_by_user}
use titan_tunnel.Model.Bind.Effects.{binding, binding-zrem_free}
use titan_tunnel.Model.Bind.Consistency.{
  Consistent, exec-view, switch, run_op-Consistent, switch_node-binding,
}
use titan_tunnel.Rpc.Users.{Call}
use titan_tunnel.Rpc.Users.Success.{existing-ok}
use titan_tunnel.Rpc.Users.Create.{allocate-binding, allocate-Consistent}
use titan_tunnel.Rpc.Routes.Keeps.{switch_or_free-ok}
use titan_tunnel.Ws.Offline.{switch_node_for_user, handle_node_offline}

binding-srem_online :
    (v : View) (id x : GoString)
    → binding (apply (srem key_node_online id) v) x
      ≡ (if str_eq id x then record (binding v x) { online = false } else binding v x)
unfolding key_node_online str_eq
binding-srem_online v id x = elim (Bool-cases (str_eq id x)) [
  | inl a ↦ rw a refl
  | inr a ↦ rw a refl
]

module _ (redis : Redis) (laws : RedisLaws redis) (conv : Strconv) (call : Call) where
  switch_node-user :
      (u : User) (to : GoString) (db db' : redis.Db)
      → switch_node_by_user redis call.now conv u to db ≡ (ok tt, db')
      → bound_user (laws.view db') to ≡ u.user_name
  switch_node-user u to db db' h =
      let k = (switch_node-binding redis laws conv call.now u to db db' h).1 to in
      ap (λ b. b.user) k ∙ rw (str_eq_refl to) refl

  -- swithNodeForUser that succeeds has found the user and given it a node that was free; every
  -- node is then still free, bound or neither, if it was before.
  pub switch_node_for_user-moves :
      (name : GoString) (db db' : redis.Db)
      → Consistent (laws.view db)
      → switch_node_for_user redis conv call name db ≡ (ok tt, db')
      → (u : User) × (to : GoString) × (get_user redis conv name db ≡ (ok (some u), db))
        × ((laws.view db).zset key_node_free to ≡ true)
        × (bound_user (laws.view db') to ≡ u.user_name)
        × Consistent (laws.view db')
  unfolding switch_node_for_user
  switch_node_for_user-moves name db db' c h = after _ _ db db' tt h (λ found s1 e1 h1.
      after _ _ s1 db' tt h1 (λ user s2 e2 h2. after _ _ s2 db' tt h2 (λ to s3 e3 h3.
        let (a2, a3) = existing-ok redis laws conv call name user found db s1 s2 e1 e2 in
        let e4 : allocate_free_node redis call.now db ≡ (ok to, s3) = cc (e3, a2) in
        let k = switch_or_free-ok redis laws conv call user to s3 db' h3 in
        (
          user,
          to,
          a3,
          (allocate-binding redis laws conv call to db s3 e4).0,
          switch_node-user user to s3 db' k,
          run_op-Consistent redis laws conv call.now (switch user to) s3 db'
              (allocate-Consistent redis laws conv call to db s3 c e4) k,
        ))))

  offline_unbound :
      (id : GoString) (n : Node) (db s db' : redis.Db)
      → set_node_offline redis id db ≡ (ok tt, s)
      → get_node redis conv id s ≡ (ok (some n), s)
      → is_empty n.bind_user ≡ true
      → remove_free_node redis call.now id s ≡ (ok tt, db')
      → handle_node_offline redis conv call id db ≡ db'
  unfolding handle_node_offline
  offline_unbound id n db s db' a b c d = ground arith

  -- A node without a user whose tunnel ends is neither online nor free, if Redis takes both
  -- commands and finds the node in between, and no other node's binding changes.
  pub handle_node_offline-binding :
      (id : GoString) (n : Node) (db s db' : redis.Db)
      → set_node_offline redis id db ≡ (ok tt, s)
      → get_node redis conv id s ≡ (ok (some n), s)
      → is_empty n.bind_user ≡ true
      → remove_free_node redis call.now id s ≡ (ok tt, db')
      → (x : GoString)
      → binding (laws.view (handle_node_offline redis conv call id db)) x ≡ (
          if str_eq id x
          then record (binding (laws.view db) x) { free = false; online = false }
          else binding (laws.view db) x)
  unfolding set_node_offline remove_free_node
  handle_node_offline-binding id n db s db' a b c d x =
      let e = exec-view redis laws conv call.now (srem key_node_online id ∷ []) db s a in
      let f = exec-view redis laws conv call.now (zrem key_node_free id ∷ []) s db' d in
      let g : handle_node_offline redis conv call id db ≡ db' =
        offline_unbound id n db s db' a b c d in
      let k = binding-zrem_free (laws.view s) id x in
      let l = ap (λ w. binding w x) e ∙ binding-srem_online (laws.view db) id x in
      ap (λ w. binding (laws.view w) x) g
      ∙ ap (λ w. binding w x) f
      ∙ k
      ∙ elim (Bool-cases (str_eq id x)) [ inl p ↦ ground arith | inr p ↦ ground arith ]
