-- ===== src/Model/Bind/Consistency.antt =====
-- The operations of ippop/api/model/bind.go and the bindings that the database holds.
use titan_tunnel.Prelude.{
  ℕ, List, [], ◌∷◌, some, Result, ok, err, GoString, true, false, is_empty, is_empty-nil, ◌||◌,
  if◌then◌else◌, ◌≡◌, inl, inr, arith, str_eq, str_eq_refl, ◌∙◌, sym, ap, Bool-cases, Result-cases,
}
use titan_tunnel.Prelude.State.{raise, ◌>>=◌}
use titan_tunnel.Model.StructMap.{Strconv}
use titan_tunnel.Model.Redis.{Redis, RedisLaws, View, Cmd, zadd, apply_all}
use titan_tunnel.Model.Records.{Node, User, key_node_free, key_node_online}
use titan_tunnel.Model.Store.{ModelError, node_already_bind, exec, get_node}
use titan_tunnel.Model.Store.Nodes.{bound_user, Agrees, get_node-cases}
use titan_tunnel.Model.Bind.{
  bind_commands, unbind_commands, switch_commands, bind_found, bind_node_with_new_user,
  unbind_found, unbind_node, switch_to, switch_from, switch_node_by_user, add_free_node,
}
use titan_tunnel.Model.Bind.Effects.{
  Binding, binding, is_consistent, binding-zadd_free, binding-bind_commands,
  binding-unbind_commands, binding-switch_commands,
}

-- Every node is bound, free or neither, and only a bound node has a user.
abbrev pub Consistent : View → Type 0
Consistent v = (id : GoString) → is_consistent (binding v id) ≡ true

module _ (redis : Redis) (laws : RedisLaws redis) (conv : Strconv) (now : ℕ) where
  pub exec-view :
      (cs : List Cmd) (db db' : redis.Db)
      → exec redis cs db ≡ (ok tt, db')
      → laws.view db' ≡ apply_all cs (laws.view db)
  unfolding exec
  exec-view cs db db' h = laws.exec_ok cs db db' (ground arith)

  bind_found-ok :
      (id : GoString) (u : User) (n : Node) (db db' : redis.Db)
      → bind_found redis now conv id u (some n) db ≡ (ok tt, db')
      → (n.bind_user ≡ []) × (exec redis (bind_commands redis now conv n id u) db ≡ (ok tt, db'))
  unfolding bind_found
  bind_found-ok id u n db db' h = elim (Bool-cases (is_empty n.bind_user)) [
    | inl a ↦ elim (Result-cases (exec redis (bind_commands redis now conv n id u) db).0) [
      | inl (e, c) ↦ elim (Bool-cases n.online) [ inl b ↦ ground arith | inr b ↦ ground arith ]
      | inr (t, c) ↦ (is_empty-nil n.bind_user a, ground arith)
    ]
    | inr a ↦ elim (Bool-cases n.online) [ inl b ↦ ground arith | inr b ↦ ground arith ]
  ]

  -- The node that a successful call has found, and its transaction.
  pub bind_node-ok :
      (id : GoString) (u : User) (db db' : redis.Db)
      → bind_node_with_new_user redis now conv id u db ≡ (ok tt, db')
      → (n : Node) × Agrees (laws.view db) id n
        × (n.bind_user ≡ [])
        × (laws.view db' ≡ apply_all (bind_commands redis now conv n id u) (laws.view db))
  unfolding bind_node_with_new_user bind_found ◌>>=◌
  bind_node-ok id u db db' h = elim (get_node-cases redis laws conv id db) [
    | inl (e, a) ↦ ground arith
    | inr (inl a) ↦ ground arith
    | inr (inr (n, a, g)) ↦
        let (c, d) = bind_found-ok id u n db db' (ground arith) in
        (n, g, c, exec-view (bind_commands redis now conv n id u) db db' d)
  ]

  pub unbind_node-ok :
      (id : GoString) (db db' : redis.Db)
      → unbind_node redis now conv id db ≡ (ok tt, db')
      → (n : Node) × Agrees (laws.view db) id n
        × (laws.view db' ≡ apply_all (unbind_commands redis now conv n id) (laws.view db))
  unfolding unbind_node unbind_found ◌>>=◌
  unbind_node-ok id db db' h = elim (get_node-cases redis laws conv id db) [
    | inl (e, a) ↦ ground arith
    | inr (inl a) ↦ ground arith
    | inr (inr (n, a, g)) ↦
        (n, g, exec-view (unbind_commands redis now conv n id) db db' (ground arith))
  ]

  switch_to-ok :
      (u : User) (from to : Node) (db db' : redis.Db)
      → switch_to redis now conv u from (some to) db ≡ (ok tt, db')
      → (to.bind_user ≡ [])
        × (exec redis (switch_commands redis now conv u from to) db ≡ (ok tt, db'))
  unfolding switch_to raise
  switch_to-ok u from to db db' h = elim (Bool-cases (is_empty to.bind_user)) [
    | inl a ↦ (is_empty-nil to.bind_user a, ground arith)
    | inr a ↦ ground arith
  ]

  switch_node-ok :
      (u : User) (to_id : GoString) (db db' : redis.Db)
      → switch_node_by_user redis now conv u to_id db ≡ (ok tt, db')
      → (from : Node) × (to : Node) × Agrees (laws.view db) u.route_node_id from
        × Agrees (laws.view db) to_id to
        × (to.bind_user ≡ [])
        × (laws.view db' ≡ apply_all (switch_commands redis now conv u from to) (laws.view db))
  unfolding switch_node_by_user switch_from switch_to ◌>>=◌
  switch_node-ok u to_id db db' h = elim (get_node-cases redis laws conv u.route_node_id db) [
    | inl (e, a) ↦ ground arith
    | inr (inl a) ↦ ground arith
    | inr (inr (from, a, f)) ↦ elim (get_node-cases redis laws conv to_id db) [
      | inl (e, b) ↦ ground arith
      | inr (inl b) ↦ ground arith
      | inr (inr (to, b, g)) ↦
          let (c, d) = switch_to-ok u from to db db' (ground arith) in
          (from, to, f, g, c, exec-view (switch_commands redis now conv u from to) db db' d)
    ]
  ]

  -- BindNodeWithNewUser that succeeds was called on a node that no user had; the user then has it,
  -- it is bound and no longer free, and no other node's binding changes.
  pub bind_node-binding :
      (id : GoString) (u : User) (db db' : redis.Db)
      → bind_node_with_new_user redis now conv id u db ≡ (ok tt, db')
      → (bound_user (laws.view db) id ≡ [])
        × ((x : GoString)
            → binding (laws.view db') x ≡ (
                if str_eq id x
                then record (binding (laws.view db) x) {
                  user = u.user_name;
                  bound = true;
                  free = false;
                }
                else binding (laws.view db) x))
  bind_node-binding id u db db' h =
      let (n, (i, b, o), c, e) = bind_node-ok id u db db' h in
      (
        sym b ∙ c,
        λ x.
            let k = binding-bind_commands conv now redis (laws.view db) n x u in
            ap (λ w. binding w x) e ∙ ground arith,
      )

  -- UnbindNode that succeeds leaves the node without a user and unbound; it is free then if it is
  -- online, and no other node's binding changes.
  pub unbind_node-binding :
      (id : GoString) (db db' : redis.Db)
      → unbind_node redis now conv id db ≡ (ok tt, db')
      → (x : GoString)
      → binding (laws.view db') x ≡ (
          if str_eq id x
          then record (binding (laws.view db) x) {
            user = [];
            bound = false;
            free = (binding (laws.view db) id).online || (binding (laws.view db) x).free;
          }
          else binding (laws.view db) x)
  unbind_node-binding id db db' h x =
      let (n, (i, b, o), e) = unbind_node-ok id db db' h in
      let k = binding-unbind_commands conv now redis (laws.view db) n x in
      ap (λ w. binding w x) e ∙ ground arith

  -- SwitchNodeByUser that succeeds was called with a new node that no user had. The user has the
  -- new node, the old one is unbound and, if it is online, free; no other binding changes.
  pub switch_node-binding :
      (u : User) (to_id : GoString) (db db' : redis.Db)
      → switch_node_by_user redis now conv u to_id db ≡ (ok tt, db')
      → (bound_user (laws.view db) to_id ≡ [])
        × ((x : GoString)
            → binding (laws.view db') x ≡ (
                if str_eq to_id x
                then record (binding (laws.view db) x) {
                  user = u.user_name;
                  bound = true;
                  free = false;
                }
                else if str_eq u.route_node_id x
                then record (binding (laws.view db) x) {
                  user = [];
                  bound = false;
                  free =
                      (binding (laws.view db) u.route_node_id).online
                      || (binding (laws.view db) x).free;
                }
                else binding (laws.view db) x))
  switch_node-binding u to_id db db' h =
      let (from, to, (i, b, o), (i', b', o'), c, e) = switch_node-ok u to_id db db' h in
      (
        sym b' ∙ c,
        λ x.
            let k = binding-switch_commands conv now redis (laws.view db) u from to x in
            ap (λ w. binding w x) e ∙ ground arith,
      )

  -- The calls of the service that change a binding.
  pub data BindOp : Type 0 where
    bind : GoString → User → BindOp
    unbind : GoString → BindOp
    switch : User → GoString → BindOp

  abbrev pub run_op : BindOp → redis.Db → Result ModelError (Unit {0}) × redis.Db
  run_op (bind id u) = bind_node_with_new_user redis now conv id u
  run_op (unbind id) = unbind_node redis now conv id
  run_op (switch u to_id) = switch_node_by_user redis now conv u to_id

  -- A call that succeeds keeps every node free, bound or neither, with a user only if it is bound.
  pub run_op-Consistent :
      (op : BindOp) (db db' : redis.Db)
      → Consistent (laws.view db)
      → run_op op db ≡ (ok tt, db')
      → Consistent (laws.view db')
  run_op-Consistent (bind id u) db db' c h x =
      let k = (bind_node-binding id u db db' h).1 x in
      let v = c x in elim (Bool-cases (str_eq id x)) [ inl a ↦ ground arith | inr a ↦ ground arith ]
  run_op-Consistent (unbind id) db db' c h x =
      let k = unbind_node-binding id db db' h x in
      let v = c x in elim (Bool-cases (str_eq id x)) [ inl a ↦ ground arith | inr a ↦ ground arith ]
  run_op-Consistent (switch u to_id) db db' c h x =
      let k = (switch_node-binding u to_id db db' h).1 x in
      let v = c x in
      elim (Bool-cases (str_eq to_id x)) [
        | inl a ↦ ground arith
        | inr a ↦ elim (Bool-cases (str_eq u.route_node_id x)) [
          | inl b ↦ ground arith
          | inr b ↦ ground arith
        ]
      ]

  -- A node of a user is offered for free once more: BindNodeWithNewUser of a node that has a user
  -- and is online refuses it, and gives it back to the free nodes all the same, so that the next
  -- AllocateFreeNode may return it. This supposes that the database answers and takes the ZADD.
  pub bind_node-bound :
      (id : GoString) (u : User) (n : Node) (db db' : redis.Db)
      → get_node redis conv id db ≡ (ok (some n), db)
      → is_empty (bound_user (laws.view db) id) ≡ false
      → (laws.view db).set key_node_online id ≡ true
      → add_free_node redis now id db ≡ (ok tt, db')
      → (bind_node_with_new_user redis now conv id u db ≡ (err node_already_bind, db'))
        × ((laws.view db').zset key_node_free id ≡ true)
        × (is_consistent (binding (laws.view db') id) ≡ false)
  unfolding bind_node_with_new_user bind_found add_free_node ◌>>=◌
  bind_node-bound id u n db db' h s o a = elim (get_node-cases redis laws conv id db) [
    | inl (e, b) ↦ ground arith
    | inr (inl b) ↦ ground arith
    | inr (inr (m, b, g)) ↦
        let e = exec-view (zadd key_node_free now id ∷ []) db db' a in
        let k = ap (λ w. binding w id) e ∙ binding-zadd_free now (laws.view db) id id in
        (
          ground arith,
          ap Binding.free k ∙ ground (arith, str_eq_refl id),
          ap is_consistent k ∙ ground (arith, str_eq_refl id),
        )
  ]
