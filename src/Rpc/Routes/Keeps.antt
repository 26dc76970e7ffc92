-- ===== src/Rpc/Routes/Keeps.antt =====
-- The bindings that the database holds after a request of ippop/rpc/internal/logic.
use titan_tunnel.Prelude.{
  [], ◌∷◌, Option, none, some, ok, GoString, codes, is_empty, str_eq, ◌≡◌, inl, inr, sym, ap, ◌∙◌,
  subst, arith, Bool-cases, Result-cases, Option-cases,
}
use titan_tunnel.Prelude.State.{pure, raise, ◌>>◌, after}
use titan_tunnel.Model.StructMap.{Strconv, struct_to_map}
use titan_tunnel.Model.Redis.{Redis, RedisLaws, hset}
use titan_tunnel.Model.Records.{
  User, Node, user_key, node_key, key_user_zset, key_node_free, key_node_bind, key_node_online,
  user_fields,
}
use titan_tunnel.Model.Store.{save_user, delete_user}
use titan_tunnel.Model.Bind.{switch_node_by_user}
use titan_tunnel.Model.Bind.Effects.{binding, is_consistent}
use titan_tunnel.Model.Bind.Consistency.{Consistent, exec-view, unbind, switch, run_op-Consistent}
use titan_tunnel.Rpc.Users.{Call, modify_user, remove_user, modified, unbind_route}
use titan_tunnel.Rpc.Users.Success.{
  modify_checked-ok, remove_user-ok, existing-ok, get_node-same, delete_user_cache-ok,
}
use titan_tunnel.Rpc.Users.Create.{create_user-Consistent, allocate-Consistent}
use titan_tunnel.Rpc.Users.Changes.{
  delete_user-view, start_or_stop_user-ok, modify_user_password-ok,
}
use titan_tunnel.Rpc.Routes.{
  Request, create, modify, remove, switch_node, start_or_stop, set_password, serve_request,
  chosen_node, check_node, check_usable, switch_or_free, switch_user_route_node,
}

module _ (redis : Redis) (laws : RedisLaws redis) (conv : Strconv) (call : Call) where
  Consistent-same :
      (db db' : redis.Db)
      → Consistent (laws.view db)
      → ((x : GoString) → binding (laws.view db') x ≡ binding (laws.view db) x)
      → Consistent (laws.view db')
  Consistent-same db db' c e x = ap is_consistent (e x) ∙ c x

  save_user-Consistent :
      (u : User) (db db' : redis.Db)
      → Consistent (laws.view db)
      → save_user redis conv u db ≡ (ok tt, db')
      → Consistent (laws.view db')
  unfolding save_user node_key user_key str_eq
  save_user-Consistent u db db' c h = Consistent-same db db' c (λ x.
      ap (λ w. binding w x)
        (exec-view redis laws conv call.now
          (hset (user_key u.user_name) (struct_to_map conv (user_fields u)) ∷ []) db db' h))

  delete_user-Consistent :
      (name : GoString) (db db' : redis.Db)
      → Consistent (laws.view db)
      → delete_user redis name db ≡ (ok tt, db')
      → Consistent (laws.view db')
  unfolding node_key user_key str_eq key_user_zset key_node_free key_node_bind key_node_online
  delete_user-Consistent name db db' c h =
      Consistent-same db db' c
        (λ x. ap (λ w. binding w x) (delete_user-view redis laws conv call name db db' h))

  unbind_route-Consistent :
      (u : User) (db db' : redis.Db)
      → Consistent (laws.view db)
      → unbind_route redis conv call u db ≡ (ok tt, db')
      → Consistent (laws.view db')
  unfolding pure
  unbind_route-Consistent u db db' c h = elim (Bool-cases (is_empty u.route_node_id)) [
    | inl a ↦ subst (λ s. Consistent (laws.view s)) (ground arith) c
    | inr a ↦
        run_op-Consistent redis laws conv call.now (unbind u.route_node_id) db db' c (ground arith)
  ]

  check_usable-ok :
      (o : Option Node) (db db' : redis.Db)
      → check_usable redis conv call o db ≡ (ok tt, db')
      → db' ≡ db
  unfolding raise pure
  check_usable-ok none db db' h = ground arith
  check_usable-ok (some n) db db' h = ground arith

  check_node-ok :
      (id : GoString) (db db' : redis.Db)
      → check_node redis conv call id db ≡ (ok tt, db')
      → db' ≡ db
  unfolding check_node
  check_node-ok id db db' h = after _ _ db db' tt h (λ got s e g.
      check_usable-ok got s db' g
      ∙ ap (λ p. p.1) (sym e)
      ∙ get_node-same redis laws conv call id db)

  chosen_node-Consistent :
      (want id : GoString) (db db' : redis.Db)
      → Consistent (laws.view db)
      → chosen_node redis conv call want db ≡ (ok id, db')
      → Consistent (laws.view db')
  unfolding pure
  chosen_node-Consistent want id db db' c h = elim (Bool-cases (is_empty want)) [
    | inl a ↦ allocate-Consistent redis laws conv call id db db' c (ground arith)
    | inr a ↦ checked (ground arith)
  ]
    where
      checked :
          (check_node redis conv call want >> pure want) db ≡ (ok id, db')
          → Consistent (laws.view db')
      checked k = after _ _ db db' id k (λ t s e g.
          subst (λ s. Consistent (laws.view s))
            (sym (ap (λ p. p.1) (sym g) ∙ check_node-ok want db s e)) c)

  pub switch_or_free-ok :
      (u : User) (id : GoString) (db db' : redis.Db)
      → switch_or_free redis conv call u id db ≡ (ok tt, db')
      → switch_node_by_user redis call.now conv u id db ≡ (ok tt, db')
  switch_or_free-ok u id db db' h =
      elim (Result-cases (switch_node_by_user redis call.now conv u id db).0) [
        | inl (e, a) ↦ ground arith
        | inr (t, a) ↦ ground arith
      ]

  switch_user-Consistent :
      (name id : GoString) (db db' : redis.Db)
      → Consistent (laws.view db)
      → switch_user_route_node redis conv call name id db ≡ (ok tt, db')
      → Consistent (laws.view db')
  unfolding switch_user_route_node
  switch_user-Consistent name id db db' c h = after _ _ db db' tt h (λ found s1 e1 h1.
      after _ _ s1 db' tt h1 (λ user s2 e2 h2. after _ _ s2 db' tt h2 (λ to s3 e3 h3.
        after _ _ s3 db' tt h3 (λ t s4 e4 h4.
          let (a2, _) = existing-ok redis laws conv call name user found db s1 s2 e1 e2 in
          let a4 = delete_user_cache-ok redis laws conv call name s4 db' h4 in
          let c2 : Consistent (laws.view s2) = subst (λ s. Consistent (laws.view s)) (sym a2) c in
          run_op-Consistent redis laws conv call.now (switch user to) s3 db'
            (chosen_node-Consistent id to s2 s3 c2 e3)
            (cc (switch_or_free-ok user to s3 s4 e4, a4))))))

  -- A request that succeeds, whichever of the six, keeps every node free, bound or neither, with a
  -- user only if it is bound.
  pub serve_request-Consistent :
      (req : Request) (db db' : redis.Db)
      → Consistent (laws.view db)
      → serve_request redis conv call req db ≡ (ok tt, db')
      → Consistent (laws.view db')
  unfolding modify_user remove_user raise pure
  serve_request-Consistent (create req) db db' c h = after _ _ db db' tt h (λ resp s e g.
      create_user-Consistent redis laws conv call req resp db db' c (cc (e, ap (λ p. p.1) g)))
  serve_request-Consistent (modify req) db db' c h = elim (Option-cases req.traffic_limit) [
    | inl n ↦ ground arith
    | inr (limit, n) ↦ elim (Option-cases req.route) [
      | inl m ↦ ground arith
      | inr (route, m) ↦
          let (user, o, f, k) =
            modify_checked-ok redis laws conv call req.user_name limit route db db'
              (ground arith) in
          run_op-Consistent redis laws conv call.now
            (switch (modified redis conv call user limit route) route.node_id) db db' c k
    ]
  ]
  serve_request-Consistent (remove name) db db' c h =
      let (u, s, a, b, d) = remove_user-ok redis laws conv call name db db' h in
      unbind_route-Consistent u s db' (delete_user-Consistent name db s c b) d
  serve_request-Consistent (switch_node name id) db db' c h =
      switch_user-Consistent name id db db' c h
  serve_request-Consistent (start_or_stop name action) db db' c h =
      let (u, a, b) = start_or_stop_user-ok redis laws conv call name action db db' h in
      save_user-Consistent (record u { off = str_eq action (codes "stop") }) db db' c b
  serve_request-Consistent (set_password name password) db db' c h =
      let (u, a, b) = modify_user_password-ok redis laws conv call name password db db' h in
      save_user-Consistent (record u { password_md5 = call.md5_hex password }) db db' c b
