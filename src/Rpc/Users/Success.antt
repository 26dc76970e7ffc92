-- ===== src/Rpc/Users/Success.antt =====
-- What the methods of ippop/rpc/internal/logic that succeed have done to the database.
use titan_tunnel.Prelude.{
  [], ◌∷◌, Option, none, some, ok, GoString, false, is_empty, str_eq, ◌≡◌, inl, inr, refl, sym, ap,
  ◌∙◌, arith, Bool-cases, Result-cases, Option-cases,
}
use titan_tunnel.Prelude.Maps.{is_empty_map}
use titan_tunnel.Prelude.State.{pure, raise, ◌>>=◌, bind_ok, after}
use titan_tunnel.Model.StructMap.{Strconv, map_to_struct}
use titan_tunnel.Model.Redis.{Redis, RedisLaws}
use titan_tunnel.Model.Records.{User, Node, user_key, user_fields, zero_user}
use titan_tunnel.Model.Store.{
  ModelError, hgetall, load_struct, get_user, get_node, save_user, delete_user,
}
use titan_tunnel.Model.Store.Nodes.{get_node-cases}
use titan_tunnel.Model.Bind.{bind_node_with_new_user, switch_node_by_user}
use titan_tunnel.Rpc.Checks.{
  Route, TrafficLimit, is_invalid_route_mode, check_route, check_traffic, check_node_unused,
}
use titan_tunnel.Rpc.Users.{
  CreateUserReq, CreateUserResp, Call, new_user, route_of, create_user, delete_user_cache,
  remove_user, absent, existing, existing_node, check_optional_route, check_optional_traffic,
  node_for, non_empty, created, another_node, modify_checked, modified, unbind_route, save_and_drop,
}

module _ (redis : Redis) (laws : RedisLaws redis) (conv : Strconv) (call : Call) where
  pub get_user-same : (name : GoString) (db : redis.Db) → (get_user redis conv name db).1 ≡ db
  unfolding get_user hgetall load_struct ◌>>=◌
  get_user-same name db = elim (Option-cases (redis.hgetall (user_key name) db)) [
    | inl a ↦ ground arith
    | inr (m, a) ↦ elim (Bool-cases (is_empty_map m)) [
      | inl b ↦ ground arith
      | inr b ↦ elim (Result-cases (map_to_struct conv m (user_fields zero_user))) [
        | inl (e, c) ↦ ground arith
        | inr (fs, c) ↦ ground arith
      ]
    ]
  ]

  pub get_node-same : (id : GoString) (db : redis.Db) → (get_node redis conv id db).1 ≡ db
  get_node-same id db = elim (get_node-cases redis laws conv id db) [
    | inl (e, a) ↦ ap (λ r. r.1) a
    | inr (inl a) ↦ ap (λ r. r.1) a
    | inr (inr (n, a, g)) ↦ ap (λ r. r.1) a
  ]

  check_node_unused-same : (o : Option Node) (db : redis.Db) → (check_node_unused redis o db).1 ≡ db
  unfolding raise pure
  check_node_unused-same none db = refl
  check_node_unused-same (some n) db = elim (Bool-cases (is_empty n.bind_user)) [
    | inl a ↦ rw a refl
    | inr a ↦ rw a refl
  ]

  pub check_route-ok :
      (o : Option Route) (db db' : redis.Db) → check_route redis conv o db ≡ (ok tt, db') → db' ≡ db
  unfolding check_route raise pure
  check_route-ok none db db' h = ground arith
  check_route-ok (some r) db db' h = elim (Bool-cases (is_invalid_route_mode r.mode)) [
    | inl a ↦ ground arith
    | inr a ↦ elim (Bool-cases (is_empty r.node_id)) [
      | inl b ↦ ground arith
      | inr b ↦
          let (o, s, e, g) =
            bind_ok (get_node redis conv r.node_id) (check_node_unused redis) db db' tt
              (ground arith) in
          let k = ap (λ p. p.1) e in
          let l = get_node-same r.node_id db in let p = check_node_unused-same o s in ground arith
    ]
  ]

  pub check_traffic-ok :
      (limit : TrafficLimit) (db db' : redis.Db)
      → check_traffic redis call.now limit db ≡ (ok tt, db')
      → db' ≡ db
  unfolding check_traffic raise pure
  check_traffic-ok limit db db' h = ground arith

  check_optional_route-ok :
      (o : Option Route) (db db' : redis.Db)
      → check_optional_route redis conv call o db ≡ (ok tt, db')
      → db' ≡ db
  unfolding pure
  check_optional_route-ok none db db' h = ground arith
  check_optional_route-ok (some r) db db' h = check_route-ok (some r) db db' h

  check_optional_traffic-ok :
      (o : Option TrafficLimit) (db db' : redis.Db)
      → check_optional_traffic redis conv call o db ≡ (ok tt, db')
      → db' ≡ db
  unfolding pure
  check_optional_traffic-ok none db db' h = ground arith
  check_optional_traffic-ok (some l) db db' h = check_traffic-ok l db db' h

  -- The state and the result of a lookup that succeeded.
  pub existing-ok :
      (name : GoString) (u : User) (o : Option User) (db s db' : redis.Db)
      → get_user redis conv name db ≡ (ok o, s)
      → existing redis conv call o s ≡ (ok u, db')
      → (db' ≡ db) × (get_user redis conv name db ≡ (ok (some u), db))
  unfolding raise pure
  existing-ok name u none db s db' e h = ground arith
  existing-ok name u (some v) db s db' e h =
      let k = ap (λ p. p.1) e in let l = get_user-same name db in ground arith

  pub delete_user_cache-ok :
      (name : GoString) (db db' : redis.Db)
      → delete_user_cache redis conv call name db ≡ (ok tt, db')
      → db' ≡ db
  unfolding delete_user_cache raise pure
  delete_user_cache-ok name db db' h = elim (Bool-cases (call.cache_deleted name)) [
    | inl a ↦ ground arith
    | inr a ↦ ground arith
  ]

  another_node-ok :
      (user : User) (route : Route) (db db' : redis.Db)
      → another_node redis conv call user route db ≡ (ok tt, db')
      → db' ≡ db
  unfolding raise pure
  another_node-ok user route db db' h =
      elim (Bool-cases (str_eq user.route_node_id route.node_id)) [
        | inl a ↦ ground arith
        | inr a ↦ ground arith
      ]

  absent-ok :
      (o : Option User) (db db' : redis.Db)
      → absent redis conv call o db ≡ (ok tt, db')
      → (o ≡ none) × (db' ≡ db)
  unfolding raise pure
  absent-ok none db db' h = (refl, ground arith)
  absent-ok (some u) db db' h = ground arith

  non_empty-ok :
      (id : GoString) (db db' : redis.Db)
      → non_empty redis conv call id db ≡ (ok tt, db')
      → (is_empty id ≡ false) × (db' ≡ db)
  unfolding raise pure
  non_empty-ok [] db db' h = ground arith
  non_empty-ok (x ∷ xs) db db' h = (refl, ground arith)

  existing_node-ok :
      (o : Option Node) (n : Node) (db db' : redis.Db)
      → existing_node redis conv call o db ≡ (ok n, db')
      → (o ≡ some n) × (db' ≡ db)
  unfolding raise pure
  existing_node-ok none n db db' h = ground arith
  existing_node-ok (some m) n db db' h = ground arith

  created-ok :
      (req : CreateUserReq) (id : GoString) (node : Node) (resp : CreateUserResp) (s s' : redis.Db)
      → pure {E = ModelError} (created redis conv call req id node) s ≡ (ok resp, s')
      → (id ≡ resp.route.node_id) × (s' ≡ s)
  unfolding pure
  created-ok req id node resp s s' h =
      let e : created redis conv call req id node ≡ resp = ground arith in
      (ap (λ r. r.route.node_id) e, ground arith)

  pub create_user-ok :
      (req : CreateUserReq) (resp : CreateUserResp) (db db' : redis.Db)
      → create_user redis conv call req db ≡ (ok resp, db')
      → (s : redis.Db) × (get_user redis conv req.user_name db ≡ (ok none, db))
        × (check_optional_route redis conv call req.route db ≡ (ok tt, db))
        × (node_for redis conv call (route_of redis conv call req.route).node_id db
            ≡ (ok resp.route.node_id, s))
        × (is_empty resp.route.node_id ≡ false)
        × (bind_node_with_new_user redis call.now conv resp.route.node_id
              (new_user redis conv call req resp.route.node_id)
              s
            ≡ (ok tt, db'))
  unfolding create_user
  create_user-ok req resp db db' h = after _ _ db db' resp h (λ found s1 e1 h1.
      after _ _ s1 db' resp h1 (λ t2 s2 e2 h2. after _ _ s2 db' resp h2 (λ t3 s3 e3 h3.
        after _ _ s3 db' resp h3 (λ t4 s4 e4 h4. after _ _ s4 db' resp h4 (λ id s5 e5 h5.
          after _ _ s5 db' resp h5 (λ t6 s6 e6 h6. after _ _ s6 db' resp h6 (λ got s7 e7 h7.
            after _ _ s7 db' resp h7 (λ node s8 e8 h8. after _ _ s8 db' resp h8 (λ t9 s9 e9 h9.
              let a1 : s1 ≡ db = ap (λ p. p.1) (sym e1) ∙ get_user-same req.user_name db in
              let a2 = absent-ok found s1 s2 e2 in
              let a4 : s4 ≡ db =
                check_optional_traffic-ok req.traffic_limit s3 s4 e4
                ∙ check_optional_route-ok req.route s2 s3 e3
                ∙ a2.1
                ∙ a1 in
              let a3 = check_optional_route-ok req.route s2 s3 e3 in
              let a6 = non_empty-ok id s5 s6 e6 in
              let a8 : s8 ≡ s5 =
                (existing_node-ok got node s7 s8 e8).1
                ∙ ap (λ p. p.1) (sym e7)
                ∙ get_node-same id s6
                ∙ a6.1 in
              let a9 = created-ok req id node resp s9 db' h9 in
              (
                s5,
                cc (e1, a1, a2.0),
                cc (e3, a1, a2.1, a3),
                cc (e5, a4, a9.0),
                rw (sym a9.0) a6.0,
                cc (e9, a8, a9.0, a9.1),
              ))))))))))

  pub modify_checked-ok :
      (name : GoString) (limit : TrafficLimit) (route : Route) (db db' : redis.Db)
      → modify_checked redis conv call name limit route db ≡ (ok tt, db')
      → (user : User) × (check_route redis conv (some route) db ≡ (ok tt, db))
        × (get_user redis conv name db ≡ (ok (some user), db))
        × (switch_node_by_user redis call.now conv
              (modified redis conv call user limit route)
              route.node_id
              db
            ≡ (ok tt, db'))
  modify_checked-ok name limit route db db' h = after _ _ db db' tt h (λ t1 s1 e1 h1.
      after _ _ s1 db' tt h1 (λ t2 s2 e2 h2. after _ _ s2 db' tt h2 (λ found s3 e3 h3.
        after _ _ s3 db' tt h3 (λ user s4 e4 h4. after _ _ s4 db' tt h4 (λ t5 s5 e5 h5.
          after _ _ s5 db' tt h5 (λ t6 s6 e6 h6.
            let a1 = check_route-ok (some route) db s1 e1 in
            let a2 : s2 ≡ db = check_traffic-ok limit s1 s2 e2 ∙ a1 in
            let (a3, a4) = existing-ok name user found s2 s3 s4 e3 e4 in
            let a5 : s5 ≡ db = another_node-ok user route s4 s5 e5 ∙ a3 ∙ a2 in
            let a6 = delete_user_cache-ok name s6 db' h6 in
            (user, cc (e1, a1), cc (a4, a2), cc (e6, a5, a6))))))))

  pub remove_user-ok :
      (name : GoString) (db db' : redis.Db)
      → remove_user redis conv call name db ≡ (ok tt, db')
      → (user : User) × (s : redis.Db) × (get_user redis conv name db ≡ (ok (some user), db))
        × (delete_user redis name db ≡ (ok tt, s))
        × (unbind_route redis conv call user s ≡ (ok tt, db'))
  unfolding remove_user
  remove_user-ok name db db' h = after _ _ db db' tt h (λ found s1 e1 h1.
      after _ _ s1 db' tt h1 (λ user s2 e2 h2. after _ _ s2 db' tt h2 (λ t3 s3 e3 h3.
        after _ _ s3 db' tt h3 (λ t4 s4 e4 h4.
          let (a1, a2) = existing-ok name user found db s1 s2 e1 e2 in
          let a4 = delete_user_cache-ok name s4 db' h4 in
          (user, s3, a2, cc (e3, a1), cc (e4, a4))))))

  pub save_and_drop-ok :
      (user : User) (name : GoString) (db db' : redis.Db)
      → save_and_drop redis conv call user name db ≡ (ok tt, db')
      → save_user redis conv user db ≡ (ok tt, db')
  save_and_drop-ok user name db db' h =
      after _ _ db db' tt h
        (λ t1 s1 e1 h1. let a1 = delete_user_cache-ok name s1 db' h1 in cc (e1, a1))
