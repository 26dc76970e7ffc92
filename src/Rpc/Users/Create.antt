-- ===== src/Rpc/Users/Create.antt =====
-- What CreateUser of ippop/rpc/internal/logic/createuserlogic.go does when it succeeds.
use titan_tunnel.Prelude.{
  ◌*◌, ◌%◌, ◌^◌, [], Option, none, some, ok, err, GoString, true, false, is_empty, str_eq,
  str_eq_iff, str_eq_refl, if◌then◌else◌, ◌≡◌, ◌⊎◌, inl, inr, refl, sym, ap, ◌∙◌, subst, arith,
  Bool-cases,
}
use titan_tunnel.Prelude.State.{pure}
use titan_tunnel.Model.StructMap.{Strconv, struct_to_map}
use titan_tunnel.Model.StructMap.RoundTrip.{StrconvLaws}
use titan_tunnel.Model.Redis.{Redis, RedisLaws, hset, apply}
use titan_tunnel.Model.Records.{User, user_key, node_key, key_node_free, user_fields, node_fields}
use titan_tunnel.Model.Store.{redis_failed, get_user}
use titan_tunnel.Model.Store.Nodes.{bound_user}
use titan_tunnel.Model.Bind.{bind_node_with_new_user, allocate_free_node, popped}
use titan_tunnel.Model.Bind.Effects.{binding, binding-zrem_free}
use titan_tunnel.Model.Bind.Consistency.{
  Consistent, bind, run_op-Consistent, bind_node-binding, bind_node-ok,
}
use titan_tunnel.Rpc.Checks.{to_int}
use titan_tunnel.Rpc.Users.{
  CreateUserReq, CreateUserResp, Call, new_user, limit_of, route_of, create_user, node_for,
}
use titan_tunnel.Rpc.Users.Success.{create_user-ok}
use titan_tunnel.Model.Store.Users.{IsInRange, user_fields-IsStorable, HasUser, get_user-HasUser}
use titan_tunnel.Model.Store.Hashes.{hset-HashHolds}

module _ (redis : Redis) (laws : RedisLaws redis) (conv : Strconv) (call : Call) where
  popped-ok :
      (r : Option (Option GoString) × redis.Db) (id : GoString) (db' : redis.Db)
      → popped redis call.now r ≡ (ok id, db')
      → r ≡ (some (some id), db')
  popped-ok (none, s) id db' h = ground arith
  popped-ok (some none, s) id db' h = ground arith
  popped-ok (some (some x), s) id db' h = ground arith

  pub allocate-binding :
      (id : GoString) (db db' : redis.Db)
      → allocate_free_node redis call.now db ≡ (ok id, db')
      → ((laws.view db).zset key_node_free id ≡ true)
        × ((x : GoString)
            → binding (laws.view db') x ≡ (
                if str_eq id x
                then record (binding (laws.view db) x) { free = false }
                else binding (laws.view db) x))
  unfolding allocate_free_node
  allocate-binding id db db' h =
      let e : redis.zpop_min key_node_free db ≡ (some (some id), db') =
        popped-ok (redis.zpop_min key_node_free db) id db' h in
      let (a, b) = laws.zpop_min_ok key_node_free id db db' e in
      (a, λ x. ap (λ w. binding w x) b ∙ binding-zrem_free (laws.view db) id x)

  pub allocate-Consistent :
      (id : GoString) (db db' : redis.Db)
      → Consistent (laws.view db)
      → allocate_free_node redis call.now db ≡ (ok id, db')
      → Consistent (laws.view db')
  allocate-Consistent id db db' c h x =
      let (a, b) = allocate-binding id db db' h in
      let k = b x in
      let v = c x in
      elim (Bool-cases (str_eq id x)) [
        | inl d ↦ let e = (str_eq_iff id x).0 d in ground arith
        | inr d ↦ ground arith
      ]

  node_for-Consistent :
      (want id : GoString) (db db' : redis.Db)
      → Consistent (laws.view db)
      → node_for redis conv call want db ≡ (ok id, db')
      → Consistent (laws.view db')
  unfolding pure
  node_for-Consistent want id db db' c h = elim (Bool-cases (is_empty want)) [
    | inl a ↦ allocate-Consistent id db db' c (ground arith)
    | inr a ↦ subst (λ s. Consistent (laws.view s)) (ground arith) c
  ]

  node_for-bound_user :
      (want id x : GoString) (db db' : redis.Db)
      → node_for redis conv call want db ≡ (ok id, db')
      → bound_user (laws.view db') x ≡ bound_user (laws.view db) x
  unfolding pure
  node_for-bound_user want id x db db' h = elim (Bool-cases (is_empty want)) [
    | inl a ↦
        let k = ap (λ b. b.user) ((allocate-binding id db db' (ground arith)).1 x) in
        elim (Bool-cases (str_eq id x)) [ inl d ↦ ground arith | inr d ↦ ground arith ]
    | inr a ↦
        subst (λ s. bound_user (laws.view s) x ≡ bound_user (laws.view db) x) (ground arith) refl
  ]

  bind_node-user :
      (id : GoString) (u : User) (db db' : redis.Db)
      → bind_node_with_new_user redis call.now conv id u db ≡ (ok tt, db')
      → bound_user (laws.view db') id ≡ u.user_name
  bind_node-user id u db db' h =
      let k = ap (λ b. b.user) ((bind_node-binding redis laws conv call.now id u db db' h).1 id) in
      let e = str_eq_refl id in ground arith

  -- CreateUser that succeeds keeps every node free, bound or neither, also where it takes a free
  -- node for the user.
  pub create_user-Consistent :
      (req : CreateUserReq) (resp : CreateUserResp) (db db' : redis.Db)
      → Consistent (laws.view db)
      → create_user redis conv call req db ≡ (ok resp, db')
      → Consistent (laws.view db')
  create_user-Consistent req resp db db' c h =
      let (s, e, o, f, g, k) = create_user-ok redis laws conv call req resp db db' h in
      run_op-Consistent redis laws conv call.now
        (bind resp.route.node_id (new_user redis conv call req resp.route.node_id)) s db'
        (node_for-Consistent (route_of redis conv call req.route).node_id resp.route.node_id db s c
          f)
        k

  bind_node-HasUser :
      (formats : StrconvLaws conv) (id : GoString) (u : User) (db db' : redis.Db)
      → IsInRange u
      → bind_node_with_new_user redis call.now conv id u db ≡ (ok tt, db')
      → HasUser redis laws conv formats (laws.view db') u
  bind_node-HasUser formats id u db db' r h =
      let (n, g, c, e) = bind_node-ok redis laws conv call.now id u db db' h in
      rw e (
        hset-HashHolds conv formats (user_key u.user_name) (user_fields u)
          (apply
            (hset (node_key n.id)
              (struct_to_map conv (node_fields (record n { bind_user = u.user_name }))))
            (laws.view db))
          (user_fields-IsStorable u r))

  -- CreateUser that succeeds was asked for a name that no user had. What GetUser finds under the
  -- name is then the user of the request: with its limits, 1024^3 times the traffic (modulo 2^64),
  -- the digest of its password, and the node of the response, unless Redis fails. No user had that
  -- node, and it is bound to this one.
  pub create_user-get_user :
      (formats : StrconvLaws conv) (req : CreateUserReq) (resp : CreateUserResp) (db db' : redis.Db)
      → IsInRange (new_user redis conv call req resp.route.node_id)
      → create_user redis conv call req db ≡ (ok resp, db')
      → (get_user redis conv req.user_name db ≡ (ok none, db))
        × ((get_user redis conv req.user_name db' ≡ (
          ok (
              some (record {
                user_name = req.user_name;
                password_md5 = call.md5_hex req.password;
                start_time = (limit_of redis conv call req.traffic_limit).start_time;
                end_time = (limit_of redis conv call req.traffic_limit).end_time;
                total_traffic =
                    ((limit_of redis conv call req.traffic_limit).total_traffic * 2 ^ 30) % 2 ^ 64;
                current_traffic = 0;
                route_mode = to_int (route_of redis conv call req.route).mode;
                route_node_id = resp.route.node_id;
                update_route_intervals = to_int (route_of redis conv call req.route).intervals;
                update_route_time = 0;
                off = false;
                upload_rate_limit = req.upload_rate_limite;
                download_rate_limit = req.download_rate_limit;
              })),
          db',
        ))
            ⊎ (get_user redis conv req.user_name db' ≡ (err redis_failed, db')))
        × (bound_user (laws.view db) resp.route.node_id ≡ [])
        × (bound_user (laws.view db') resp.route.node_id ≡ req.user_name)
  create_user-get_user formats req resp db db' r h =
      let (s, e, o, f, g, k) = create_user-ok redis laws conv call req resp db db' h in
      (
        e,
        get_user-HasUser redis laws conv formats (new_user redis conv call req resp.route.node_id)
            db' r
            (bind_node-HasUser formats resp.route.node_id
              (new_user redis conv call req resp.route.node_id) s db' r k),
        sym (
              node_for-bound_user (route_of redis conv call req.route).node_id resp.route.node_id
                resp.route.node_id db s f)
            ∙ (bind_node-binding redis laws conv call.now resp.route.node_id
                (new_user redis conv call req resp.route.node_id) s db' k).0,
        bind_node-user resp.route.node_id (new_user redis conv call req resp.route.node_id) s db' k,
      )
