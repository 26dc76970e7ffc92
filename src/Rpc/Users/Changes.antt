-- ===== src/Rpc/Users/Changes.antt =====
-- What StartOrStopUser, ModifyUserPassword and DeleteUser of ippop/rpc/internal/logic have done to
-- the user when they succeed.
use titan_tunnel.Prelude.{
  [], ◌∷◌, Option, none, some, Result, ok, err, GoString, codes, false, is_empty, not, ◌&&◌, str_eq,
  str_eq_refl, if◌then◌else◌, ◌≡◌, ◌⊎◌, inl, inr, refl, sym, ap, ◌∙◌, subst, arith, Bool-cases,
}
use titan_tunnel.Prelude.State.{pure, raise, ◌>>=◌, after}
use titan_tunnel.Model.StructMap.{Strconv}
use titan_tunnel.Model.StructMap.RoundTrip.{StrconvLaws}
use titan_tunnel.Model.Redis.{Redis, RedisLaws, zrem, del, apply}
use titan_tunnel.Model.Records.{
  User, user_key, node_key, key_user_zset, key_node_free, key_node_bind,
}
use titan_tunnel.Model.Store.{
  ModelError, redis_failed, invalid_action, Action, get_user, save_user, delete_user,
}
use titan_tunnel.Model.Store.Nodes.{bound_user}
use titan_tunnel.Model.Bind.{unbind_node}
use titan_tunnel.Model.Bind.Consistency.{exec-view}
use titan_tunnel.Rpc.Users.{
  Call, remove_user, start_or_stop_user, existing, unbind_route, save_and_drop,
}
use titan_tunnel.Rpc.Users.{modify_user_password}
use titan_tunnel.Rpc.Users.Success.{remove_user-ok, save_and_drop-ok, existing-ok}
use titan_tunnel.Model.Store.Users.{IsInRange, IsInRange-off, get_user-save_user}
use titan_tunnel.Model.Bind.Consistency.{unbind_node-binding, unbind_node-ok}

module _ (redis : Redis) (laws : RedisLaws redis) (conv : Strconv) (call : Call) where
  -- What StartOrStopUser and ModifyUserPassword share.
  abbrev change_user : GoString → (User → User) → Action redis (Unit {0})
  change_user name f = do
    found ← get_user redis conv name
    user ← existing redis conv call found
    save_and_drop redis conv call (f user) name

  change-ok :
      (name : GoString) (f : User → User) (db db' : redis.Db)
      → change_user name f db ≡ (ok tt, db')
      → (u : User) × (get_user redis conv name db ≡ (ok (some u), db))
        × (save_user redis conv (f u) db ≡ (ok tt, db'))
  change-ok name f db db' h = after _ _ db db' tt h (λ found s1 e1 h1.
      after _ _ s1 db' tt h1 (λ user s2 e2 h2.
        let (a2, a3) = existing-ok redis laws conv call name user found db s1 s2 e1 e2 in
        let k = save_and_drop-ok redis laws conv call (f user) name s2 db' h2 in
        (user, a3, cc (k, a2))))

  pub start_or_stop_user-ok :
      (name action : GoString) (db db' : redis.Db)
      → start_or_stop_user redis conv call name action db ≡ (ok tt, db')
      → (u : User) × (get_user redis conv name db ≡ (ok (some u), db))
        × (save_user redis conv (record u { off = str_eq action (codes "stop") }) db ≡ (ok tt, db'))
  unfolding start_or_stop_user raise
  start_or_stop_user-ok name action db db' h =
      elim (Bool-cases
        (not (str_eq action (codes "start")) && not (str_eq action (codes "stop")))) [
          | inl a ↦ ground arith
          | inr a ↦
              let stop = λ (u : User). record u { off = str_eq action (codes "stop") } in
              change-ok name stop db db' (
                subst
                  (λ b.
                    (if b then raise invalid_action else change_user name stop) db ≡ (ok tt, db'))
                  a h)
        ]

  pub modify_user_password-ok :
      (name password : GoString) (db db' : redis.Db)
      → modify_user_password redis conv call name password db ≡ (ok tt, db')
      → (u : User) × (get_user redis conv name db ≡ (ok (some u), db))
        × (save_user redis conv (record u { password_md5 = call.md5_hex password }) db
            ≡ (ok tt, db'))
  unfolding modify_user_password
  modify_user_password-ok name password db db' h =
      change-ok name (λ u. record u { password_md5 = call.md5_hex password }) db db' h

  same_user :
      (name : GoString) (u v : User) (db : redis.Db)
      → get_user redis conv name db ≡ (ok (some u), db)
      → get_user redis conv name db ≡ (ok (some v), db)
      → u ≡ v
  same_user name u v db h k =
      let e : Path (Result ModelError (Option User) × redis.Db) (ok (some u), db)
          (ok (some v), db) =
        sym h ∙ k in
      ground arith

  -- StartOrStopUser that succeeds changes nothing of the user that GetUser returns but whether it
  -- is stopped, unless Redis fails.
  pub start_or_stop_user-get_user :
      (formats : StrconvLaws conv) (action : GoString) (u : User) (db db' : redis.Db)
      → IsInRange u
      → get_user redis conv u.user_name db ≡ (ok (some u), db)
      → start_or_stop_user redis conv call u.user_name action db ≡ (ok tt, db')
      → (get_user redis conv u.user_name db'
          ≡ (ok (some (record u { off = str_eq action (codes "stop") })), db'))
        ⊎ (get_user redis conv u.user_name db' ≡ (err redis_failed, db'))
  start_or_stop_user-get_user formats action u db db' r g h =
      let (v, a, b) = start_or_stop_user-ok u.user_name action db db' h in
      let e = same_user u.user_name u v db g a in
      get_user-save_user redis laws conv formats (record u { off = str_eq action (codes "stop") })
        db db' (IsInRange-off u (str_eq action (codes "stop")) r)
        (subst
          (λ w.
            save_user redis conv (record w { off = str_eq action (codes "stop") }) db
            ≡ (ok tt, db'))
          (sym e) b)

  -- The two commands of DeleteUser of the model.
  pub delete_user-view :
      (name : GoString) (db db' : redis.Db)
      → delete_user redis name db ≡ (ok tt, db')
      → laws.view db' ≡ apply (zrem key_user_zset name) (apply (del (user_key name)) (laws.view db))
  unfolding delete_user
  delete_user-view name db db' h = after _ _ db db' tt h (λ t s e g.
      exec-view redis laws conv call.now (zrem key_user_zset name ∷ []) s db' g
      ∙ ap (apply (zrem key_user_zset name))
          (exec-view redis laws conv call.now (del (user_key name) ∷ []) db s e))

  -- UnbindNode touches neither the hash of a user nor the set of users.
  unbind_node-users :
      (id name field : GoString) (db db' : redis.Db)
      → unbind_node redis call.now conv id db ≡ (ok tt, db')
      → ((laws.view db').hash (user_key name) field ≡ (laws.view db).hash (user_key name) field)
        × ((laws.view db').zset key_user_zset name ≡ (laws.view db).zset key_user_zset name)
  unfolding node_key user_key str_eq key_user_zset key_node_free key_node_bind
  unbind_node-users id name field db db' h =
      let (n, _, e) = unbind_node-ok redis laws conv call.now id db db' h in
      elim (Bool-cases n.online) [ inl a ↦ rw (e, a) (refl, refl) | inr a ↦ rw (e, a) (refl, refl) ]

  delete_user-gone :
      (name field : GoString) (db db' : redis.Db)
      → delete_user redis name db ≡ (ok tt, db')
      → ((laws.view db').hash (user_key name) field ≡ none)
        × ((laws.view db').zset key_user_zset name ≡ false)
  unfolding user_key str_eq key_user_zset
  delete_user-gone name field db db' h =
      let e = delete_user-view name db db' h in
      let s = str_eq_refl name in (rw e (rw s refl), rw e (rw s refl))

  -- DeleteUser that succeeds leaves nothing under the user's key or in the set of users, and its
  -- node, if it has one, has no user and is not bound.
  pub remove_user-gone :
      (name : GoString) (u : User) (db db' : redis.Db)
      → get_user redis conv name db ≡ (ok (some u), db)
      → is_empty u.route_node_id ≡ false
      → remove_user redis conv call name db ≡ (ok tt, db')
      → ((field : GoString) → (laws.view db').hash (user_key name) field ≡ none)
        × ((laws.view db').zset key_user_zset name ≡ false)
        × (bound_user (laws.view db') u.route_node_id ≡ [])
        × ((laws.view db').zset key_node_bind u.route_node_id ≡ false)
  remove_user-gone name u db db' g n h =
      let (v, s, a, b, c) = remove_user-ok redis laws conv call name db db' h in
      let e = same_user name u v db g a in
      let d : unbind_node redis call.now conv u.route_node_id s ≡ (ok tt, db') =
        subst
          (λ t.
            (if not t then unbind_node redis call.now conv u.route_node_id else pure tt) s
            ≡ (ok tt, db'))
          n (subst (λ w. unbind_route redis conv call w s ≡ (ok tt, db')) (sym e) c) in
      let k =
        unbind_node-binding redis laws conv call.now u.route_node_id s db' d u.route_node_id in
      (
        λ field.
            (unbind_node-users u.route_node_id name field s db' d).0
            ∙ (delete_user-gone name field db s b).0,
        (unbind_node-users u.route_node_id name [] s db' d).1 ∙ (delete_user-gone name [] db s b).1,
        ap (λ w. w.user) k ∙ rw (str_eq_refl u.route_node_id) refl,
        ap (λ w. w.bound) k ∙ rw (str_eq_refl u.route_node_id) refl,
      )
