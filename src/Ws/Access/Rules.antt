-- ===== src/Ws/Access/Rules.antt =====
-- The conditions of HandleUserAuth of ippop/api/ws/tunmgr.go.
use titan_tunnel.Prelude.{
  sym, ap, ◌∙◌, ℕ, ◌+◌, ◌%◌, ◌^◌, ◌≤◌, ◌<◌, Option, none, some, ok, GoString, false, ◌==◌,
  str_eq_iff, ◌≡◌, ◌⊎◌, ◌↔◌, inl, inr, arith, Bool-cases,
}
use titan_tunnel.Prelude.State.{pure, raise, ◌>>=◌, after}
use titan_tunnel.Model.StructMap.{Strconv}
use titan_tunnel.Model.Redis.{Redis, RedisLaws}
use titan_tunnel.Model.Records.{User}
use titan_tunnel.Model.Store.{get_user}
use titan_tunnel.Rpc.Checks.{less}
use titan_tunnel.Rpc.Users.{Call}
use titan_tunnel.Rpc.Users.Success.{get_user-same}
use titan_tunnel.Ws.Access.{check_access, handle_user_auth}

-- The number that a 64-bit pattern stands for, moved by 2^63.
abbrev pub rank : ℕ → ℕ
rank n = (n + 2 ^ 63) % 2 ^ 64

-- A user that may use the service at this time with this digest.
pub record MayEnter (u : User) (digest : GoString) (now : ℕ) : Type 0 where
  pub on : u.off ≡ false
  pub known : u.password_md5 ≡ digest
  pub begun : rank u.start_time ≤ rank now
  pub not_over : rank now ≤ rank u.end_time
  pub traffic_left : (u.total_traffic ≡ 0) ⊎ (rank u.current_traffic < rank u.total_traffic)

module _ (redis : Redis) (laws : RedisLaws redis) (conv : Strconv) (call : Call) (now : ℕ) where
  check_access-MayEnter :
      (digest : GoString) (u : User) (db db' : redis.Db)
      → check_access redis conv now digest (some u) db ≡ (ok tt, db')
      → MayEnter u digest now × (db' ≡ db)
  unfolding raise pure less
  check_access-MayEnter digest u db db' h =
      let e = str_eq_iff u.password_md5 digest in
      elim (Bool-cases (u.total_traffic == 0)) [
        | inl t ↦ (
          record {
            on = ground arith;
            known = ground arith;
            begun = ground arith;
            not_over = ground arith;
            traffic_left = inl (ground arith);
          },
          ground arith,
        )
        | inr t ↦ (
          record {
            on = ground arith;
            known = ground arith;
            begun = ground arith;
            not_over = ground arith;
            traffic_left = inr (ground arith);
          },
          ground arith,
        )
      ]

  MayEnter-check_access :
      (digest : GoString) (u : User) (db : redis.Db)
      → MayEnter u digest now
      → check_access redis conv now digest (some u) db ≡ (ok tt, db)
  unfolding raise pure less
  MayEnter-check_access digest u db m = let e = str_eq_iff u.password_md5 digest in ground arith

  pub auth-MayEnter :
      (name digest : GoString) (db db' : redis.Db)
      → handle_user_auth redis conv now name digest db ≡ (ok tt, db')
      → (u : User) × (get_user redis conv name db ≡ (ok (some u), db)) × MayEnter u digest now
  unfolding handle_user_auth raise
  auth-MayEnter name digest db db' h = after _ _ db db' tt h (λ found s e g. go found s e g)
    where
      go :
          (o : Option User) (s : redis.Db)
          → get_user redis conv name db ≡ (ok o, s)
          → check_access redis conv now digest o s ≡ (ok tt, db')
          → (u : User) × (get_user redis conv name db ≡ (ok (some u), db)) × MayEnter u digest now
      go none s e g = ground arith
      go (some u) s e g =
          let (m, k) = check_access-MayEnter digest u s db' g in
          let l = ap (λ p. p.1) (sym e) ∙ get_user-same redis laws conv call name db in
          (u, cc (e, l), m)

  MayEnter-auth :
      (name digest : GoString) (db : redis.Db) (u : User)
      → get_user redis conv name db ≡ (ok (some u), db)
      → MayEnter u digest now
      → handle_user_auth redis conv now name digest db ≡ (ok tt, db)
  unfolding handle_user_auth ◌>>=◌
  MayEnter-auth name digest db u e m = rw e (MayEnter-check_access digest u db m)

  -- HandleUserAuth accepts a name and password exactly when GetUser finds a user under the name
  -- that is not stopped, has the digest of the password, is between its start and end time and,
  -- where it has a limit, has traffic left; it writes nothing then.
  pub handle_user_auth_iff :
      (name digest : GoString) (db : redis.Db)
      → (handle_user_auth redis conv now name digest db ≡ (ok tt, db))
        ↔ ((u : User) × (get_user redis conv name db ≡ (ok (some u), db)) × MayEnter u digest now)
  handle_user_auth_iff name digest db =
      (auth-MayEnter name digest db db, λ (u, e, m). MayEnter-auth name digest db u e m)
