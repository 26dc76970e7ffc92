-- ===== src/Rpc/Users/Refused.antt =====
-- The route modes that ippop/rpc/internal/logic/check.go refuses.
use titan_tunnel.Prelude.{ℕ, some, ok, true, ◌≡◌, inl, inr, subst, arith, Option-cases}
use titan_tunnel.Prelude.State.{raise}
use titan_tunnel.Model.StructMap.{Strconv}
use titan_tunnel.Model.Redis.{Redis, RedisLaws}
use titan_tunnel.Rpc.Checks.{Route, is_invalid_route_mode, check_route}
use titan_tunnel.Rpc.Users.{
  CreateUserReq, CreateUserResp, ModifyUserReq, Call, create_user, modify_user,
  check_optional_route,
}
use titan_tunnel.Prelude.{◌≤◌, ◌≢◌}
use titan_tunnel.Rpc.Users.Success.{create_user-ok, modify_checked-ok}

module _ (redis : Redis) (laws : RedisLaws redis) (conv : Strconv) (call : Call) where
  known-is_invalid : (mode : ℕ) → 1 ≤ mode → mode ≤ 3 → is_invalid_route_mode mode ≡ true
  unfolding is_invalid_route_mode
  known-is_invalid mode a b = ground arith

  known-check_route :
      (route : Route) (db s : redis.Db)
      → 1 ≤ route.mode
      → route.mode ≤ 3
      → check_route redis conv (some route) db ≢ (ok tt, s)
  unfolding check_route raise
  known-check_route route db s a b h = let e = known-is_invalid route.mode a b in ground arith

  -- CreateUser never succeeds with a route whose mode is one of the three that exist: manual, auto
  -- and timed.
  pub create_user-known_mode :
      (req : CreateUserReq) (route : Route) (resp : CreateUserResp) (db db' : redis.Db)
      → req.route ≡ some route
      → 1 ≤ route.mode
      → route.mode ≤ 3
      → create_user redis conv call req db ≢ (ok resp, db')
  create_user-known_mode req route resp db db' e a b h =
      let (s, g, o, f, n, k) = create_user-ok redis laws conv call req resp db db' h in
      known-check_route route db db a b
        (subst (λ r. check_optional_route redis conv call r db ≡ (ok tt, db)) e o)

  -- Nor does ModifyUser, which takes no request without a route.
  pub modify_user-known_mode :
      (req : ModifyUserReq) (route : Route) (db db' : redis.Db)
      → req.route ≡ some route
      → 1 ≤ route.mode
      → route.mode ≤ 3
      → modify_user redis conv call req db ≢ (ok tt, db')
  unfolding modify_user raise
  modify_user-known_mode req route db db' e a b h = elim (Option-cases req.traffic_limit) [
    | inl n ↦ ground arith
    | inr (limit, n) ↦
        let (user, o, f, k) =
          modify_checked-ok redis laws conv call req.user_name limit route db db' (ground arith) in
        known-check_route route db db a b o
  ]
