-- ===== src/Model/Store/Users.antt =====
-- Saving and loading a user, ippop/api/model/user.go.
use titan_tunnel.Prelude.{
  ◌^◌, ℕ, ◌+◌, ◌%◌, ◌<◌, [], ◌∷◌, some, ok, err, codes, Bool, true, false, ◌≡◌, ◌⊎◌, inl, inr,
  arith, str_eq, ◌∙◌, Option-cases,
}
use titan_tunnel.Prelude.Maps.{is_empty_map, is_empty_map-get}
use titan_tunnel.Prelude.State.{◌>>=◌}
use titan_tunnel.Model.StructMap.{Strconv, Hash, struct_to_map, map_to_struct}
use titan_tunnel.Model.StructMap.RoundTrip.{StrconvLaws, IsStorable}
use titan_tunnel.Model.Store.Hashes.{HashHolds, hset-HashHolds, map_to_struct-HashHolds}
use titan_tunnel.Model.Redis.{Redis, RedisLaws, View, hset}
use titan_tunnel.Model.Records.{User, user_fields, zero_user, user_key}
use titan_tunnel.Model.Store.{redis_failed, exec, hgetall, load_struct, save_user, get_user}

-- The integers of a user are 64-bit patterns.
pub record IsInRange (u : User) : Type 0 where
  pub start_time : u.start_time < 2 ^ 64
  pub end_time : u.end_time < 2 ^ 64
  pub total_traffic : u.total_traffic < 2 ^ 64
  pub current_traffic : u.current_traffic < 2 ^ 64
  pub route_mode : u.route_mode < 2 ^ 64
  pub update_route_intervals : u.update_route_intervals < 2 ^ 64
  pub update_route_time : u.update_route_time < 2 ^ 64
  pub upload_rate_limit : u.upload_rate_limit < 2 ^ 64
  pub download_rate_limit : u.download_rate_limit < 2 ^ 64

pub IsInRange-off : (u : User) (b : Bool) → IsInRange u → IsInRange (record u { off = b })
IsInRange-off u b r = record {
  start_time = r.start_time;
  end_time = r.end_time;
  total_traffic = r.total_traffic;
  current_traffic = r.current_traffic;
  route_mode = r.route_mode;
  update_route_intervals = r.update_route_intervals;
  update_route_time = r.update_route_time;
  upload_rate_limit = r.upload_rate_limit;
  download_rate_limit = r.download_rate_limit;
}

pub IsInRange-traffic :
    (u : User) (n : ℕ)
    → IsInRange u
    → IsInRange (record u { current_traffic = (u.current_traffic + n) % 2 ^ 64 })
IsInRange-traffic u n r = record {
  start_time = r.start_time;
  end_time = r.end_time;
  total_traffic = r.total_traffic;
  current_traffic = omega arith;
  route_mode = r.route_mode;
  update_route_intervals = r.update_route_intervals;
  update_route_time = r.update_route_time;
  upload_rate_limit = r.upload_rate_limit;
  download_rate_limit = r.download_rate_limit;
}

pub user_fields-IsStorable : (u : User) → IsInRange u → IsStorable (user_fields u)
unfolding str_eq
user_fields-IsStorable u v = ground arith

module _ (redis : Redis) (laws : RedisLaws redis) (conv : Strconv)
    (formats : StrconvLaws conv) where
  -- The database holds the user.
  abbrev pub HasUser : View → User → Type 0
  HasUser v u = HashHolds conv (v.hash (user_key u.user_name)) (user_fields u)

  load_user :
      (u : User) (m : Hash) (db : redis.Db)
      → IsInRange u
      → HasUser (laws.view db) u
      → redis.hgetall (user_key u.user_name) db ≡ some m
      → (is_empty_map m ≡ false)
        × (map_to_struct conv m (user_fields zero_user) ≡ ok (user_fields u))
  load_user u m db v h e =
      let reads = laws.hgetall_ok (user_key u.user_name) db m e in
      (
        is_empty_map-get m (codes "user_name") _ (reads (codes "user_name") ∙ h.0),
        map_to_struct-HashHolds conv formats m _ (user_fields u) (user_fields zero_user) reads h
            (user_fields-IsStorable u v) (ground arith),
      )

  -- GetUser returns a user that the database holds, unless Redis fails; it writes nothing.
  pub get_user-HasUser :
      (u : User) (db : redis.Db)
      → IsInRange u
      → HasUser (laws.view db) u
      → (get_user redis conv u.user_name db ≡ (ok (some u), db))
        ⊎ (get_user redis conv u.user_name db ≡ (err redis_failed, db))
  unfolding get_user hgetall load_struct ◌>>=◌
  get_user-HasUser u db v h = elim (Option-cases (redis.hgetall (user_key u.user_name) db)) [
    | inl e ↦ inr (ground arith)
    | inr (m, e) ↦ let (a, b) = load_user u m db v h e in inl (ground arith)
  ]

  save_user-HasUser :
      (u : User) (db db' : redis.Db)
      → IsInRange u
      → save_user redis conv u db ≡ (ok tt, db')
      → HasUser (laws.view db') u
  unfolding save_user exec
  save_user-HasUser u db db' v h =
      let done : redis.exec (hset (user_key u.user_name) (struct_to_map conv (user_fields u)) ∷ [])
            db
          ≡ (true, db') =
        ground arith in
      rw
        (laws.exec_ok (hset (user_key u.user_name) (struct_to_map conv (user_fields u)) ∷ []) db db'
          done)
        (hset-HashHolds conv formats (user_key u.user_name) (user_fields u) (laws.view db)
          (user_fields-IsStorable u v))

  -- A user that SaveUser has saved without an error is what GetUser then returns, unless Redis
  -- fails: every field, through its text in the hash, whatever the hash held before.
  pub get_user-save_user :
      (u : User) (db db' : redis.Db)
      → IsInRange u
      → save_user redis conv u db ≡ (ok tt, db')
      → (get_user redis conv u.user_name db' ≡ (ok (some u), db'))
        ⊎ (get_user redis conv u.user_name db' ≡ (err redis_failed, db'))
  get_user-save_user u db db' v h = get_user-HasUser u db' v (save_user-HasUser u db db' v h)
