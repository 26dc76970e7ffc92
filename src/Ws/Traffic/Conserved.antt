-- ===== src/Ws/Traffic/Conserved.antt =====
-- The sums of the traffic counts of ippop/api/ws/usertraffic.go and tunmgr.go.
use titan_tunnel.Prelude.{
  ℕ, ◌+◌, ◌%◌, ◌^◌, List, [], ◌∷◌, some, ok, err, GoString, true, str_eq, str_eq_iff, if◌then◌else◌,
  ◌≡◌, ◌⊎◌, inl, inr, refl, ◌∙◌, arith, Bool-cases,
}
use titan_tunnel.Prelude.Maps.{GoMap, empty, get-put, get-empty}
use titan_tunnel.Prelude.State.{◌>>=◌}
use titan_tunnel.Model.StructMap.{Strconv}
use titan_tunnel.Model.StructMap.RoundTrip.{StrconvLaws}
use titan_tunnel.Model.Redis.{Redis, RedisLaws}
use titan_tunnel.Model.Records.{User}
use titan_tunnel.Model.Store.{redis_failed, get_user}
use titan_tunnel.Model.Store.Users.{IsInRange, IsInRange-traffic, get_user-save_user}
use titan_tunnel.Rpc.Checks.{less}
use titan_tunnel.Ws.Traffic.{
  traffic_of, add, Event, counted, tick, Meter, meter_step, meter_run, save_traffic,
}

-- All the traffic of a user in the events.
abbrev pub total_counted : GoString → List Event → ℕ
total_counted name [] = 0
total_counted name (counted user n ∷ es) =
    (if str_eq user name then n else 0) + total_counted name es
total_counted name (tick ∷ es) = total_counted name es

-- All the traffic of a user in the snapshots.
abbrev pub total_taken : GoString → List (GoMap ℕ) → ℕ
total_taken name [] = 0
total_taken name (m ∷ ms) = traffic_of m name + total_taken name ms

traffic_of-add :
    (m : GoMap ℕ) (user name : GoString) (n : ℕ)
    → traffic_of (add m user n) name
      ≡ (if str_eq user name then (traffic_of m name + n) % 2 ^ 64 else traffic_of m name)
unfolding add traffic_of
traffic_of-add m user name n =
    ground (arith, str_eq_iff user name, get-put m user name ((traffic_of m user + n) % 2 ^ 64))

traffic_of-empty : (name : GoString) → traffic_of empty name ≡ 0
unfolding traffic_of
traffic_of-empty name = rw (get-empty name) refl

mod_inner : (t u c : ℕ) → (t + u % 2 ^ 64 + c) % 2 ^ 64 ≡ (t + u + c) % 2 ^ 64
mod_inner t u c = omega arith

-- Whenever the timer fires, what the snapshots and the counts hold of a user is what was counted
-- of it, modulo 2^64.
pub meter_run-conserved :
    (es : List Event) (s : Meter) (name : GoString)
    → (total_taken name (meter_run es s).taken + traffic_of (meter_run es s).users name) % 2 ^ 64
      ≡ (total_taken name s.taken + traffic_of s.users name + total_counted name es) % 2 ^ 64
meter_run-conserved [] s name = ground arith
meter_run-conserved (counted user n ∷ es) s name =
    let h = meter_run-conserved es (meter_step s (counted user n)) name in
    let a = traffic_of-add s.users user name n in
    elim (Bool-cases (str_eq user name)) [
      | inl b ↦
          h
          ∙ ground (
            arith,
            mod_inner (total_taken name s.taken) (traffic_of s.users name + n)
                (total_counted name es),
          )
      | inr b ↦ ground arith
    ]
meter_run-conserved (tick ∷ es) s name =
    let h = meter_run-conserved es (meter_step s tick) name in
    let a = traffic_of-empty name in ground arith

module _ (redis : Redis) (laws : RedisLaws redis) (conv : Strconv)
    (formats : StrconvLaws conv) where
  -- The timer adds the traffic of a snapshot to what GetUser says of the user, and changes nothing
  -- else of it, unless Redis fails.
  pub save_traffic-get_user :
      (n : ℕ) (u : User) (db db' : redis.Db)
      → IsInRange u
      → less 0 n ≡ true
      → get_user redis conv u.user_name db ≡ (ok (some u), db)
      → save_traffic redis conv u.user_name n db ≡ (ok tt, db')
      → (get_user redis conv u.user_name db'
          ≡ (ok (some (record u { current_traffic = (u.current_traffic + n) % 2 ^ 64 })), db'))
        ⊎ (get_user redis conv u.user_name db' ≡ (err redis_failed, db'))
  unfolding save_traffic ◌>>=◌
  save_traffic-get_user n u db db' r p g h =
      get_user-save_user redis laws conv formats
        (record u { current_traffic = (u.current_traffic + n) % 2 ^ 64 }) db db'
        (IsInRange-traffic u n r) (ground arith)
