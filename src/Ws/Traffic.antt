-- ===== src/Ws/Traffic.antt =====
-- The traffic of the users: ippop/api/ws/usertraffic.go and startUserTrafficTimer of tunmgr.go. The
-- lock makes each call one step. An int64 is its bit pattern.
pub mod Conserved
use titan_tunnel.Prelude.{
  ℕ, ◌+◌, ◌%◌, ◌^◌, List, [], ◌∷◌, ◌++◌, Option, none, some, Result, ok, err, GoString, Bool, true,
  false, if◌then◌else◌,
}
use titan_tunnel.Prelude.Maps.{GoMap, empty, get, put, to_list}
use titan_tunnel.Prelude.State.{St, pure, raise, ◌>>=◌}
use titan_tunnel.Model.StructMap.{Strconv}
use titan_tunnel.Model.Redis.{Redis}
use titan_tunnel.Model.Records.{User}
use titan_tunnel.Model.Store.{ModelError, user_not_exist, Action, get_user, save_user}
use titan_tunnel.Rpc.Checks.{less}

-- ut.users[userName], 0 for a user that is not there
abbrev pub or_zero : Option ℕ → ℕ
or_zero none = 0
or_zero (some n) = n

unfoldable pub traffic_of : GoMap ℕ → GoString → ℕ
traffic_of m name = or_zero (get m name)

unfoldable pub add : GoMap ℕ → GoString → ℕ → GoMap ℕ
unfolding traffic_of
add m name traffic = put m name ((traffic_of m name + traffic) % 2 ^ 64)

-- The copy and the new map.
abbrev pub snapshot_and_clear : GoMap ℕ → GoMap ℕ × GoMap ℕ
snapshot_and_clear m = (m, empty)

-- Traffic is counted, or the timer fires.
pub data Event : Type 0 where
  counted : GoString → ℕ → Event
  tick : Event

-- The counts, and the snapshots that the timer has taken, the last one first.
pub record Meter : Type 0 where
  pub users : GoMap ℕ
  pub taken : List (GoMap ℕ)

abbrev pub meter_step : Meter → Event → Meter
meter_step s (counted name n) = record s { users = add s.users name n }
meter_step s tick = record {
  users = (snapshot_and_clear s.users).1;
  taken = (snapshot_and_clear s.users).0 ∷ s.taken;
}

abbrev pub meter_run : List Event → Meter → Meter
meter_run [] s = s
meter_run (e ∷ es) s = meter_run es (meter_step s e)

module _ (redis : Redis) (conv : Strconv) where
  abbrev pub with_traffic : ℕ → Option User → Action redis (Unit {0})
  with_traffic n none = raise user_not_exist
  with_traffic n (some user) =
      save_user redis conv (record user { current_traffic = (user.current_traffic + n) % 2 ^ 64 })

  -- One round of the timer's loop; its error is only logged.
  unfoldable pub save_traffic : GoString → ℕ → Action redis (Unit {0})
  save_traffic name n =
      if less 0 n then (do found ← get_user redis conv name; with_traffic n found) else pure tt

  abbrev pub save_all : List (GoString × ℕ) → redis.Db → redis.Db
  save_all [] db = db
  save_all ((name, n) ∷ l) db = save_all l (save_traffic name n db).1
