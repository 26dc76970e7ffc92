-- ===== src/Rpc/Checks.antt =====
-- The messages of ippop/rpc/pb that the methods take, and the checks of a request,
-- ippop/rpc/internal/logic/check.go. An int32 or int64 is its bit pattern.
use titan_tunnel.Prelude.{
  ℕ, ◌+◌, ◌-◌, ◌%◌, ◌^◌, Option, none, some, GoString, Bool, true, false, is_empty, not, ◌&&◌, ltb,
  ◌==◌, if◌then◌else◌,
}
use titan_tunnel.Prelude.State.{pure, raise, ◌>>=◌}
use titan_tunnel.Model.StructMap.{Strconv}
use titan_tunnel.Model.Redis.{Redis}
use titan_tunnel.Model.Records.{Node}
use titan_tunnel.Model.Store.{
  route_is_empty, invalid_route_mode, node_not_exist, node_already_bind, invalid_traffic_time,
  traffic_out_of_date, invalid_total_traffic, Action, get_node,
}

pub record Route : Type 0 where
  pub mode : ℕ
  pub node_id : GoString
  pub intervals : ℕ

pub record TrafficLimit : Type 0 where
  pub start_time : ℕ
  pub end_time : ℕ
  pub total_traffic : ℕ

-- a < b of two int64
unfoldable pub less : ℕ → ℕ → Bool
less a b = ltb ((a + 2 ^ 63) % 2 ^ 64) ((b + 2 ^ 63) % 2 ^ 64)

-- int(x) of an int32
unfoldable pub to_int : ℕ → ℕ
to_int n = if ltb n (2 ^ 31) then n else n + (2 ^ 64 - 2 ^ 32)

abbrev pub route_mode_type_manual : ℕ
route_mode_type_manual = 1

abbrev pub route_mode_type_auto : ℕ
route_mode_type_auto = 2

abbrev pub route_mode_type_timed : ℕ
route_mode_type_timed = 3

unfoldable pub is_invalid_route_mode : ℕ → Bool
is_invalid_route_mode mode =
    if not (mode == route_mode_type_manual)
      && not (mode == route_mode_type_auto)
      && not (mode == route_mode_type_timed)
    then false
    else true

module _ (redis : Redis) where
  abbrev pub check_node_unused : Option Node → Action redis (Unit {0})
  check_node_unused none = raise node_not_exist
  check_node_unused (some node) =
      if not (is_empty node.bind_user) then raise node_already_bind else pure tt

  unfoldable pub check_route : Strconv → Option Route → Action redis (Unit {0})
  check_route conv none = raise route_is_empty
  check_route conv (some route) =
      if is_invalid_route_mode route.mode
      then raise invalid_route_mode
      else if not (is_empty route.node_id)
      then (do node ← get_node redis conv route.node_id; check_node_unused node)
      else pure tt

  unfoldable pub check_traffic : ℕ → TrafficLimit → Action redis (Unit {0})
  check_traffic now limit =
      if not (less limit.start_time limit.end_time)
      then raise invalid_traffic_time
      else if less limit.end_time now
      then raise traffic_out_of_date
      else if not (less 0 limit.total_traffic)
      then raise invalid_total_traffic
      else pure tt
