-- ===== src/Ws/Access.antt =====
-- HandleUserAuth of ippop/api/ws/tunmgr.go, which the SOCKS5 front end asks about a password.
pub mod Rules
pub mod Admits
use titan_tunnel.Prelude.{
  ℕ, List, Option, none, some, Result, ok, err, GoString, Bool, true, false, not, ◌&&◌, ◌||◌, ◌==◌,
  str_eq, if◌then◌else◌,
}
use titan_tunnel.Prelude.State.{St, pure, raise, ◌>>=◌}
use titan_tunnel.Model.StructMap.{Strconv}
use titan_tunnel.Model.Redis.{Redis}
use titan_tunnel.Model.Records.{User}
use titan_tunnel.Model.Store.{
  ModelError, user_not_exist, user_off, password_not_match, user_out_of_date, user_out_of_traffic,
  Action, get_user,
}
use titan_tunnel.Rpc.Checks.{less}

-- `now` is time.Now().Unix() and `digest` the hex digits of the password's MD5 sum.
module _ (redis : Redis) (conv : Strconv) (now : ℕ) where
  abbrev pub check_access : GoString → Option User → Action redis (Unit {0})
  check_access digest none = raise user_not_exist
  check_access digest (some user) =
      if user.off
      then raise user_off
      else if not (str_eq user.password_md5 digest)
      then raise password_not_match
      else if less now user.start_time || less user.end_time now
      then raise user_out_of_date
      else if not (user.total_traffic == 0) && not (less user.current_traffic user.total_traffic)
      then raise user_out_of_traffic
      else pure tt

  unfoldable pub handle_user_auth : GoString → GoString → Action redis (Unit {0})
  handle_user_auth name digest = do found ← get_user redis conv name; check_access digest found
