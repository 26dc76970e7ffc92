-- ===== src/Socks5/Auth.antt =====
-- The SOCKS5 method negotiation and the user name and password sub-negotiation,
-- ippop/api/socks5/socks5.go.
pub mod Safety
pub mod Exchange
pub mod Sent
use titan_tunnel.Prelude.{
  ℕ, List, [], ◌∷◌, Option, none, some, GoString, ◌==◌, if◌then◌else◌, Bool, true, false, ◌||◌, not,
}
use titan_tunnel.Socks5.Datagram.{byte_at}
use titan_tunnel.Socks5.Wire.{
  M, unsupported_auth_version, ◌>>=◌, ◌>>◌, pure, raise, read_full, read_byte, write,
}
use titan_tunnel.Socks5.Protocol.{
  socks5_version, no_auth, user_pass_auth, user_auth_version, read_auth_methods, no_acceptable_auth,
  user_pass_auth_failure, user_pass_auth_success, no_auth_authenticate,
}

-- the search loop of authenticate
unfoldable pub offers : ℕ → List ℕ → Bool
offers m [] = false
offers m (x ∷ xs) = x == m || offers m xs

-- `accepts user password` is `true` when Handler.HandleUserAuth returns a nil error.
module _ (accepts : GoString → GoString → Bool) where
  unfoldable pub verify : GoString → GoString → M (Option GoString)
  verify user pass =
      if accepts user pass
      then (do user_pass_auth_success; pure (some user))
      else user_pass_auth_failure

  unfoldable pub user_pass_auth_exchange : M (Option GoString)
  user_pass_auth_exchange = do
    write (socks5_version ∷ user_pass_auth ∷ [])
    header ← read_full 2
    if byte_at header 0 == user_auth_version
        then (do
          user ← read_full (byte_at header 1)
          pass_len ← read_byte
          pass ← read_full pass_len
          verify user pass)
        else raise unsupported_auth_version

  -- The user, none for nil: `auth_method` is the local variable of authenticate.
  unfoldable pub authenticate : Bool → M (Option GoString)
  authenticate enable_auth = do
    methods ← read_auth_methods
    let auth_method = if enable_auth then user_pass_auth else no_auth
    if not (offers auth_method methods)
        then no_acceptable_auth
        else if auth_method == user_pass_auth
        then user_pass_auth_exchange
        else (do no_auth_authenticate; pure none)
