-- ===== src/Socks5/Auth/Safety.antt =====
-- What a successful negotiation means, ippop/api/socks5/socks5.go.
use titan_tunnel.Prelude.{
  ℕ, List, Option, some, GoString, if◌then◌else◌, Bool, true, not, ◌≡◌, refl,
}
use titan_tunnel.Socks5.Wire.Laws.{Yields, Yields-pure, Yields-if, Yields-bind, yields_rules}
use titan_tunnel.Socks5.Protocol.{
  user_pass_auth, read_auth_methods, no_acceptable_auth, user_pass_auth_failure,
}
use titan_tunnel.Socks5.Auth.{offers, verify, user_pass_auth_exchange, authenticate}

module _ (accepts : GoString → GoString → Bool) where
  -- The user that is returned gave a password that the handler accepts.
  abbrev pub Accepted : Option GoString → Type 0
  Accepted r = (user : GoString) × (pass : GoString) × (r ≡ some user) × (accepts user pass ≡ true)

  user_pass_auth_failure-Accepted : Yields Accepted user_pass_auth_failure
  unfolding user_pass_auth_failure
  user_pass_auth_failure-Accepted = search yields_rules

  verify-Accepted : (user pass : GoString) → Yields Accepted (verify accepts user pass)
  unfolding verify
  verify-Accepted user pass =
      Yields-if (accepts user pass) _ _
        (λ e. Yields-bind _ _ (λ _. Yields-pure (some user) (user, pass, refl, e)))
        (λ _. user_pass_auth_failure-Accepted)

  exchange-Accepted : Yields Accepted (user_pass_auth_exchange accepts)
  unfolding user_pass_auth_exchange
  exchange-Accepted = search (yields_rules, verify-Accepted) depth 12

  no_acceptable_auth-Accepted : Yields Accepted no_acceptable_auth
  unfolding no_acceptable_auth
  no_acceptable_auth-Accepted = search yields_rules

  pub authenticate-Yields : Yields Accepted (authenticate accepts true)
  unfolding authenticate
  authenticate-Yields = Yields-bind read_auth_methods _ rest
    where
      rest :
          (methods : List ℕ)
          → Yields Accepted (
              if not (offers user_pass_auth methods)
              then no_acceptable_auth
              else user_pass_auth_exchange accepts)
      rest methods = search (yields_rules, exchange-Accepted, no_acceptable_auth-Accepted)
