-- ===== src/Socks5/Auth/Exchange.antt =====
-- The bytes of a whole negotiation, ippop/api/socks5/socks5.go.
use mathlib.Core.List.{append_assoc}
use titan_tunnel.Prelude.{
  ℕ, List, [], ◌∷◌, ◌++◌, none, some, GoString, if◌then◌else◌, Bool, true, false, ◌≡◌, refl, ok,
  err, arith, length,
}
use titan_tunnel.Socks5.Wire.{
  Conn, ◌>>=◌, write, not_support_auth_method, user_authentication_failed,
}
use titan_tunnel.Socks5.Wire.Laws.{read_full-append, read_byte-cons}
use titan_tunnel.Socks5.Protocol.{
  socks5_version, no_auth, user_pass_auth, user_auth_version, read_auth_methods, no_acceptable_auth,
  user_pass_auth_failure, user_pass_auth_success, no_auth_authenticate, no_acceptable,
  user_auth_success, user_auth_failure,
}
use titan_tunnel.Socks5.Auth.{offers, verify, user_pass_auth_exchange, authenticate}

-- A connection whose writes succeed.
abbrev pub open_conn : List ℕ → List ℕ → Conn
open_conn input output = record { input = input; output = output; writes = [] }

read_auth_methods-append :
    (methods tail : List ℕ) (c : Conn)
    → c.input ≡ length methods ∷ (methods ++ tail)
    → read_auth_methods c ≡ (ok methods, record c { input = tail })
unfolding read_auth_methods ◌>>=◌
read_auth_methods-append methods tail c e =
    rw (read_byte-cons (length methods) (methods ++ tail) c e)
      (read_full-append methods tail (record c { input = methods ++ tail }) refl)

module _ (accepts : GoString → GoString → Bool) (methods out : List ℕ) where
  -- Where the method that the server wants is not offered, the client is told so, the negotiation
  -- fails, and no more is read than the offered methods.
  pub authenticate_refuses :
      (enable_auth : Bool) (rest : List ℕ)
      → offers (if enable_auth then user_pass_auth else no_auth) methods ≡ false
      → authenticate accepts enable_auth (open_conn (length methods ∷ (methods ++ rest)) out)
        ≡ (err not_support_auth_method, open_conn rest (out ++ socks5_version ∷ no_acceptable ∷ []))
  unfolding authenticate no_acceptable_auth write ◌>>=◌
  authenticate_refuses enable_auth rest h =
      rw
        (read_auth_methods-append methods rest (open_conn (length methods ∷ (methods ++ rest)) out)
          refl)
        (ground arith)

  -- With authentication off and "no authentication" offered, that is confirmed to the client.
  pub authenticate_anonymous :
      (rest : List ℕ)
      → offers no_auth methods ≡ true
      → authenticate accepts false (open_conn (length methods ∷ (methods ++ rest)) out)
        ≡ (ok none, open_conn rest (out ++ socks5_version ∷ no_auth ∷ []))
  unfolding authenticate no_auth_authenticate write ◌>>=◌
  authenticate_anonymous rest h =
      rw
        (read_auth_methods-append methods rest (open_conn (length methods ∷ (methods ++ rest)) out)
          refl)
        (ground arith)

  module _ (user pass rest : List ℕ) where
    -- What the client sends after it has offered its methods.
    abbrev pub credentials : List ℕ
    credentials = user_auth_version ∷ length user ∷ (user ++ (length pass ∷ (pass ++ rest)))

    -- The server's two answers.
    abbrev pub answers : List ℕ
    answers =
        socks5_version
        ∷ user_pass_auth
        ∷ user_auth_version
        ∷ (if accepts user pass then user_auth_success else user_auth_failure)
        ∷ []

    exchange-credentials : user_pass_auth_exchange accepts (open_conn credentials out) ≡ (
      if accepts user pass then ok (some user) else err user_authentication_failed,
      open_conn rest (out ++ answers),
    )
    unfolding user_pass_auth_exchange verify user_pass_auth_success user_pass_auth_failure write
        ◌>>=◌
    exchange-credentials =
        let asked = out ++ socks5_version ∷ user_pass_auth ∷ [] in
        let tail = user ++ (length pass ∷ (pass ++ rest)) in
        rw
          (read_full-append (user_auth_version ∷ length user ∷ []) tail
            (open_conn credentials asked) refl)
          (rw (read_full-append user (length pass ∷ (pass ++ rest)) (open_conn tail asked) refl) (
            rw
              (read_byte-cons (length pass) (pass ++ rest)
                (open_conn (length pass ∷ (pass ++ rest)) asked) refl)
              (rw (read_full-append pass rest (open_conn (pass ++ rest) asked) refl) (
                ground (
                  arith,
                  append_assoc out (socks5_version ∷ user_pass_auth ∷ [])
                      (user_auth_version ∷ user_auth_success ∷ []),
                  append_assoc out (socks5_version ∷ user_pass_auth ∷ [])
                      (user_auth_version ∷ user_auth_failure ∷ []),
                )))))

    -- With authentication enabled and the user name and password method offered, the user is
    -- returned exactly when the handler accepts the credentials, with the answers of RFC 1929,
    -- and the bytes after the credentials are left to be read.
    pub authenticate-credentials :
        offers user_pass_auth methods ≡ true
        → authenticate accepts true (open_conn (length methods ∷ (methods ++ credentials)) out) ≡ (
          if accepts user pass then ok (some user) else err user_authentication_failed,
          open_conn rest (out ++ answers),
        )
    unfolding authenticate ◌>>=◌
    authenticate-credentials h =
        rw
          (read_auth_methods-append methods credentials
            (open_conn (length methods ∷ (methods ++ credentials)) out) refl)
          (rw h exchange-credentials)
