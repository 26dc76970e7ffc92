-- ===== src/Socks5/Request/Sent.antt =====
-- What a client has sent when its connection is handed on, ippop/api/socks5/socks5.go.
use titan_tunnel.Prelude.{
  Bool, true, ℕ, List, ◌∷◌, ◌++◌, Option, some, ok, GoString, ◌==◌, ==_iff, ◌≡◌, inl, inr, length,
  subst,
}
use titan_tunnel.Socks5.Net.{NetLib}
use titan_tunnel.Socks5.Wire.{Conn, raise}
use titan_tunnel.Socks5.Wire.Inversion.{>>=-ok, read_byte-ok, if-ok}
use titan_tunnel.Socks5.Protocol.{Request, socks5_version}
use titan_tunnel.Socks5.Auth.Sent.{credentials_of, authenticate-ok}
use titan_tunnel.Socks5.Request.{Action, Peer, handle_socks5_request, with_user, serve_socks5_conn}
use titan_tunnel.Socks5.Request.Guard.{HandedOn, request-HandedOn}

-- The bytes with which a client begins that offers methods and then sends a name and a password.
abbrev pub greeting : List ℕ → GoString → GoString → List ℕ → List ℕ
greeting methods name pass rest =
    socks5_version ∷ length methods ∷ (methods ++ credentials_of name pass rest)

module _ (net : NetLib) (accepts : GoString → GoString → Bool) (peer : Peer) where
  handed-HandedOn :
      (user : Option GoString) (name : GoString) (r : Request) (c c' : Conn) (act : Action)
      → user ≡ some name
      → handle_socks5_request net peer (with_user net user r) c ≡ (ok act, c')
      → HandedOn net name act
  handed-HandedOn user name r c c' act e h =
      (request-HandedOn net peer (record r { user = name })).at c c' act
        (subst (λ u. handle_socks5_request net peer (with_user net u r) c ≡ (ok act, c')) e h)

  -- With authentication enabled, a connection that is handed on has begun with a name and a password
  -- that the handler accepts, and it is handed on for that name.
  pub serve-sent :
      (c c' : Conn) (act : Action)
      → serve_socks5_conn net accepts true peer c ≡ (ok act, c')
      → (methods : List ℕ) × (name : GoString) × (pass : GoString) × (rest : List ℕ) × (c.input
          ≡ greeting methods name pass rest)
        × (accepts name pass ≡ true)
        × HandedOn net name act
  unfolding serve_socks5_conn raise
  serve-sent c c' act h =
      let (version, c1, e1, h1) = >>=-ok _ _ c c' act h in
      let i1 = read_byte-ok c c1 version e1 in
      elim (if-ok (version == socks5_version) _ _ c1 c' act h1) [
        | inl (v, h2) ↦
            let (user, c2, e2, h3) = >>=-ok _ _ c1 c' act h2 in
            let (r, c3, e3, h4) = >>=-ok _ _ c2 c' act h3 in
            let (methods, name, pass, rest, u, a, i2) = authenticate-ok accepts c1 c2 user e2 in
            (
              methods,
              name,
              pass,
              rest,
              cc (i1, (==_iff version socks5_version).0 v, i2),
              a,
              handed-HandedOn user name r c3 c' act u h4,
            )
        | inr (v, h2) ↦ absurd (cc h2)
      ]
