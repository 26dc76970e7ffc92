-- ===== src/Socks5/Auth/Sent.antt =====
-- What a client has sent when its negotiation succeeds, ippop/api/socks5/socks5.go.
use titan_tunnel.Prelude.{
  Bool, true, ◌∙◌, ℕ, List, [], ◌∷◌, ◌++◌, Option, some, ok, GoString, ◌==◌, ==_iff, not, ◌≡◌, refl,
  arith, length, inl, inr,
}
use titan_tunnel.Socks5.Wire.{Conn, raise}
use titan_tunnel.Socks5.Wire.Inversion.{
  >>=-ok, read_byte-ok, read_full-ok, write-ok, if-ok, pure-ok, raise-ok,
}
use titan_tunnel.Socks5.Datagram.{byte_at}
use titan_tunnel.Socks5.Protocol.{
  user_pass_auth, user_auth_version, read_auth_methods, no_acceptable_auth, user_pass_auth_failure,
}
use titan_tunnel.Socks5.Auth.{offers, verify, user_pass_auth_exchange, authenticate}

two_bytes : (xs : List ℕ) → length xs ≡ 2 → xs ≡ byte_at xs 0 ∷ byte_at xs 1 ∷ []
two_bytes [] h = ground arith
two_bytes (a ∷ []) h = ground arith
two_bytes (a ∷ b ∷ []) h = refl
two_bytes (a ∷ b ∷ c ∷ xs) h = absurd (omega (arith, h))

-- The bytes of a user name and a password as the client sends them, RFC 1929.
abbrev pub credentials_of : GoString → GoString → List ℕ → List ℕ
credentials_of name pass rest =
    user_auth_version ∷ length name ∷ (name ++ (length pass ∷ (pass ++ rest)))

pieces-join :
    (header name pass i i1 i2 i3 i4 rest : List ℕ) (pass_len : ℕ)
    → i ≡ i1
    → i1 ≡ header ++ i2
    → header ≡ byte_at header 0 ∷ byte_at header 1 ∷ []
    → byte_at header 0 ≡ user_auth_version
    → length name ≡ byte_at header 1
    → i2 ≡ name ++ i3
    → i3 ≡ pass_len ∷ i4
    → length pass ≡ pass_len
    → i4 ≡ pass ++ rest
    → i ≡ credentials_of name pass rest
pieces-join header name pass i i1 i2 i3 i4 rest pass_len e1 e2 h v n e3 e4 p e5 =
    e1 ∙ e2 ∙ go header h v n
  where
    tail : i2 ≡ name ++ (length pass ∷ (pass ++ rest))
    tail = cc (e3, e4, p, e5)

    go :
        (header : List ℕ)
        → header ≡ byte_at header 0 ∷ byte_at header 1 ∷ []
        → byte_at header 0 ≡ user_auth_version
        → length name ≡ byte_at header 1
        → header ++ i2 ≡ credentials_of name pass rest
    go [] h v n = absurd (ground arith)
    go (x ∷ []) h v n = absurd (ground arith)
    go (x ∷ y ∷ []) h v n = cc (v, n, tail)
    go (x ∷ y ∷ z ∷ zs) h v n = absurd (ground arith)

module _ (accepts : GoString → GoString → Bool) where
  verify-ok :
      (name pass : GoString) (c c' : Conn) (user : Option GoString)
      → verify accepts name pass c ≡ (ok user, c')
      → (user ≡ some name) × (accepts name pass ≡ true)
  unfolding verify user_pass_auth_failure
  verify-ok name pass c c' user h = elim (if-ok (accepts name pass) _ _ c c' user h) [
    | inl (a, e) ↦
        let (t, c1, e1, e2) = >>=-ok _ _ c c' user e in ((pure-ok (some name) user c1 c' e2).0, a)
    | inr (a, e) ↦ raise-ok _ _ c c' user e
  ]

  exchange-ok :
      (c c' : Conn) (user : Option GoString)
      → user_pass_auth_exchange accepts c ≡ (ok user, c')
      → (name : GoString) × (pass : GoString) × (rest : List ℕ) × (user ≡ some name)
        × (accepts name pass ≡ true)
        × (c.input ≡ credentials_of name pass rest)
  unfolding user_pass_auth_exchange raise
  exchange-ok c c' user h =
      let (t, c1, e1, h1) = >>=-ok _ _ c c' user h in
      let (header, c2, e2, h2) = >>=-ok _ _ c1 c' user h1 in
      elim (if-ok (byte_at header 0 == user_auth_version) _ _ c2 c' user h2) [
        | inl (v, h3) ↦
            let (name, c3, e3, h4) = >>=-ok _ _ c2 c' user h3 in
            let (pass_len, c4, e4, h5) = >>=-ok _ _ c3 c' user h4 in
            let (pass, c5, e5, h6) = >>=-ok _ _ c4 c' user h5 in
            let (u, a) = verify-ok name pass c5 c' user h6 in
            let (l2, i2) = read_full-ok 2 c1 c2 header e2 in
            let (l3, i3) = read_full-ok (byte_at header 1) c2 c3 name e3 in
            let (l5, i5) = read_full-ok pass_len c4 c5 pass e5 in
            let i1 = write-ok _ c c1 t e1 in
            let i4 = read_byte-ok c3 c4 pass_len e4 in
            let b = two_bytes header l2 in
            (
              name,
              pass,
              c5.input,
              u,
              a,
              pieces-join header name pass c.input c1.input c2.input c3.input c4.input c5.input
                  pass_len i1 i2 b ((==_iff (byte_at header 0) user_auth_version).0 v) l3 i3 i4 l5
                  i5,
            )
        | inr (v, h3) ↦ absurd (cc h3)
      ]

  -- A negotiation with authentication that succeeds has read the methods of the client and then the
  -- user's name with a password that the handler accepts.
  pub authenticate-ok :
      (c c' : Conn) (user : Option GoString)
      → authenticate accepts true c ≡ (ok user, c')
      → (methods : List ℕ) × (name : GoString) × (pass : GoString) × (rest : List ℕ) × (user
          ≡ some name)
        × (accepts name pass ≡ true)
        × (c.input ≡ length methods ∷ (methods ++ credentials_of name pass rest))
  unfolding authenticate no_acceptable_auth read_auth_methods
  authenticate-ok c c' user h =
      let (methods, c1, e1, h1) = >>=-ok _ _ c c' user h in
      let (n, c2, e2, e3) = >>=-ok _ _ c c1 methods e1 in
      let i1 = read_byte-ok c c2 n e2 in
      let (l, i2) = read_full-ok n c2 c1 methods e3 in
      elim (if-ok (not (offers user_pass_auth methods)) _ _ c1 c' user h1) [
        | inl (b, h2) ↦ raise-ok _ _ c1 c' user h2
        | inr (b, h2) ↦
            let (name, pass, rest, u, a, i) = exchange-ok c1 c' user h2 in
            (methods, name, pass, rest, u, a, cc (i1, l, i2, i))
      ]
