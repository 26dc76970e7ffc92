-- ===== src/Socks5/Request/Guard.antt =====
-- What holds whenever a connection is handed on, ippop/api/socks5/socks5.go.
use titan_tunnel.Prelude.{
  Option, some, GoString, ◌==◌, Bool, true, false, ok, ◌≡◌, refl, Option-cases, inl, inr,
}
use titan_tunnel.Socks5.Net.{Ip, NetLib}
use titan_tunnel.Socks5.Wire.{Conn}
use titan_tunnel.Socks5.Wire.Laws.{
  Yields, Yields-pure, Yields-raise, Yields-if, Yields-bind, Yields-then, yields_rules,
}
use titan_tunnel.Socks5.Protocol.{
  Request, socks5_version, connect_command, bind_command, associate_command,
}
use titan_tunnel.Socks5.Auth.Safety.{Accepted, authenticate-Yields}
use titan_tunnel.Socks5.Request.{
  Action, handle_tcp, associate, Peer, is_blocked, target_address, handle_socks5_connect,
  handle_socks5_bind, handle_socks5_request, with_user, serve_socks5_conn,
}

module _ (net : NetLib) where
  -- A TCP target is for `user` and resolves to an address that is not blocked; an association is
  -- for `user`.
  abbrev pub HandedOn : GoString → Action → Type 0
  HandedOn user (handle_tcp t) =
      (t.user_name ≡ user)
      × (ip : Ip) × (net.resolve (target_address net t.domain_name t.port) ≡ some ip)
      × (is_blocked net ip ≡ false)
  HandedOn user (associate r) = r.user ≡ user

  connect-HandedOn :
      (peer : Peer) (r : Request) → Yields (HandedOn r.user) (handle_socks5_connect net peer r)
  unfolding handle_socks5_connect
  connect-HandedOn peer r =
      elim (Option-cases (net.resolve (target_address net r.dest_addr.fqdn r.dest_addr.port))) [
        | inl e ↦ rw (e, handle_socks5_connect) (Yields-raise _)
        | inr (ip, e) ↦
            rw (e, handle_socks5_connect)
              (Yields-if (is_blocked net ip) _ _ (λ _. Yields-raise _)
                λ open_ip.
                  Yields-bind _ _
                    λ extra. Yields-bind _ _ λ _. Yields-pure _ (refl, ip, e, open_ip))
      ]

  bind-HandedOn : (user : GoString) → Yields (HandedOn user) (handle_socks5_bind net)
  unfolding handle_socks5_bind
  bind-HandedOn user = search yields_rules

  pub request-HandedOn :
      (peer : Peer) (r : Request) → Yields (HandedOn r.user) (handle_socks5_request net peer r)
  unfolding handle_socks5_request
  request-HandedOn peer r =
      Yields-if (r.command == connect_command) _ _ (λ _. connect-HandedOn peer r)
        λ _.
          Yields-if (r.command == bind_command) _ _ (λ _. bind-HandedOn r.user)
            λ _.
              Yields-if (r.command == associate_command) _ _ (λ _. Yields-pure _ refl)
                λ _. Yields-bind _ _ λ _. Yields-raise _

-- What an authenticated connection is handed on with.
abbrev pub IsGuarded : NetLib → (GoString → GoString → Bool) → Action → Type 0
IsGuarded net accepts act =
    (user : GoString) × (pass : GoString) × (accepts user pass ≡ true) × HandedOn net user act

module _ (net : NetLib) (accepts : GoString → GoString → Bool) (peer : Peer) where
  after_auth :
      (user : Option GoString)
      → Accepted accepts user
      → (r : Request)
      → Yields (IsGuarded net accepts) (handle_socks5_request net peer (with_user net user r))
  after_auth user (name, pass, e, a) r = rw e (record {
    at = λ c c' act h.
        (name, pass, a, (request-HandedOn net peer (record r { user = name })).at c c' act h);
  })

  serve-IsGuarded : Yields (IsGuarded net accepts) (serve_socks5_conn net accepts true peer)
  unfolding serve_socks5_conn
  serve-IsGuarded = Yields-bind _ _ λ version.
      Yields-if (version == socks5_version) _ _
        (λ _.
          Yields-then _ _ (authenticate-Yields accepts)
            λ user a. Yields-bind _ _ (after_auth user a))
        λ _. Yields-raise _

  -- With authentication enabled, whatever the client sends and whichever writes fail: if the
  -- connection is handed on, it is with a user for whom the handler accepted a password, and a
  -- TCP target carries that user and resolved to an address that is not loopback, private,
  -- multicast or link-local multicast.
  pub serve_authenticated :
      (c c' : Conn) (act : Action)
      → serve_socks5_conn net accepts true peer c ≡ (ok act, c')
      → IsGuarded net accepts act
  serve_authenticated c c' act h = serve-IsGuarded.at c c' act h
