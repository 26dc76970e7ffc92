-- ===== src/Tunnel/Pipe/Down/Messages.antt =====
-- The messages of a node and the user's datagrams at the server, ippop/api/ws, and the invariant from
-- the user to the target.
use titan_tunnel.Prelude.{
  ℕ, List, [], ◌∷◌, Option, none, some, GoString, true, Result, ok, err, ◌≡◌, refl, ap, arith,
  Bool-cases, if-elim, inl, inr,
}
use titan_tunnel.Socks5.Net.{NetLib}
use titan_tunnel.Socks5.Wire.{Error}
use titan_tunnel.Socks5.Datagram.{Datagram}
use titan_tunnel.Socks5.Udp.{Socks5UdpInfo}
use titan_tunnel.Tunnel.Message.{
  MessageType, unknown, command, proxy_session_create, proxy_session_data, proxy_session_close,
  proxy_udp_data, Message, Proto, ProtoLaws, Sent, whole, cut, TunnelError,
}
use titan_tunnel.Tunnel.Server.{
  Stage, listening, Proxy, tcp, udp, UdpProxy, End, message, close_proxy, on_proxy_session_close,
  hand_over, on_proxy_session_create_reply, data_to_proxy, on_proxy_session_data_from_tunnel, count,
}
use titan_tunnel.Tunnel.Server.Messages.{
  udp_to_proxy, on_proxy_udp_data_from_tunnel, send_udp_data, datagram_to_src, resolved_src,
  write_to_src, expire, clear, write_to_dest, udp_from_user, accept_socks5_udp_data, expire_udp,
  clear_proxys, on_message,
}
use titan_tunnel.Tunnel.Node.{NodeSession}
use titan_tunnel.Tunnel.World.{
  ServerAct, accept, enter_select, deadline, wake, store, user_sends, user_ends, user_datagram,
  udp_timeout, act_server,
}
use titan_tunnel.Tunnel.Pipe.Ledger.{is_success, view}
use titan_tunnel.Tunnel.Pipe.Down.{is_sending, Inv}
use titan_tunnel.Tunnel.Pipe.Down.Moves.{Inv-reply, Inv-up}
use titan_tunnel.Tunnel.Pipe.Down.ServerEnd.{
  Holds, Inv-send, accept-Holds, start_select-Holds, time_out-Holds, resume-Holds, store-Holds,
  read-Holds, stop-Holds,
}

module _ (proto : Proto) (laws : ProtoLaws proto) (net : NetLib) (id : GoString)
    (valid : proto.is_utf8 id ≡ true) (n : NodeSession) (up : List Message) where
  abbrev Held : End → Type 0
  Held = Holds proto laws net id valid n up

  -- A datagram of the user.
  to_dest-Holds :
      (bytes : GoString) (u : UdpProxy) (e : End)
      → Held e
      → Held (write_to_dest proto net id bytes u e).1
  unfolding write_to_dest
  to_dest-Holds bytes u e inv = go (proto.marshal_udp_data _)
    where
      go :
          (o : Option GoString)
          → Held (send_udp_data proto net id o (count u.info.user_name bytes e)).1
      go none = inv
      go (some payload) =
          Inv-send proto laws net id valid n up e.session.stage e.session.taken e.link
            proxy_udp_data payload refl refl inv

  pub datagram-Holds :
      (info : Socks5UdpInfo) (bytes : GoString) (e : End)
      → Held e
      → Held (accept_socks5_udp_data proto net id info bytes e).1
  unfolding accept_socks5_udp_data
  datagram-Holds info bytes e inv = go e.session.proxy
    where
      go : (p : Option Proxy) → Held (udp_from_user proto net id p info bytes e).1
      go none =
          let u : UdpProxy = record { info = info; replies = [] } in
          to_dest-Holds bytes u (record e { session = record e.session { proxy = some (udp u) } })
            inv
      go (some tcp) = inv
      go (some (udp u)) = to_dest-Holds bytes u e inv

  pub expire-Holds : (e : End) → Held e → Held (expire_udp proto net id e)
  unfolding expire_udp
  expire-Holds e inv = go e.session.proxy
    where
      go : (p : Option Proxy) → Held (expire proto net id p e)
      go none = inv
      go (some tcp) = inv
      go (some (udp u)) = inv

  pub clear-Holds :
      (e : End) → Held e → Held (record e { session = (clear_proxys proto net id e).session })
  unfolding clear_proxys
  clear-Holds e inv = go e.session.proxy
    where
      go : (p : Option Proxy) → Held (record e { session = (clear proto net id p e).session })
      go none = inv
      go (some tcp) = inv
      go (some (udp u)) = inv

  -- Every step of the session's goroutine.
  pub act-Holds : (act : ServerAct) (e : End) → Held e → Held (act_server proto net act id e).1
  act-Holds (accept target) e inv = accept-Holds proto laws net id valid n up target e inv
  act-Holds enter_select e inv = start_select-Holds proto laws net id valid n up e inv
  act-Holds deadline e inv = time_out-Holds proto laws net id valid n up e inv
  act-Holds wake e inv = resume-Holds proto laws net id valid n up e inv
  act-Holds store e inv = store-Holds proto laws net id valid n up e inv
  act-Holds (user_sends bytes) e inv = read-Holds proto laws net id valid n up bytes e inv
  act-Holds user_ends e inv = stop-Holds proto laws net id valid n up e inv
  act-Holds (user_datagram info bytes) e inv = datagram-Holds info bytes e inv
  act-Holds udp_timeout e inv = expire-Holds e inv

  -- A message of the session from the node is taken off the websocket and handled.
  reply-Holds :
      (payload : GoString) (e : End)
      → Inv proto e.session.stage e.session.taken n
          (view proto id e.link.queue)
          (message proto net id proxy_session_create payload ∷ up)
          e.link.writable
      → Held (on_proxy_session_create_reply proto net id payload e).1
  unfolding on_proxy_session_create_reply
  reply-Holds payload e inv =
      if-elim (λ (r : Result TunnelError (Unit {0}) × End). Held r.1) e.session.waiting _ _
        (λ waits. go e.session.stage refl) (λ gone. popped)
    where
      popped : Held e
      popped = Inv-up proto inv up (λ h g. omega (arith, g))

      go : (st : Stage) → e.session.stage ≡ st → Held (hand_over proto net id st payload e)
      go listening eq = Inv-reply proto inv payload up (ap is_sending eq) (λ g. (
        omega (arith, g),
        elim (Bool-cases (is_success (proto.unmarshal_reply payload))) [
          | inl good ↦ absurd (ground (arith, good, g))
          | inr bad ↦ bad
        ],
      ))
      go st eq = popped

  data-Holds :
      (sent : Sent) (bytes : GoString) (e : End)
      → Held e
      → Held (on_proxy_session_data_from_tunnel proto net id sent bytes e).1
  unfolding on_proxy_session_data_from_tunnel
  data-Holds sent bytes e inv = go e.session.proxy
    where
      go : (p : Option Proxy) → Held (data_to_proxy proto net id p sent bytes e).1
      go none =
          Inv-send proto laws net id valid n up e.session.stage e.session.taken e.link
            proxy_session_close [] refl refl inv
      go (some tcp) = inv
      go (some (udp u)) = inv

  close-Holds : (e : End) → Held e → Held (on_proxy_session_close proto net id e).1
  unfolding on_proxy_session_close
  close-Holds e inv = go e.session.proxy
    where
      go : (p : Option Proxy) → Held (close_proxy proto net id p e).1
      go none = inv
      go (some tcp) = inv
      go (some (udp u)) = inv

  udp-Holds :
      (sent : Sent) (bytes : GoString) (e : End)
      → Held e
      → Held (on_proxy_udp_data_from_tunnel proto net id sent bytes e).1
  unfolding on_proxy_udp_data_from_tunnel write_to_src
  udp-Holds sent bytes e inv = go e.session.proxy
    where
      written :
          (sent : Sent) (r : Result Error Datagram) (u : UdpProxy)
          → Held (datagram_to_src proto net id sent r u (count u.info.user_name bytes e)).1
      written sent (err x) u = inv
      written whole (ok d) u = inv
      written (cut k) (ok d) u = inv

      resolved :
          (o : Option (List ℕ)) (u : UdpProxy)
          → Held (resolved_src proto net id sent o bytes u (count u.info.user_name bytes e)).1
      resolved none u = inv
      resolved (some ip) u = written sent _ u

      go : (p : Option Proxy) → Held (udp_to_proxy proto net id p sent bytes e).1
      go none = inv
      go (some tcp) = inv
      go (some (udp u)) = resolved _ u

  pub message-Holds :
      (sent : Sent) (type : MessageType) (payload : GoString) (e : End)
      → Inv proto e.session.stage e.session.taken n
          (view proto id e.link.queue)
          (message proto net id type payload ∷ up)
          e.link.writable
      → Held (on_message proto net id sent type payload e).1
  unfolding on_message
  message-Holds sent type payload e inv = go type inv popped
    where
      popped : Held e
      popped = Inv-up proto inv up (λ h g. omega (arith, g))

      go :
          (type : MessageType)
          → Inv proto e.session.stage e.session.taken n
              (view proto id e.link.queue)
              (message proto net id type payload ∷ up)
              e.link.writable
          → Held e
          → Held (on_message proto net id sent type payload e).1
      go proxy_session_create inv popped = reply-Holds payload e inv
      go proxy_session_data inv popped = data-Holds sent payload e popped
      go proxy_session_close inv popped = close-Holds e popped
      go proxy_udp_data inv popped = udp-Holds sent payload e popped
      go unknown inv popped = popped
      go command inv popped = popped
