-- ===== src/Tunnel/Panics.antt =====
-- The type assertions on the entries of `proxys`, ippop/api/ws/tunnel.go. onMessage runs in the
-- goroutine of ServeWS, whose panics net/http recovers.
use titan_tunnel.Prelude.{
  arith, sym, ap, ◌∙◌, subst, not, ℕ, List, ◌∷◌, Option, none, some, GoString, Bool, true, false,
  Result, ok, err, ◌≡◌, refl, if-elim,
}
use titan_tunnel.Socks5.Net.{NetLib}
use titan_tunnel.Socks5.Wire.{Error}
use titan_tunnel.Socks5.Datagram.{Datagram}
use titan_tunnel.Tunnel.Message.{
  MessageType, unknown, command, proxy_session_create, proxy_session_data, proxy_session_close,
  proxy_udp_data, Message, Proto, Sent, whole, cut, TunnelError, write_failed,
}
use titan_tunnel.Tunnel.Server.{
  Proxy, tcp, udp, UdpProxy, End, nil_or, count, on_proxy_session_create_reply,
  on_proxy_session_data_from_tunnel, on_proxy_session_close, data_to_proxy, close_proxy,
}
use titan_tunnel.Tunnel.Server.Messages.{
  on_proxy_udp_data_from_tunnel, udp_to_proxy, write_to_src, resolved_src, datagram_to_src,
  on_message,
}
use titan_tunnel.Tunnel.World.{
  is_panic, World, unwound, set_queue, server_end, put_server, server_message, server_read,
  server_reads, step,
}

-- The messages of a node whose handler takes the entry of `proxys` for one of the other type.
abbrev pub is_confused : MessageType → Option Proxy → Bool
is_confused proxy_session_data (some (udp u)) = true
is_confused proxy_session_close (some (udp u)) = true
is_confused proxy_udp_data (some tcp) = true
is_confused type proxy = false

module _ (proto : Proto) (net : NetLib) (id : GoString) where
  -- onMessage panics exactly on a confused message.
  on_message-panics :
      (sent : Sent) (type : MessageType) (payload : GoString) (e : End)
      → is_panic (on_message proto net id sent type payload e).0 ≡ is_confused type e.session.proxy
  unfolding on_message on_proxy_session_create_reply on_proxy_session_data_from_tunnel
      on_proxy_session_close on_proxy_udp_data_from_tunnel write_to_src
  on_message-panics sent type payload e = go type
    where
      written :
          (sent : Sent) (r : Result Error Datagram) (u : UdpProxy)
          → is_panic (datagram_to_src proto net id sent r u (count u.info.user_name payload e)).0
            ≡ false
      written sent (err x) u = refl
      written whole (ok d) u = refl
      written (cut k) (ok d) u = refl

      resolved :
          (o : Option (List ℕ)) (u : UdpProxy)
          → is_panic
              (resolved_src proto net id sent o payload u (count u.info.user_name payload e)).0
            ≡ false
      resolved none u = refl
      resolved (some ip) u = written sent _ u

      calm_write : (b : Bool) → is_panic (nil_or write_failed b) ≡ false
      calm_write true = refl
      calm_write false = refl

      data_case :
          (p : Option Proxy)
          → is_panic (data_to_proxy proto net id p sent payload e).0
            ≡ is_confused proxy_session_data p
      data_case none = refl
      data_case (some tcp) = calm_write _
      data_case (some (udp u)) = refl

      close_case :
          (p : Option Proxy)
          → is_panic (close_proxy proto net id p e).0 ≡ is_confused proxy_session_close p
      close_case none = refl
      close_case (some tcp) = refl
      close_case (some (udp u)) = refl

      udp_case :
          (p : Option Proxy)
          → is_panic (udp_to_proxy proto net id p sent payload e).0 ≡ is_confused proxy_udp_data p
      udp_case none = refl
      udp_case (some tcp) = refl
      udp_case (some (udp u)) = resolved _ u

      go :
          (type : MessageType)
          → is_panic (on_message proto net id sent type payload e).0
            ≡ is_confused type e.session.proxy
      go proxy_session_create =
          if-elim (λ (x : Result TunnelError (Unit {0}) × End). is_panic x.0 ≡ false)
            e.session.waiting _ _ (λ waits. refl) (λ gone. refl)
      go proxy_session_data = data_case e.session.proxy
      go proxy_session_close = close_case e.session.proxy
      go proxy_udp_data = udp_case e.session.proxy
      go unknown = refl
      go command = refl

module _ (proto : Proto) (net : NetLib) where
  unwound-readable :
      (b : Bool) (w : World) → w.up.readable ≡ true → (unwound proto net b w).up.readable ≡ not b
  unwound-readable true w h = refl
  unwound-readable false w h = h

  unwound-writable :
      (b : Bool) (w : World) → b ≡ true → (unwound proto net b w).down.writable ≡ false
  unwound-writable true w h = refl
  unwound-writable false w h = absurd (ground arith)

  -- When the server reads a message from a node whose session's entry in `proxys` is a UDPProxy while
  -- the message is data or a close, or a TCPProxy while the message is UDP data, its read loop ends
  -- for all sessions of the tunnel and nothing more is written to the node. On every other message the
  -- read loop goes on, whatever error onMessage returns.
  pub step-server_reads :
      (sent : Sent) (w : World) (bytes : GoString) (rest : List GoString) (m : Message)
      → w.up.queue ≡ bytes ∷ rest
      → w.up.readable ≡ true
      → proto.unmarshal bytes ≡ some m
      → ((step proto net (server_reads sent) w).up.readable
          ≡ not (is_confused m.message_type (w.sessions m.session_id).proxy))
        × (is_confused m.message_type (w.sessions m.session_id).proxy ≡ true
            → (step proto net (server_reads sent) w).down.writable ≡ false)
  unfolding step
  step-server_reads sent w bytes rest m q r u =
      subst (λ x. Outcome (server_read proto net sent x w)) (sym q)
        (if-elim Outcome w.up.readable _ _
          (λ t. subst (λ o. Outcome (server_message proto net sent o w')) (sym u) read)
          (λ f. absurd (ground arith)))
    where
      w' : World
      w' = record w { up = set_queue rest w.up }

      confused : Bool
      confused = is_confused m.message_type (w.sessions m.session_id).proxy

      Outcome : World → Type 0
      Outcome v = (v.up.readable ≡ not confused) × (confused ≡ true → v.down.writable ≡ false)

      result : Result TunnelError (Unit {0}) × End
      result =
          on_message proto net m.session_id sent m.message_type m.payload
            (server_end m.session_id w')

      same : is_panic result.0 ≡ confused
      same =
          on_message-panics proto net m.session_id sent m.message_type m.payload
            (server_end m.session_id w')

      read : Outcome (unwound proto net (is_panic result.0) (put_server m.session_id w' result))
      read = (
        unwound-readable (is_panic result.0) (put_server m.session_id w' result) r ∙ ap not same,
        λ c. unwound-writable (is_panic result.0) (put_server m.session_id w' result) (same ∙ c),
      )
