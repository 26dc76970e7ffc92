-- ===== src/Tunnel/Pipe/Writes.antt =====
-- The messages that the steps of a session of ippop/api/ws/tunnel.go write to the link.
pub mod AtNode
use titan_tunnel.Prelude.{
  ℕ, List, [], ◌∷◌, ◌++◌, Option, none, some, GoString, Bool, true, false, ◌&&◌, Result, ok, err,
  ◌≡◌, refl, ap, ◌∙◌, sym, subst, arith, if-elim, Option-cases, ◌⊎◌, inl, inr,
}
use titan_tunnel.Socks5.Net.{NetLib}
use titan_tunnel.Socks5.Wire.{Error}
use titan_tunnel.Socks5.Datagram.{Datagram}
use titan_tunnel.Socks5.Udp.{Socks5UdpInfo}
use titan_tunnel.Socks5.Request.{SocksTargetInfo}
use titan_tunnel.Tunnel.Message.{
  MessageType, unknown, command, proxy_session_create, proxy_session_data, proxy_session_close,
  proxy_udp_data, Message, CreateSessionReply, UdpData, Proto, Link, write_message, Sent, whole,
  cut, TunnelError, send_bytes, send,
}
use titan_tunnel.Tunnel.Server.{
  Stage, idle, asked, listening, answered, created, serving, ended, failed, Proxy, tcp, udp,
  UdpProxy, End, count, set_stage, message, opened, requested, request_create, create_by_domain,
  accept_idle, accept_socks5_tcp_conn, listen_asked, start_select, time_out, on_timeout, send_extra,
  on_reply, resume_answered, resume, store_created, store_proxy, close_proxy,
  on_proxy_session_close, read_serving, read_user, finish, stop_serving, stop_user, hand_over,
  on_proxy_session_create_reply, data_to_proxy, on_proxy_session_data_from_tunnel,
}
use titan_tunnel.Tunnel.Server.Messages.{
  datagram_to_src, resolved_src, write_to_src, udp_to_proxy, on_proxy_udp_data_from_tunnel,
  send_udp_data, write_to_dest, udp_from_user, accept_socks5_udp_data, expire, expire_udp,
  on_message,
}
use titan_tunnel.Tunnel.World.{
  ServerAct, accept, enter_select, deadline, wake, store, user_sends, user_ends, user_datagram,
  udp_timeout, act_server,
}

module _ (proto : Proto) (net : NetLib) (id : GoString) (P : Link → Type 0)
    (keeps : (type : MessageType) (payload : GoString) (l : Link)
      → P l
      → P (send proto (message proto net id type payload) l).1) where
  accept-keeps :
      (target : SocksTargetInfo) (e : End)
      → P e.link
      → P (accept_socks5_tcp_conn proto net id target e).link
  unfolding accept_socks5_tcp_conn send
  accept-keeps target e p = go e.session.stage
    where
      asks :
          (r : Bool × Link)
          → P r.1
          → P (requested proto net id r (opened proto net id target e)).link
      asks (true, l) q = q
      asks (false, l) q = q

      domain :
          (o : Option GoString)
          → P (create_by_domain proto net id o (opened proto net id target e)).link
      domain none = p
      domain (some payload) =
          let sent : P
              (send_bytes proto (proto.marshal (message proto net id proxy_session_create payload))
                e.link).1 =
            keeps proxy_session_create payload e.link p in
          elim (Option-cases (proto.marshal (message proto net id proxy_session_create payload))) [
            | inl a ↦ rw a p
            | inr (bytes, a) ↦ rw a (
                asks (write_message bytes e.link)
                  (subst (λ (o : Option GoString). P (send_bytes proto o e.link).1) a sent))
          ]

      go :
          (st : Stage)
          → P
              (accept_idle proto net id st
                (target.domain_name ++ (58 ∷ net.itoa target.port))
                target
                e).link
      go idle = domain _
      go st = p

  resume-keeps : (e : End) → P e.link → P (resume proto net id e).link
  unfolding resume
  resume-keeps e p = go e.session.stage
    where
      extra : (bytes : GoString) (e : End) → P e.link → P (send_extra proto net id bytes e).link
      extra [] e p = p
      extra (b ∷ bs) e p = keeps proxy_session_data (b ∷ bs) e.link p

      replied :
          (o : Option CreateSessionReply) (e : End) → P e.link → P (on_reply proto net id o e).link
      replied none e p = p
      replied (some reply) e p =
          if-elim (λ (e : End). P e.link) reply.success _ _
            (λ good. extra e.session.extra_bytes (set_stage created e) p) (λ bad. p)

      go : (st : Stage) → P (resume_answered proto net id st e).link
      go (answered payload) =
          replied _ (record e { session = record e.session { waiting = false } }) p
      go st = p

  close-keeps : (e : End) → P e.link → P (on_proxy_session_close proto net id e).1.link
  unfolding on_proxy_session_close
  close-keeps e p = go e.session.proxy
    where
      go : (o : Option Proxy) → P (close_proxy proto net id o e).1.link
      go none = p
      go (some tcp) = p
      go (some (udp u)) = p

  to_dest-keeps :
      (bytes : GoString) (u : UdpProxy) (e : End)
      → P e.link
      → P (write_to_dest proto net id bytes u e).1.link
  unfolding write_to_dest
  to_dest-keeps bytes u e p = go _
    where
      go :
          (o : Option GoString)
          → P (send_udp_data proto net id o (count u.info.user_name bytes e)).1.link
      go none = p
      go (some payload) = keeps proxy_udp_data payload e.link p

  pub act-keeps : (act : ServerAct) (e : End) → P e.link → P (act_server proto net act id e).1.link
  unfolding start_select on_timeout store_proxy read_user stop_user accept_socks5_udp_data
      expire_udp
  act-keeps (accept target) e p = accept-keeps target e p
  act-keeps enter_select e p = go e.session.stage
    where
      go : (st : Stage) → P (listen_asked proto net id st e).link
      go asked = p
      go st = p
  act-keeps deadline e p = go e.session.stage
    where
      go : (st : Stage) → P (time_out proto net id st e).link
      go listening = p
      go st = p
  act-keeps wake e p = resume-keeps e p
  act-keeps store e p = go e.session.stage
    where
      go : (st : Stage) → P (store_created proto net id st e).link
      go created = p
      go st = p
  act-keeps (user_sends bytes) e p = go e.session.stage
    where
      go : (st : Stage) → P (read_serving proto net id st bytes e).link
      go serving =
          if-elim (λ (e : End). P e.link) e.session.conn.is_open _ _
            (λ open_. keeps proxy_session_data bytes e.link p) (λ shut. p)
      go st = p
  act-keeps user_ends e p = go e.session.stage
    where
      go : (st : Stage) → P (stop_serving proto net id st e).link
      go serving =
          if-elim (λ (x : End). P (finish proto net id x).link) e.session.is_close_by_client _ _
            (λ by_client. p) (λ by_user. close-keeps e p)
      go st = p
  act-keeps (user_datagram info bytes) e p = go e.session.proxy
    where
      go : (o : Option Proxy) → P (udp_from_user proto net id o info bytes e).1.link
      go none =
          let u : UdpProxy = record { info = info; replies = [] } in
          to_dest-keeps bytes u (record e { session = record e.session { proxy = some (udp u) } }) p
      go (some tcp) = p
      go (some (udp u)) = to_dest-keeps bytes u e p
  act-keeps udp_timeout e p = go e.session.proxy
    where
      go : (o : Option Proxy) → P (expire proto net id o e).link
      go none = p
      go (some tcp) = p
      go (some (udp u)) = p

  pub message-keeps :
      (sent : Sent) (type : MessageType) (payload : GoString) (e : End)
      → P e.link
      → P (on_message proto net id sent type payload e).1.link
  unfolding on_message on_proxy_session_create_reply on_proxy_session_data_from_tunnel
      on_proxy_udp_data_from_tunnel write_to_src
  message-keeps sent proxy_session_create payload e p =
      if-elim (λ (x : Result TunnelError (Unit {0}) × End). P x.1.link) e.session.waiting _ _
        (λ waits. go e.session.stage) (λ gone. p)
    where
      go : (st : Stage) → P (hand_over proto net id st payload e).link
      go listening = p
      go st = p
  message-keeps sent proxy_session_data payload e p = go e.session.proxy
    where
      go : (o : Option Proxy) → P (data_to_proxy proto net id o sent payload e).1.link
      go none = keeps proxy_session_close [] e.link p
      go (some tcp) = p
      go (some (udp u)) = p
  message-keeps sent proxy_session_close payload e p = close-keeps e p
  message-keeps sent proxy_udp_data payload e p = go e.session.proxy
    where
      written :
          (sent : Sent) (r : Result Error Datagram) (u : UdpProxy)
          → P (datagram_to_src proto net id sent r u (count u.info.user_name payload e)).1.link
      written sent (err x) u = p
      written whole (ok d) u = p
      written (cut k) (ok d) u = p

      resolved :
          (o : Option (List ℕ)) (u : UdpProxy)
          → P (resolved_src proto net id sent o payload u (count u.info.user_name payload e)).1.link
      resolved none u = p
      resolved (some ip) u = written sent _ u

      go : (o : Option Proxy) → P (udp_to_proxy proto net id o sent payload e).1.link
      go none = p
      go (some tcp) = p
      go (some (udp u)) = resolved _ u
  message-keeps sent unknown payload e p = p
  message-keeps sent command payload e p = p
