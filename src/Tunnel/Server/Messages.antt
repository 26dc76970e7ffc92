-- ===== src/Tunnel/Server/Messages.antt =====
-- The messages and datagrams of a session at the server's end: onMessage of ippop/api/ws/tunnel.go,
-- UDPProxy of ippop/api/ws/udpproxy.go, and clearProxys.
use titan_tunnel.Prelude.{ℕ, List, [], ◌∷◌, ◌++◌, Option, none, some, Result, ok, err, GoString}
use titan_tunnel.Socks5.Net.{NetLib}
use titan_tunnel.Socks5.Datagram.{Datagram, datagram_bytes, new_datagram}
use titan_tunnel.Socks5.Udp.{Socks5UdpInfo}
use titan_tunnel.Socks5.Wire.{Error}
use titan_tunnel.Tunnel.Message.{
  MessageType, unknown, command, proxy_session_create, proxy_session_data, proxy_session_close,
  proxy_udp_data, Proto, Sent, whole, cut, close_conn, bad_address, marshal_failed, write_failed,
  session_not_found, panicked, send,
}
use titan_tunnel.Tunnel.Server.{
  Proxy, tcp, udp, UdpProxy, End, Step, count, nil_or, message, on_proxy_session_close,
  on_proxy_session_create_reply, on_proxy_session_data_from_tunnel,
}

module _ (proto : Proto) (net : NetLib) (id : GoString) where
  -- UDPProxy.writeToSrc, after the traffic is counted
  abbrev pub datagram_to_src : Sent → Result Error Datagram → UdpProxy → Step
  datagram_to_src sent (err x) u e = (err bad_address, e)
  datagram_to_src whole (ok d) u e = (
    ok tt,
    record e {
      session = record e.session {
        proxy = some (udp (record u { replies = u.replies ++ (datagram_bytes d ∷ []) }));
      };
    },
  )
  datagram_to_src (cut n) (ok d) u e = (err write_failed, e)

  abbrev pub resolved_src : Sent → Option (List ℕ) → GoString → UdpProxy → Step
  resolved_src sent none bytes u e = (err bad_address, e)
  resolved_src sent (some ip) bytes u e =
      datagram_to_src sent (new_datagram net u.info.dest bytes) u e

  unfoldable pub write_to_src : Sent → GoString → UdpProxy → Step
  write_to_src sent bytes u e =
      resolved_src sent (net.resolve u.info.src) bytes u (count u.info.user_name bytes e)

  -- onProxyUDPDataFromTunnel after its Load: proxy.(*UDPProxy)
  abbrev pub udp_to_proxy : Option Proxy → Sent → GoString → Step
  udp_to_proxy none sent bytes e = (err session_not_found, e)
  udp_to_proxy (some tcp) sent bytes e = (err panicked, e)
  udp_to_proxy (some (udp u)) sent bytes e = write_to_src sent bytes u e

  unfoldable pub on_proxy_udp_data_from_tunnel : Sent → GoString → Step
  on_proxy_udp_data_from_tunnel sent bytes e = udp_to_proxy e.session.proxy sent bytes e

  abbrev pub send_udp_data : Option GoString → Step
  send_udp_data none e = (err marshal_failed, e)
  send_udp_data (some payload) e =
      let r = send proto (message proto net id proxy_udp_data payload) e.link in
      (nil_or write_failed r.0, record e { link = r.1 })

  -- UDPProxy.writeToDest
  unfoldable pub write_to_dest : GoString → UdpProxy → Step
  write_to_dest bytes u e =
      send_udp_data (proto.marshal_udp_data (record { addr = u.info.dest; data_ = bytes }))
        (count u.info.user_name bytes e)

  -- acceptSocks5UDPData after its Load
  abbrev pub udp_from_user : Option Proxy → Socks5UdpInfo → GoString → Step
  udp_from_user none info bytes e =
      let u : UdpProxy = record { info = info; replies = [] } in
      write_to_dest bytes u (record e { session = record e.session { proxy = some (udp u) } })
  udp_from_user (some tcp) info bytes e = (err panicked, e)
  udp_from_user (some (udp u)) info bytes e = write_to_dest bytes u e

  unfoldable pub accept_socks5_udp_data : Socks5UdpInfo → GoString → Step
  accept_socks5_udp_data info bytes e = udp_from_user e.session.proxy info bytes e

  abbrev pub expire : Option Proxy → End → End
  expire (some (udp u)) e = record e { session = record e.session { proxy = none } }
  expire proxy e = e

  -- waitTimeout: the deferred Delete
  unfoldable pub expire_udp : End → End
  expire_udp e = expire e.session.proxy e

  abbrev pub clear : Option Proxy → End → End
  clear (some tcp) e = record e {
    session = record e.session { conn = close_conn e.session.conn; proxy = none };
  }
  clear proxy e = record e { session = record e.session { proxy = none } }

  -- clearProxys, for this session
  unfoldable pub clear_proxys : End → End
  clear_proxys e = clear e.session.proxy e

  -- onMessage after Unmarshal; its session id is this session's
  unfoldable pub on_message : Sent → MessageType → GoString → Step
  on_message sent proxy_session_create payload e =
      on_proxy_session_create_reply proto net id payload e
  on_message sent proxy_session_data payload e =
      on_proxy_session_data_from_tunnel proto net id sent payload e
  on_message sent proxy_session_close payload e = on_proxy_session_close proto net id e
  on_message sent proxy_udp_data payload e = on_proxy_udp_data_from_tunnel sent payload e
  on_message sent unknown payload e = (ok tt, e)
  on_message sent command payload e = (ok tt, e)
