-- ===== src/Tunnel/Server.antt =====
-- One session at the server's end: ippop/api/ws/{tunnel,tcpproxy,udpproxy}.go. A session is what the
-- maps, the objects and the goroutine of one session id hold. A function between two points where
-- its goroutine can block is one step. Errors that the source only logs end the step.
pub mod Messages
use titan_tunnel.Prelude.{
  ℕ, List, [], ◌∷◌, ◌++◌, Option, none, some, Result, ok, err, GoString, Bool, true, false,
  if◌then◌else◌, length,
}
use titan_tunnel.Prelude.Maps.{GoMap}
use titan_tunnel.Prelude.State.{St}
use titan_tunnel.Socks5.Net.{NetLib}
use titan_tunnel.Socks5.Datagram.{Datagram, datagram_bytes, new_datagram}
use titan_tunnel.Socks5.Udp.{Socks5UdpInfo}
use titan_tunnel.Socks5.Request.{SocksTargetInfo}
use titan_tunnel.Socks5.Wire.{Error}
use titan_tunnel.Ws.Traffic.{add}
use titan_tunnel.Tunnel.Message.{
  MessageType, unknown, command, proxy_session_create, proxy_session_data, proxy_session_close,
  proxy_udp_data, Message, CreateSessionReply, Proto, Link, write_message, Sent, whole, cut, Conn,
  fresh_conn, close_conn, write_conn, TunnelError, bad_address, marshal_failed, write_failed,
  timed_out, bad_reply, session_not_found, refused, panicked, send,
}

-- Where acceptSocks5TCPConn is: the request is written, the select is entered, the reply is handed
-- over, the extra bytes are sent, the proxy is stored and reads, or it has returned.
pub data Stage : Type 0 where
  idle asked listening : Stage
  answered : GoString → Stage
  created serving ended : Stage
  failed : TunnelError → Stage

-- A UDPProxy, with the datagrams written to its source.
pub record UdpProxy : Type 0 where
  pub info : Socks5UdpInfo
  pub replies : List GoString

-- What the map `proxys` holds: the session's TCPProxy, whose fields are the session's, or a UDPProxy.
pub data Proxy : Type 0 where
  tcp : Proxy
  udp : UdpProxy → Proxy

-- `waiting` and `proxy` are the entries of waitList and proxys. `taken` is all that has been read
-- from the user, the extra bytes of the SOCKS request first.
pub record Session : Type 0 where
  pub stage : Stage
  pub waiting : Bool
  pub proxy : Option Proxy
  pub conn : Conn
  pub is_close_by_client : Bool
  pub user_name : GoString
  pub extra_bytes : GoString
  pub taken : GoString

abbrev pub new_session : Session
new_session = record {
  stage = idle;
  waiting = false;
  proxy = none;
  conn = fresh_conn;
  is_close_by_client = false;
  user_name = [];
  extra_bytes = [];
  taken = [];
}

-- The session, the websocket to the node and the manager's traffic counts.
pub record End : Type 0 where
  pub session : Session
  pub link : Link
  pub users : GoMap ℕ

abbrev pub Step : Type 0
Step = St TunnelError End (Unit {0})

abbrev pub set_stage : Stage → End → End
set_stage stage e = record e { session = record e.session { stage = stage } }

abbrev pub count : GoString → GoString → End → End
count user bytes e = record e { users = add e.users user (length bytes) }

abbrev pub nil_or : TunnelError → Bool → Result TunnelError (Unit {0})
nil_or error true = ok tt
nil_or error false = err error

module _ (proto : Proto) (net : NetLib) (id : GoString) where
  abbrev pub message : MessageType → GoString → Message
  message type payload = record { message_type = type; session_id = id; payload = payload }

  -- onProxyDataFromProxy
  abbrev pub on_proxy_data_from_proxy : GoString → End → End
  on_proxy_data_from_proxy bytes e = record e {
    link = (send proto (message proxy_session_data bytes) e.link).1;
  }

  -- onProxyTCPConnClose
  abbrev pub on_proxy_tcp_conn_close : End → End
  on_proxy_tcp_conn_close e = record e {
    link = (send proto (message proxy_session_close []) e.link).1;
  }

  abbrev pub requested : Bool × Link → End → End
  requested (true, l) e = record e {
    session = record e.session { stage = asked; waiting = true };
    link = l;
  }
  requested (false, l) e = record e {
    session = record e.session { stage = failed write_failed };
    link = l;
  }

  abbrev pub request_create : Option GoString → End → End
  request_create none e = set_stage (failed marshal_failed) e
  request_create (some bytes) e = requested (write_message bytes e.link) e

  -- onClientCreateByDomain and requestCreateProxySession up to the select
  abbrev pub create_by_domain : Option GoString → End → End
  create_by_domain none e = set_stage (failed marshal_failed) e
  create_by_domain (some payload) e =
      request_create (proto.marshal (message proxy_session_create payload)) e

  abbrev pub opened : SocksTargetInfo → End → End
  opened target e = record e {
    session = record e.session { user_name = target.user_name; extra_bytes = target.extra_bytes };
  }

  -- acceptSocks5TCPConn up to the select; `addr` is "domain:port"
  abbrev pub accept_idle : Stage → GoString → SocksTargetInfo → End → End
  accept_idle idle addr target e = create_by_domain (proto.marshal_dest_addr addr) (opened target e)
  accept_idle stage addr target e = e

  unfoldable pub accept_socks5_tcp_conn : SocksTargetInfo → End → End
  accept_socks5_tcp_conn target e =
      accept_idle e.session.stage (target.domain_name ++ (58 ∷ net.itoa target.port)) target e

  abbrev pub listen_asked : Stage → End → End
  listen_asked asked e = set_stage listening e
  listen_asked stage e = e

  -- the goroutine enters the select of requestCreateProxySession
  unfoldable pub start_select : End → End
  start_select e = listen_asked e.session.stage e

  abbrev pub time_out : Stage → End → End
  time_out listening e = record e {
    session = record e.session { stage = failed timed_out; waiting = false };
  }
  time_out stage e = e

  -- case <-ctx.Done()
  unfoldable pub on_timeout : End → End
  on_timeout e = time_out e.session.stage e

  -- if len(targetInfo.ExtraBytes) > 0
  abbrev pub send_extra : GoString → End → End
  send_extra [] e = e
  send_extra (b ∷ bs) e =
      on_proxy_data_from_proxy (b ∷ bs) (record e { session = record e.session { taken = b ∷ bs } })

  abbrev pub on_reply : Option CreateSessionReply → End → End
  on_reply none e = set_stage (failed bad_reply) e
  on_reply (some reply) e =
      if reply.success
      then send_extra e.session.extra_bytes (set_stage created e)
      else set_stage (failed (refused reply.err_msg)) e

  abbrev pub resume_answered : Stage → End → End
  resume_answered (answered payload) e =
      on_reply (proto.unmarshal_reply payload)
        (record e { session = record e.session { waiting = false } })
  resume_answered stage e = e

  -- case data := <-ch, up to the extra bytes
  unfoldable pub resume : End → End
  resume e = resume_answered e.session.stage e

  abbrev pub store_created : Stage → End → End
  store_created created e = record e {
    session = record e.session { stage = serving; proxy = some tcp };
  }
  store_created stage e = e

  -- t.proxys.Store(sessionID, proxyTCP)
  unfoldable pub store_proxy : End → End
  store_proxy e = store_created e.session.stage e

  -- onProxySessionClose after its Load
  abbrev pub close_proxy : Option Proxy → Step
  close_proxy none e = (err session_not_found, e)
  close_proxy (some tcp) e = (
    ok tt,
    record e {
      session = record e.session { is_close_by_client = true; conn = close_conn e.session.conn };
    },
  )
  close_proxy (some (udp u)) e = (err panicked, e)

  -- onProxySessionClose and closeByCleint
  unfoldable pub on_proxy_session_close : Step
  on_proxy_session_close e = close_proxy e.session.proxy e

  abbrev pub read_serving : Stage → GoString → End → End
  read_serving serving bytes e =
      if e.session.conn.is_open
      then on_proxy_data_from_proxy bytes (
          count e.session.user_name bytes
            (record e { session = record e.session { taken = e.session.taken ++ bytes } }))
      else e
  read_serving stage bytes e = e

  -- proxyConn: one Read that succeeds
  unfoldable pub read_user : GoString → End → End
  read_user bytes e = read_serving e.session.stage bytes e

  -- the deferred calls of proxyConn and acceptSocks5TCPConn
  abbrev pub finish : End → End
  finish e = record e {
    session = record e.session { stage = ended; conn = close_conn e.session.conn; proxy = none };
  }

  abbrev pub stop_serving : Stage → End → End
  stop_serving serving e =
      finish (if e.session.is_close_by_client then e else (on_proxy_session_close e).1)
  stop_serving stage e = e

  -- proxyConn: a Read that fails
  unfoldable pub stop_user : End → End
  stop_user e = stop_serving e.session.stage e

  abbrev pub hand_over : Stage → GoString → End → End
  hand_over listening payload e = set_stage (answered payload) e
  hand_over stage payload e = e

  -- onProxySessionCreateReply: without a listener the reply is dropped
  unfoldable pub on_proxy_session_create_reply : GoString → Step
  on_proxy_session_create_reply payload e =
      if e.session.waiting
      then (ok tt, hand_over e.session.stage payload e)
      else (err session_not_found, e)

  -- onProxySessionDataFromTunnel after its Load, with TCPProxy.write
  abbrev pub data_to_proxy : Option Proxy → Sent → GoString → Step
  data_to_proxy none sent bytes e = (err session_not_found, on_proxy_tcp_conn_close e)
  data_to_proxy (some tcp) sent bytes e =
      let r = write_conn sent bytes e.session.conn in
      (
        nil_or write_failed r.0,
        count e.session.user_name bytes (record e { session = record e.session { conn = r.1 } }),
      )
  data_to_proxy (some (udp u)) sent bytes e = (err panicked, e)

  unfoldable pub on_proxy_session_data_from_tunnel : Sent → GoString → Step
  on_proxy_session_data_from_tunnel sent bytes e = data_to_proxy e.session.proxy sent bytes e
