-- ===== src/Tunnel/Node.antt =====
-- One session at the node's end: client/tunnel/{tunnel,tcpproxy,udpproxy}.go.
use titan_tunnel.Prelude.{
  List, [], ◌∷◌, ◌++◌, Option, none, some, Result, ok, err, GoString, Bool, true, false, ◌&&◌,
  if◌then◌else◌,
}
use titan_tunnel.Prelude.State.{St}
use titan_tunnel.Tunnel.Message.{
  MessageType, unknown, command, proxy_session_create, proxy_session_data, proxy_session_close,
  proxy_udp_data, Message, UdpData, Proto, Link, write_message, Sent, whole, cut, Conn, fresh_conn,
  close_conn, write_conn, TunnelError, bad_message, bad_address, marshal_failed, write_failed,
  session_not_found, panicked,
}

-- A UDPProxy: the datagrams written to its destination.
pub record NodeUdp : Type 0 where
  pub sent : List GoString

-- `creating` are the payloads of the goroutines in createProxySession; `stored` is the entry of
-- proxySessions; `running` is the goroutine in proxyConn; `started` says that a connection has once
-- been made, and `fetched` is all that has been read from the target.
pub record NodeSession : Type 0 where
  pub creating : List GoString
  pub stored : Bool
  pub running : Bool
  pub started : Bool
  pub conn : Conn
  pub is_close_by_server : Bool
  pub fetched : GoString
  pub proxy_udp : Option NodeUdp

abbrev pub new_node_session : NodeSession
new_node_session = record {
  creating = [];
  stored = false;
  running = false;
  started = false;
  conn = fresh_conn;
  is_close_by_server = false;
  fetched = [];
  proxy_udp = none;
}

-- The session and the websocket; `attached` is `t.conn != nil`.
pub record NodeEnd : Type 0 where
  pub session : NodeSession
  pub link : Link
  pub attached : Bool

abbrev pub NodeStep : Type 0
NodeStep = St TunnelError NodeEnd (Unit {0})

-- What net.DialTimeout, or net.ResolveUDPAddr and net.DialUDP, say.
pub data Dialed : Type 0 where
  connected : Dialed
  dial_failed : GoString → Dialed

module _ (proto : Proto) (id : GoString) where
  abbrev pub node_message : MessageType → GoString → Message
  node_message type payload = record { message_type = type; session_id = id; payload = payload }

  abbrev pub wrote : Bool × Link → NodeStep
  wrote (true, l) e = (ok tt, record e { link = l })
  wrote (false, l) e = (err write_failed, record e { link = l })

  -- t.write after proto.Marshal: t.conn is nil once Serve has returned
  abbrev pub write_marshalled : Option GoString → NodeStep
  write_marshalled none e = (err marshal_failed, e)
  write_marshalled (some bytes) e =
      if e.attached then wrote (write_message bytes e.link) e else (err panicked, e)

  unfoldable pub node_send : MessageType → GoString → NodeStep
  node_send type payload e = write_marshalled (proto.marshal (node_message type payload)) e

  abbrev pub reply_marshalled : Option GoString → NodeStep
  reply_marshalled none e = (err marshal_failed, e)
  reply_marshalled (some payload) e = node_send proxy_session_create payload e

  -- createProxySessionReply; `none` is a nil error
  unfoldable pub create_proxy_session_reply : Option GoString → NodeStep
  create_proxy_session_reply none e =
      reply_marshalled (proto.marshal_reply (record { success = true; err_msg = [] })) e
  create_proxy_session_reply (some text) e =
      reply_marshalled (proto.marshal_reply (record { success = false; err_msg = text })) e

  abbrev pub store_session : NodeEnd → NodeEnd
  store_session e = record e {
    session = record e.session {
      stored = true;
      running = true;
      started = true;
      conn = fresh_conn;
      is_close_by_server = false;
    };
  }

  abbrev pub dialed_addr : Option GoString → GoString → Dialed → NodeStep
  dialed_addr none payload dialed e = create_proxy_session_reply (some (proto.error_text payload)) e
  dialed_addr (some addr) payload (dial_failed text) e = create_proxy_session_reply (some text) e
  dialed_addr (some addr) payload connected e = create_proxy_session_reply none (store_session e)

  abbrev pub create_next : List GoString → Dialed → NodeStep
  create_next [] dialed e = (ok tt, e)
  create_next (payload ∷ rest) dialed e =
      let popped = record e { session = record e.session { creating = rest } } in
      if e.session.stored
      then create_proxy_session_reply none popped
      else dialed_addr (proto.unmarshal_dest_addr payload) payload dialed popped

  -- createProxySession up to proxyConn
  unfoldable pub create_proxy_session : Dialed → NodeStep
  create_proxy_session dialed e = create_next e.session.creating dialed e

  -- onProxySessionCreate: go t.createProxySession(msg)
  unfoldable pub on_proxy_session_create : GoString → NodeStep
  on_proxy_session_create payload e = (
    ok tt,
    record e { session = record e.session { creating = e.session.creating ++ (payload ∷ []) } },
  )

  -- onProxySessionDataFromTunnel, with TCPProxy.write
  unfoldable pub on_node_session_data : Sent → GoString → NodeStep
  on_node_session_data sent bytes e =
      if e.session.stored
      then (let r = write_conn sent bytes e.session.conn in
          (
            if r.0 then ok tt else err write_failed,
            record e { session = record e.session { conn = r.1 } },
          ))
      else (err session_not_found, e)

  -- onProxySessionClose and closeByServer
  unfoldable pub on_node_session_close : NodeStep
  on_node_session_close e =
      if e.session.stored
      then (
        ok tt,
        record e {
          session = record e.session {
            is_close_by_server = true;
            conn = close_conn e.session.conn;
          };
        },
      )
      else (err session_not_found, e)

  -- proxyConn: one Read that succeeds, with onProxySessionDataFromProxy
  unfoldable pub read_target : GoString → NodeStep
  read_target bytes e =
      if e.session.running && e.session.conn.is_open
      then node_send proxy_session_data bytes
          (record e { session = record e.session { fetched = e.session.fetched ++ bytes } })
      else (ok tt, e)

  abbrev pub finish_node :
      Result TunnelError (Unit {0}) × NodeEnd → Result TunnelError (Unit {0}) × NodeEnd
  finish_node (r, e) = (
    r,
    record e {
      session = record e.session {
        stored = false;
        running = false;
        conn = close_conn e.session.conn;
      };
    },
  )

  -- proxyConn: a Read that fails, with onProxyConnClose and the deferred calls
  unfoldable pub stop_target : NodeStep
  stop_target e =
      if e.session.running
      then finish_node
          (if e.session.is_close_by_server then (ok tt, e) else node_send proxy_session_close [] e)
      else (ok tt, e)

  abbrev pub write_udp : Sent → GoString → NodeUdp → NodeStep
  write_udp whole bytes u e = (
    ok tt,
    record e {
      session = record e.session { proxy_udp = some (record u { sent = u.sent ++ (bytes ∷ []) }) };
    },
  )
  write_udp (cut n) bytes u e = (err write_failed, e)

  -- A datagram to a destination that has no UDPProxy yet.
  abbrev pub dial_udp : Dialed → Sent → GoString → NodeStep
  dial_udp (dial_failed text) sent bytes e = (err bad_address, e)
  dial_udp connected sent bytes e = write_udp sent bytes (record { sent = [] }) e

  abbrev pub udp_of : Option NodeUdp → Dialed → Sent → GoString → NodeStep
  udp_of none dialed sent bytes e = dial_udp dialed sent bytes e
  udp_of (some u) dialed sent bytes e = write_udp sent bytes u e

  abbrev pub udp_unmarshalled : Option UdpData → Dialed → Sent → NodeStep
  udp_unmarshalled none dialed sent e = (err bad_message, e)
  udp_unmarshalled (some d) dialed sent e = udp_of e.session.proxy_udp dialed sent d.data_ e

  unfoldable pub on_node_udp_data : Dialed → Sent → GoString → NodeStep
  on_node_udp_data dialed sent payload e =
      udp_unmarshalled (proto.unmarshal_udp_data payload) dialed sent e

  -- UDPProxy.serve: a datagram comes back, or the read fails
  abbrev pub read_udp_of : Option NodeUdp → GoString → NodeStep
  read_udp_of none bytes e = (ok tt, e)
  read_udp_of (some u) bytes e = node_send proxy_udp_data bytes e

  unfoldable pub read_udp : GoString → NodeStep
  read_udp bytes e = read_udp_of e.session.proxy_udp bytes e

  unfoldable pub stop_udp : NodeStep
  stop_udp e = (ok tt, record e { session = record e.session { proxy_udp = none } })

  -- onTunnelMsg after Unmarshal; its session id is this session's
  unfoldable pub on_tunnel_msg : Dialed → Sent → MessageType → GoString → NodeStep
  on_tunnel_msg dialed sent proxy_session_create payload e = on_proxy_session_create payload e
  on_tunnel_msg dialed sent proxy_session_data payload e = on_node_session_data sent payload e
  on_tunnel_msg dialed sent proxy_session_close payload e = on_node_session_close e
  on_tunnel_msg dialed sent proxy_udp_data payload e = on_node_udp_data dialed sent payload e
  on_tunnel_msg dialed sent unknown payload e = (ok tt, e)
  on_tunnel_msg dialed sent command payload e = (ok tt, e)
