-- ===== src/Tunnel/World.antt =====
-- A server, a node and the tunnel between them: every session of the tunnel, and every
-- interleaving of their steps. An event names the goroutine that runs and what the network does.
use titan_tunnel.Prelude.{
  ℕ, List, [], ◌∷◌, Option, none, some, Result, ok, err, GoString, Bool, true, false, if◌then◌else◌,
  str_eq,
}
use titan_tunnel.Prelude.Maps.{GoMap, empty}
use titan_tunnel.Socks5.Net.{NetLib}
use titan_tunnel.Socks5.Udp.{Socks5UdpInfo}
use titan_tunnel.Socks5.Request.{SocksTargetInfo}
use titan_tunnel.Tunnel.Message.{Message, Proto, Link, Sent, TunnelError, panicked}
use titan_tunnel.Tunnel.Server.{
  Session, new_session, End, Step, accept_socks5_tcp_conn, start_select, on_timeout, resume,
  store_proxy, read_user, stop_user,
}
use titan_tunnel.Tunnel.Server.Messages.{
  accept_socks5_udp_data, expire_udp, clear_proxys, on_message,
}
use titan_tunnel.Tunnel.Node.{
  NodeSession, new_node_session, NodeEnd, NodeStep, Dialed, create_proxy_session, read_target,
  stop_target, read_udp, stop_udp, on_tunnel_msg,
}

-- A step of a session's goroutine at the server.
pub data ServerAct : Type 0 where
  accept : SocksTargetInfo → ServerAct
  enter_select deadline wake store : ServerAct
  user_sends : GoString → ServerAct
  user_ends : ServerAct
  user_datagram : Socks5UdpInfo → GoString → ServerAct
  udp_timeout : ServerAct

-- A step of a session's goroutine at the node.
pub data NodeAct : Type 0 where
  dial : Dialed → NodeAct
  target_sends : GoString → NodeAct
  target_ends : NodeAct
  target_datagram : GoString → NodeAct
  udp_ends : NodeAct

-- `server_reads` and `node_reads` are one round of the read loops, `server_stops` and `node_stops`
-- their end; a link that breaks takes no more messages; `clear` is Tunnel.clearProxys.
pub data Event : Type 0 where
  at_server : GoString → ServerAct → Event
  at_node : GoString → NodeAct → Event
  server_reads : Sent → Event
  node_reads : Dialed → Sent → Event
  server_stops node_stops down_breaks up_breaks clear : Event

-- `down` runs from the server to the node, `up` back.
pub record World : Type 0 where
  pub sessions : GoString → Session
  pub users : GoMap ℕ
  pub down : Link
  pub nodes : GoString → NodeSession
  pub up : Link
  pub attached : Bool
  pub node_crashed : Bool

abbrev pub new_link : Link
new_link = record { queue = []; writable = true; readable = true }

-- A tunnel that has just been accepted.
abbrev pub new_world : World
new_world = record {
  sessions = λ id. new_session;
  users = empty;
  down = new_link;
  nodes = λ id. new_node_session;
  up = new_link;
  attached = true;
  node_crashed = false;
}

abbrev pub set_at {ℓ} : {A : Type ℓ} → (GoString → A) → GoString → A → GoString → A
set_at f id a j = if str_eq id j then a else f j

abbrev pub is_panic : Result TunnelError (Unit {0}) → Bool
is_panic (err panicked) = true
is_panic r = false

abbrev pub server_end : GoString → World → End
server_end id w = record { session = w.sessions id; link = w.down; users = w.users }

abbrev pub node_end : GoString → World → NodeEnd
node_end id w = record { session = w.nodes id; link = w.up; attached = w.attached }

abbrev pub put_server : GoString → World → Result TunnelError (Unit {0}) × End → World
put_server id w r = record w {
  sessions = set_at w.sessions id r.1.session;
  users = r.1.users;
  down = r.1.link;
}

abbrev pub put_node : GoString → World → Result TunnelError (Unit {0}) × NodeEnd → World
put_node id w r = record w {
  nodes = set_at w.nodes id r.1.session;
  up = r.1.link;
  node_crashed = is_panic r.0;
}

-- defer c.Close() of ServeWS, when Tunnel.serve has ended
abbrev pub close_server : World → World
close_server w = record w {
  up = record w.up { readable = false };
  down = record w.down { writable = false };
}

abbrev pub set_queue : List GoString → Link → Link
set_queue queue l = record l { queue = queue }

module _ (proto : Proto) where
  abbrev pub act_node : NodeAct → GoString → NodeStep
  act_node (dial dialed) id e = create_proxy_session proto id dialed e
  act_node (target_sends bytes) id e = read_target proto id bytes e
  act_node target_ends id e = stop_target proto id e
  act_node (target_datagram bytes) id e = read_udp proto id bytes e
  act_node udp_ends id e = stop_udp proto id e

module _ (proto : Proto) (net : NetLib) where
  abbrev pub act_server : ServerAct → GoString → Step
  act_server (accept target) id e = (ok tt, accept_socks5_tcp_conn proto net id target e)
  act_server enter_select id e = (ok tt, start_select proto net id e)
  act_server deadline id e = (ok tt, on_timeout proto net id e)
  act_server wake id e = (ok tt, resume proto net id e)
  act_server store id e = (ok tt, store_proxy proto net id e)
  act_server (user_sends bytes) id e = (ok tt, read_user proto net id bytes e)
  act_server user_ends id e = (ok tt, stop_user proto net id e)
  act_server (user_datagram info bytes) id e = accept_socks5_udp_data proto net id info bytes e
  act_server udp_timeout id e = (ok tt, expire_udp proto net id e)

  -- A panic ends Tunnel.serve: net/http recovers it, and ServeWS has closed the connection.
  abbrev pub unwound : Bool → World → World
  unwound true w = close_server w
  unwound false w = w

  -- onMessage; another error is only logged
  abbrev pub server_message : Sent → Option Message → World → World
  server_message sent none w = w
  server_message sent (some m) w =
      let r =
        on_message proto net m.session_id sent m.message_type m.payload
          (server_end m.session_id w) in
      unwound (is_panic r.0) (put_server m.session_id w r)

  -- one round of Tunnel.serve
  abbrev pub server_read : Sent → List GoString → World → World
  server_read sent [] w = w
  server_read sent (bytes ∷ rest) w =
      if w.up.readable
      then server_message sent (proto.unmarshal bytes) (record w { up = set_queue rest w.up })
      else w

  -- onTunnelMsg
  abbrev pub node_message_in : Dialed → Sent → Option Message → World → World
  node_message_in dialed sent none w = w
  node_message_in dialed sent (some m) w = put_node m.session_id w (
      on_tunnel_msg proto m.session_id dialed sent m.message_type m.payload
        (node_end m.session_id w))

  -- one round of Tunnel.Serve
  abbrev pub node_read : Dialed → Sent → List GoString → World → World
  node_read dialed sent [] w = w
  node_read dialed sent (bytes ∷ rest) w =
      if w.down.readable
      then node_message_in dialed sent (proto.unmarshal bytes)
          (record w { down = set_queue rest w.down })
      else w

  abbrev pub clear_all : World → World
  clear_all w = record w { sessions = λ id. (clear_proxys proto net id (server_end id w)).session }

  -- A node that has crashed does nothing any more. A panic of a session's goroutine at the server is
  -- recovered by serveSocks5Conn or handleUDPConn of socks5 and ends the step.
  unfoldable pub step : Event → World → World
  step (at_server id act) w = put_server id w (act_server act id (server_end id w))
  step (at_node id act) w =
      if w.node_crashed then w else put_node id w (act_node proto act id (node_end id w))
  step (server_reads sent) w = server_read sent w.up.queue w
  step (node_reads dialed sent) w =
      if w.node_crashed then w else node_read dialed sent w.down.queue w
  step server_stops w = close_server w
  step node_stops w = record w {
    down = record w.down { readable = false };
    up = record w.up { writable = false };
    attached = false;
  }
  step down_breaks w = record w { down = record w.down { writable = false } }
  step up_breaks w = record w { up = record w.up { writable = false } }
  step clear w = clear_all w

  unfoldable pub run : List Event → World → World
  run [] w = w
  run (ev ∷ evs) w = run evs (step ev w)
