-- ===== src/Tunnel/Examples.antt =====
-- Examples for the tunnel.
use titan_tunnel.Prelude.{not, leb, str_eq, [], ◌∷◌, codes, true, false, ◌≡◌, refl, arith, length}
use titan_tunnel.Socks5.Samples.{net}
use titan_tunnel.Tunnel.Message.{proxy_udp_data, whole, write_message, send}
use titan_tunnel.Tunnel.Server.{
  accept_socks5_tcp_conn, start_select, resume, store_proxy, read_user,
  on_proxy_session_create_reply, on_proxy_session_data_from_tunnel,
}
use titan_tunnel.Tunnel.Server.Messages.{on_message}
use titan_tunnel.Tunnel.Node.{
  connected, node_send, create_proxy_session_reply, create_proxy_session, read_target,
  on_proxy_session_create, on_node_session_data, on_tunnel_msg,
}
use titan_tunnel.Tunnel.World.{World, new_world, server_reads, is_panic, step, run}
use titan_tunnel.Tunnel.Pipe.Down.{Prefix}
use titan_tunnel.Tunnel.Pipe.Delivered.{IsAlive, reads, run-Prefix, run-drained}
use titan_tunnel.Tunnel.Samples.{
  proto, proto_laws, session, opening, speaking_first, serving_end, detached_end,
}
use titan_tunnel.Tunnel.Panics.{is_confused, step-server_reads}
use titan_tunnel.Tunnel.Keepalive.{new_pings, tick, pong, connection_lost, ping_run}
use titan_tunnel.Tunnel.Keepalive.Bounds.{
  IsBounded, ticks_around_end, ping_run-IsBounded, ping_run-unanswered,
}

test_opening : ((run proto net opening new_world).sessions session).taken ≡ codes "GET /"
unfolding run step start_select str_eq accept_socks5_tcp_conn write_message on_tunnel_msg
    on_proxy_session_create create_proxy_session create_proxy_session_reply node_send on_message
    on_proxy_session_create_reply read_user store_proxy resume send on_node_session_data
    on_proxy_session_data_from_tunnel read_target
test_opening = refl

test_drained :
    ((run proto net
        (reads ((connected, whole) ∷ (connected, whole) ∷ []))
        (run proto net opening new_world)).nodes
      session).conn.given
    ≡ codes "GET /"
unfolding run step start_select str_eq accept_socks5_tcp_conn write_message on_tunnel_msg
    on_proxy_session_create create_proxy_session create_proxy_session_reply node_send on_message
    on_proxy_session_create_reply read_user store_proxy resume send on_node_session_data
    on_proxy_session_data_from_tunnel read_target
test_drained = refl

-- The first bytes of a target that speaks before the proxy is stored are lost, and later ones are
-- given to the user.
test_speaking_first :
    (((run proto net speaking_first new_world).sessions session).conn.given ≡ codes "ok")
    × (((run proto net speaking_first new_world).nodes session).fetched ≡ codes "220ok")
unfolding run step start_select str_eq accept_socks5_tcp_conn write_message on_tunnel_msg
    on_proxy_session_create create_proxy_session create_proxy_session_reply node_send on_message
    on_proxy_session_create_reply read_user store_proxy resume send on_node_session_data
    on_proxy_session_data_from_tunnel read_target
test_speaking_first = (refl, refl)

run-Prefix_example :
    Prefix
      ((run proto net opening new_world).nodes session).conn.given
      ((run proto net opening new_world).sessions session).taken
run-Prefix_example = run-Prefix proto proto_laws net session refl opening

opening_calm : (run proto net opening new_world).node_crashed ≡ false
unfolding run step start_select str_eq accept_socks5_tcp_conn write_message on_tunnel_msg
    on_proxy_session_create create_proxy_session create_proxy_session_reply node_send on_message
    on_proxy_session_create_reply read_user store_proxy resume send on_node_session_data
    on_proxy_session_data_from_tunnel read_target
opening_calm = refl

opening_readable : (run proto net opening new_world).down.readable ≡ true
unfolding run step start_select str_eq accept_socks5_tcp_conn write_message on_tunnel_msg
    on_proxy_session_create create_proxy_session create_proxy_session_reply node_send on_message
    on_proxy_session_create_reply read_user store_proxy resume send on_node_session_data
    on_proxy_session_data_from_tunnel read_target
opening_readable = refl

opening_writable : (run proto net opening new_world).down.writable ≡ true
unfolding run step start_select str_eq accept_socks5_tcp_conn write_message on_tunnel_msg
    on_proxy_session_create create_proxy_session create_proxy_session_reply node_send on_message
    on_proxy_session_create_reply read_user store_proxy resume send on_node_session_data
    on_proxy_session_data_from_tunnel read_target
opening_writable = refl

opening-length : length (run proto net opening new_world).down.queue ≡ 2
unfolding run step start_select str_eq accept_socks5_tcp_conn write_message on_tunnel_msg
    on_proxy_session_create create_proxy_session create_proxy_session_reply node_send on_message
    on_proxy_session_create_reply read_user store_proxy resume send on_node_session_data
    on_proxy_session_data_from_tunnel read_target
opening-length = refl

drained-IsAlive : IsAlive session (
    run proto net
      (reads ((connected, whole) ∷ (connected, whole) ∷ []))
      (run proto net opening new_world))
unfolding run step start_select str_eq accept_socks5_tcp_conn write_message on_tunnel_msg
    on_proxy_session_create create_proxy_session create_proxy_session_reply node_send on_message
    on_proxy_session_create_reply read_user store_proxy resume send on_node_session_data
    on_proxy_session_data_from_tunnel read_target
drained-IsAlive = (refl, refl)

run-drained_example :
    ((run proto net
        (reads ((connected, whole) ∷ (connected, whole) ∷ []))
        (run proto net opening new_world)).nodes
      session).conn.given
    ≡ ((run proto net opening new_world).sessions session).taken
run-drained_example =
    run-drained proto proto_laws net session refl opening
      ((connected, whole) ∷ (connected, whole) ∷ []) opening_calm opening_readable opening_writable
      (omega (arith, opening-length)) drained-IsAlive

-- UDP data for a session of a TCP connection.
abbrev confused_world : World
confused_world = record new_world {
  sessions = λ id. serving_end.session;
  up = record { queue = (5 ∷ 0 ∷ []) ∷ []; writable = true; readable = true };
}

step-server_reads_example :
    ((step proto net (server_reads whole) confused_world).up.readable
      ≡ not (is_confused proxy_udp_data serving_end.session.proxy))
    × (is_confused proxy_udp_data serving_end.session.proxy ≡ true
        → (step proto net (server_reads whole) confused_world).down.writable ≡ false)
step-server_reads_example =
    step-server_reads proto net whole confused_world (5 ∷ 0 ∷ []) []
      (record { message_type = proxy_udp_data; session_id = []; payload = [] }) refl refl refl

-- After Serve has returned, a target that sends something makes its session panic.
test_late_target : is_panic (read_target proto session (codes "late") detached_end).0 ≡ true
unfolding read_target node_send
test_late_target = refl

fresh-IsBounded : IsBounded new_pings
fresh-IsBounded = record { waits = omega arith; delays = omega arith }

ping_run-IsBounded_example :
    IsBounded
      (ping_run (tick ∷ tick ∷ pong (codes "12345678") 40 ∷ tick ∷ connection_lost ∷ []) new_pings)
ping_run-IsBounded_example =
    ping_run-IsBounded (tick ∷ tick ∷ pong (codes "12345678") 40 ∷ tick ∷ connection_lost ∷ [])
      new_pings fresh-IsBounded

ping_run-unanswered_example :
    ((ping_run (ticks_around_end 6 2) new_pings).attached ≡ leb 6 4)
    × ((ping_run (ticks_around_end 6 2) new_pings).crashed ≡ leb 6 6)
ping_run-unanswered_example = ping_run-unanswered 6 2 new_pings refl refl refl refl
