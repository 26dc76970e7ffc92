-- ===== src/Socks5/Udp.antt =====
-- ippop/api/socks5/udp.go: the UDP server of a user.
pub mod Relay
use titan_tunnel.Prelude.{
  ℕ, zero, suc, ◌+◌, ◌-◌, List, [], ◌∷◌, ◌++◌, Option, none, some, Result, ok, err, GoString, codes,
  Bool, true, false, leb, if◌then◌else◌,
}
use titan_tunnel.Prelude.Maps.{GoMap}
use titan_tunnel.Socks5.Net.{Ip, NetLib}
use titan_tunnel.Socks5.Wire.{
  Error, no_available_port, not_associate, resolve_failed, not_support_ip,
}
use titan_tunnel.Socks5.Datagram.{Datagram, new_datagram_from_bytes, to_address}
use titan_tunnel.Socks5.Counters.{count_of}
use titan_tunnel.Socks5.Request.{is_blocked}

pub record UdpServer : Type 0 where
  pub port : ℕ
  pub id : GoString
  pub user : GoString

-- The loop of listen over `rounds` ports: `can_listen` is whether net.ListenUDP succeeds.
unfoldable pub listen_loop : (ℕ → Bool) → ℕ → ℕ → Result Error ℕ
listen_loop can_listen zero port = err no_available_port
listen_loop can_listen (suc rounds) port =
    let rest = listen_loop can_listen rounds (port + 1) in if can_listen port then ok port else rest

unfoldable pub listen : (ℕ → Bool) → ℕ → ℕ → Result Error ℕ
unfolding listen_loop
listen can_listen start_port end_port =
    listen_loop can_listen (end_port + 1 - start_port) start_port

unfoldable pub new_udp_server : (ℕ → Bool) → ℕ → ℕ → GoString → GoString → Result Error UdpServer
new_udp_server can_listen start_port end_port id user =
    elim (listen can_listen start_port end_port) [
      | err e ↦ err e
      | ok port ↦ ok (record { port = port; id = id; user = user })
    ]

-- fmt.Sprintf("%s:%s", user, ip)
unfoldable pub ip_count_key : GoString → GoString → GoString
ip_count_key user ip = user ++ (codes ":" ++ ip)

pub record Socks5UdpInfo : Type 0 where
  pub udp_server_id : GoString
  pub src : GoString
  pub dest : GoString
  pub user_name : GoString

-- The source of a packet: src.IP.String() and src.String().
pub record UdpSource : Type 0 where
  pub ip : GoString
  pub text : GoString

module _ (net : NetLib) (counts : GoMap ℕ) (udp : UdpServer) (src : UdpSource) where
  -- The part after the packet is parsed.
  unfoldable pub relay_datagram : Datagram → Result Error (Socks5UdpInfo × List ℕ)
  relay_datagram d =
      let dest = to_address net d.atyp d.dst_addr d.dst_port in
      elim (net.resolve dest) [
        | none ↦ err resolve_failed
        | some ip ↦
            if is_blocked net ip
            then err not_support_ip
            else ok (
              record { udp_server_id = udp.id; src = src.text; dest = dest; user_name = udp.user },
              d.payload,
            )
      ]

  -- The call of Handler.HandleSocks5UDP, the last thing that is done, is the value returned.
  unfoldable pub handle_udp_conn : List ℕ → Result Error (Socks5UdpInfo × List ℕ)
  handle_udp_conn bytes =
      if leb (count_of counts (ip_count_key udp.user src.ip)) 0
      then err not_associate
      else elim (new_datagram_from_bytes bytes) [ err e ↦ err e | ok d ↦ relay_datagram d ]
