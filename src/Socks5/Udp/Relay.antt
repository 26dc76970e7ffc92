-- ===== src/Socks5/Udp/Relay.antt =====
-- Which packets are relayed, and which port a UDP server gets, ippop/api/socks5/udp.go.
use titan_tunnel.Prelude.{
  ℕ, zero, suc, ◌+◌, ◌-◌, ◌≤◌, ◌<◌, List, some, Result, ok, err, Bool, true, false, ◌≡◌, ◌↔◌, ◌⊎◌,
  arith, refl, inl, inr, Bool-cases,
}
use titan_tunnel.Prelude.Maps.{GoMap}
use titan_tunnel.Socks5.Net.{Ip, NetLib}
use titan_tunnel.Socks5.Wire.{Error, no_available_port}
use titan_tunnel.Socks5.Datagram.{Datagram, datagram_bytes, new_datagram_from_bytes, to_address}
use titan_tunnel.Socks5.Datagram.Accepts.{IsWellFormed, new_datagram_iff}
use titan_tunnel.Socks5.Counters.{count_of}
use titan_tunnel.Socks5.Request.{is_blocked}
use titan_tunnel.Socks5.Udp.{
  listen_loop, listen, UdpServer, ip_count_key, Socks5UdpInfo, UdpSource, relay_datagram,
  handle_udp_conn,
}

-- The port is the first of the range that can be bound, or none can be bound.
abbrev pub FirstFree : (ℕ → Bool) → ℕ → ℕ → Result Error ℕ → Type 0
FirstFree can from to (ok p) =
    (from ≤ p) × (p ≤ to) × (can p ≡ true) × ((q : ℕ) → from ≤ q → q < p → can q ≡ false)
FirstFree can from to (err e) =
    (e ≡ no_available_port) × ((q : ℕ) → from ≤ q → q ≤ to → can q ≡ false)

listen_loop-FirstFree :
    (can : ℕ → Bool) (rounds from to : ℕ)
    → from + rounds ≡ to + 1
    → FirstFree can from to (listen_loop can rounds from)
unfolding listen_loop
listen_loop-FirstFree can zero from to h = (refl, λ q a b. absurd (omega arith))
listen_loop-FirstFree can (suc rounds) from to h = elim (Bool-cases (can from)) [
  | inl free ↦ rw free (omega arith, omega arith, free, λ q a b. absurd (omega arith))
  | inr busy ↦ rw busy (
      later (listen_loop can rounds (from + 1))
        (listen_loop-FirstFree can rounds (from + 1) to (omega arith)) busy)
]
  where
    at_or_after : (q : ℕ) → from ≤ q → (q ≡ from) ⊎ (from + 1 ≤ q)
    at_or_after q a = grind arith

    later :
        (r : Result Error ℕ)
        → FirstFree can (from + 1) to r
        → can from ≡ false
        → FirstFree can from to r
    later (ok p) (a, b, c, d) busy =
        (omega arith, b, c, λ q f g. elim (at_or_after q f) [ inl e ↦ rw e busy | inr k ↦ d q k g ])
    later (err x) (a, d) busy =
        (a, λ q f g. elim (at_or_after q f) [ inl e ↦ rw e busy | inr k ↦ d q k g ])

-- The loop over ports gives the first port of a nonempty range that can be bound, and the error
-- exactly when there is none.
pub listen-FirstFree :
    (can : ℕ → Bool) (start_port end_port : ℕ)
    → start_port ≤ end_port
    → FirstFree can start_port end_port (listen can start_port end_port)
unfolding listen
listen-FirstFree can start_port end_port h =
    listen_loop-FirstFree can (end_port + 1 - start_port) start_port end_port (omega arith)

module _ (net : NetLib) (counts : GoMap ℕ) (udp : UdpServer) (src : UdpSource) where
  relayed_from :
      (bytes : List ℕ) (r : Socks5UdpInfo × List ℕ)
      → handle_udp_conn net counts udp src bytes ≡ ok r
      → (d : Datagram) × (0 < count_of counts (ip_count_key udp.user src.ip))
        × (new_datagram_from_bytes bytes ≡ ok d)
        × (relay_datagram net counts udp src d ≡ ok r)
  unfolding handle_udp_conn
  relayed_from bytes r h = ground arith

  relayed_to :
      (d : Datagram) (r : Socks5UdpInfo × List ℕ)
      → relay_datagram net counts udp src d ≡ ok r
      → (ip : Ip) × (net.resolve (to_address net d.atyp d.dst_addr d.dst_port) ≡ some ip)
        × (is_blocked net ip ≡ false)
        × (r.1 ≡ d.payload)
        × (r.0 ≡ record {
          udp_server_id = udp.id;
          src = src.text;
          dest = to_address net d.atyp d.dst_addr d.dst_port;
          user_name = udp.user;
        })
  unfolding relay_datagram
  relayed_to d r h = ground arith

  -- A packet is relayed with (info, payload) exactly when its source has an association of the
  -- server's user, the packet is a well-formed datagram with that payload, and its destination
  -- resolves to an address that is not blocked; the relay is for that destination and user.
  pub handle_udp_conn_iff :
      (bytes : List ℕ) (info : Socks5UdpInfo) (payload : List ℕ)
      → (handle_udp_conn net counts udp src bytes ≡ ok (info, payload)) ↔ (
          (d : Datagram) × (ip : Ip) × (0 < count_of counts (ip_count_key udp.user src.ip))
          × IsWellFormed d
          × (datagram_bytes d ≡ bytes)
          × (net.resolve (to_address net d.atyp d.dst_addr d.dst_port) ≡ some ip)
          × (is_blocked net ip ≡ false)
          × (payload ≡ d.payload)
          × (info ≡ record {
            udp_server_id = udp.id;
            src = src.text;
            dest = to_address net d.atyp d.dst_addr d.dst_port;
            user_name = udp.user;
          }))
  unfolding handle_udp_conn relay_datagram
  handle_udp_conn_iff bytes info payload = (
    λ h.
        let (d, here, read, sent) = relayed_from bytes (info, payload) h in
        let (ip, e, free, p, i) = relayed_to d (info, payload) sent in
        let (valid, printed) = (new_datagram_iff bytes d).0 read in
        (d, ip, here, valid, printed, e, free, p, i),
    λ (d, ip, here, valid, printed, e, free, p, i).
        let read = (new_datagram_iff bytes d).1 (valid, printed) in ground arith,
  )
