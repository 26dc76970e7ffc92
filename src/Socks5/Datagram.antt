-- ===== src/Socks5/Datagram.antt =====
-- The SOCKS5 UDP request header, ippop/api/socks5/protocol.go.
pub mod RoundTrip
pub mod Accepts
pub mod Reply
use titan_tunnel.Prelude.{
  ℕ, zero, suc, ◌+◌, ◌-◌, ◌*◌, ◌/◌, ◌%◌, List, [], ◌∷◌, ◌++◌, Option, none, some, Result, ok, err,
  GoString, ltb, leb, ◌==◌, if◌then◌else◌, length, take, drop,
}
use titan_tunnel.Socks5.Net.{Ip, NetLib}
use titan_tunnel.Socks5.Wire.{Error, bad_request, bad_address}

abbrev pub ipv4_address : ℕ
ipv4_address = 1

abbrev pub fqdn_address : ℕ
fqdn_address = 3

abbrev pub ipv6_address : ℕ
ipv6_address = 4

pub record Datagram : Type 0 where
  pub rsv : List ℕ
  pub frag : ℕ
  pub atyp : ℕ
  pub dst_addr : List ℕ
  pub dst_port : List ℕ
  pub payload : List ℕ

unfoldable pub datagram_bytes : Datagram → List ℕ
datagram_bytes d = d.rsv ++ (d.frag ∷ d.atyp ∷ (d.dst_addr ++ (d.dst_port ++ d.payload)))

-- bb[i], 0 out of range; the source has checked the length before each use
abbrev pub byte_at : List ℕ → ℕ → ℕ
byte_at [] i = 0
byte_at (b ∷ bs) zero = b
byte_at (b ∷ bs) (suc i) = byte_at bs i

-- bb[from:to]
abbrev pub slice : List ℕ → ℕ → ℕ → List ℕ
slice bb from to = take (to - from) (drop from bb)

-- The part after the switch on the address type: `minl` bytes hold the header up to the address.
unfoldable pub finish_datagram : List ℕ → List ℕ → ℕ → Result Error Datagram
finish_datagram bb addr header =
    let minl = header + 2 in
    if leb (length bb) minl
    then err bad_request
    else ok (record {
      rsv = slice bb 0 2;
      frag = byte_at bb 2;
      atyp = byte_at bb 3;
      dst_addr = addr;
      dst_port = slice bb (minl - 2) minl;
      payload = drop minl bb;
    })

-- The branches of the switch on bb[3].
unfoldable pub ipv4_datagram : List ℕ → Result Error Datagram
ipv4_datagram bb =
    if ltb (length bb) 8 then err bad_request else finish_datagram bb (slice bb 4 8) 8

unfoldable pub ipv6_datagram : List ℕ → Result Error Datagram
ipv6_datagram bb =
    if ltb (length bb) 20 then err bad_request else finish_datagram bb (slice bb 4 20) 20

unfoldable pub fqdn_datagram : List ℕ → Result Error Datagram
fqdn_datagram bb =
    if ltb (length bb) 5
    then err bad_request
    else let l = byte_at bb 4 in
      if l == 0
      then err bad_request
      else if ltb (length bb) (5 + l)
      then err bad_request
      else finish_datagram bb (l ∷ slice bb 5 (5 + l)) (5 + l)

unfoldable pub new_datagram_from_bytes : List ℕ → Result Error Datagram
new_datagram_from_bytes bb =
    if ltb (length bb) 4
    then err bad_request
    else if byte_at bb 3 == ipv4_address
    then ipv4_datagram bb
    else if byte_at bb 3 == ipv6_address
    then ipv6_datagram bb
    else if byte_at bb 3 == fqdn_address
    then fqdn_datagram bb
    else err bad_request

-- binary.BigEndian.PutUint16 of uint16(i)
abbrev pub put_uint16 : ℕ → List ℕ
put_uint16 i = (i / 256) % 256 ∷ i % 256 ∷ []

-- binary.BigEndian.Uint16; the slice always has two bytes where the program calls it
abbrev pub big_endian : List ℕ → ℕ
big_endian b = byte_at b 0 * 256 + byte_at b 1

pub record Address : Type 0 where
  pub atyp : ℕ
  pub addr : List ℕ
  pub port : List ℕ

module _ (net : NetLib) where
  -- The three ways that parseAddress encodes a host.
  unfoldable pub encode_host : GoString → Option Ip → Option Ip → ℕ × List ℕ
  encode_host h (some ip4) ip6 = (ipv4_address, ip4)
  encode_host h none (some ip6) = (ipv6_address, ip6)
  encode_host h none none = (fqdn_address, length h % 256 ∷ h)

  unfoldable pub parse_address : GoString → Result Error Address
  unfolding encode_host
  parse_address address = elim (net.split_host_port address) [
    | none ↦ err bad_address
    | some (h, p) ↦
        let ip = net.parse_ip h in
        let (a, addr) = encode_host h (net.to4 ip) (net.to16 ip) in
        ok (record { atyp = a; addr = addr; port = put_uint16 (net.atoi p) })
  ]

  abbrev prefix_length : ℕ → List ℕ → List ℕ
  prefix_length atyp addr = if atyp == fqdn_address then length addr % 256 ∷ addr else addr

  unfoldable pub new_datagram : GoString → List ℕ → Result Error Datagram
  unfolding parse_address
  new_datagram addr payload = elim (parse_address addr) [
    | err e ↦ err e
    | ok a ↦ ok (record {
      rsv = 0 ∷ 0 ∷ [];
      frag = 0;
      atyp = a.atyp;
      dst_addr = prefix_length a.atyp a.addr;
      dst_port = a.port;
      payload = payload;
    })
  ]

  -- The host that toAddress reads: none where it returns "" at once.
  unfoldable pub address_host : ℕ → List ℕ → Option GoString
  address_host a addr =
      if a == ipv4_address
      then some (net.ip_string addr)
      else if a == ipv6_address
      then some (net.ip_string addr)
      else if a == fqdn_address
      then (if ltb (length addr) 1
          then none
          else if ltb (length addr) (byte_at addr 0 + 1)
          then none
          else some (drop 1 addr))
      else some []

  unfoldable pub to_address : ℕ → List ℕ → List ℕ → GoString
  unfolding address_host
  to_address a addr port = elim (address_host a addr) [
    | none ↦ []
    | some h ↦ net.join_host_port h (net.itoa (big_endian port))
  ]
