-- ===== src/Socks5/Datagram/Accepts.antt =====
-- Which packets newDatagramFromBytes accepts, ippop/api/socks5/protocol.go.
use titan_tunnel.Prelude.{
  ℕ, suc, ◌+◌, ◌-◌, ◌≤◌, ◌<◌, List, [], ◌∷◌, ◌++◌, ok, ◌≡◌, ◌⊎◌, inl, inr, ◌↔◌, arith, length, drop,
  length-append, length-take, length-drop, take-append, drop-append, drop-drop,
}
use titan_tunnel.Socks5.Datagram.{
  Datagram, datagram_bytes, byte_at, slice, finish_datagram, ipv4_datagram, ipv6_datagram,
  fqdn_datagram, new_datagram_from_bytes, ipv4_address, ipv6_address, fqdn_address,
}
use titan_tunnel.Socks5.Datagram.RoundTrip.{bytes-new_datagram}

-- The address field that goes with an address type.
abbrev pub HasLengthByte : List ℕ → Type 0
HasLengthByte [] = ⊥
HasLengthByte (l ∷ host) = (length host ≡ l) × (0 < l)

abbrev pub AddrFits : ℕ → List ℕ → Type 0
AddrFits atyp addr =
    ((atyp ≡ ipv4_address) × (length addr ≡ 4))
    ⊎ ((atyp ≡ ipv6_address) × (length addr ≡ 16))
    ⊎ ((atyp ≡ fqdn_address) × HasLengthByte addr)

-- RFC 1928: two reserved bytes, an address that fits its type, a port of two bytes; the program
-- also wants a payload.
pub record IsWellFormed (d : Datagram) : Type 0 where
  pub reserved : length d.rsv ≡ 2
  pub port : length d.dst_port ≡ 2
  pub addr : AddrFits d.atyp d.dst_addr
  pub loaded : 0 < length d.payload

module _ (bb addr : List ℕ) (header : ℕ) (d : Datagram) where
  finish_datagram-IsWellFormed :
      finish_datagram bb addr header ≡ ok d
      → 4 ≤ header
      → AddrFits (byte_at bb 3) addr
      → IsWellFormed d
  unfolding finish_datagram
  finish_datagram-IsWellFormed h n fits = ground (
    arith,
    length-take 2 bb,
    length-take (header + 2 - (header + 2 - 2)) (drop (header + 2 - 2) bb),
    length-drop (header + 2 - 2) bb,
    length-drop (header + 2) bb,
  )

-- The address that is read is as long as its type says.
module _ (bb : List ℕ) (d : Datagram) where
  ipv4_datagram-IsWellFormed :
      ipv4_datagram bb ≡ ok d → byte_at bb 3 ≡ ipv4_address → IsWellFormed d
  unfolding ipv4_datagram
  ipv4_datagram-IsWellFormed h t = ground (
    arith,
    finish_datagram-IsWellFormed bb (slice bb 4 8) 8 d,
    length-take 4 (drop 4 bb),
    length-drop 4 bb,
  )

  ipv6_datagram-IsWellFormed :
      ipv6_datagram bb ≡ ok d → byte_at bb 3 ≡ ipv6_address → IsWellFormed d
  unfolding ipv6_datagram
  ipv6_datagram-IsWellFormed h t = ground (
    arith,
    finish_datagram-IsWellFormed bb (slice bb 4 20) 20 d,
    length-take 16 (drop 4 bb),
    length-drop 4 bb,
  )

  fqdn_datagram-IsWellFormed :
      fqdn_datagram bb ≡ ok d → byte_at bb 3 ≡ fqdn_address → IsWellFormed d
  unfolding fqdn_datagram
  fqdn_datagram-IsWellFormed h t =
      let l = byte_at bb 4 in
      ground (
        arith,
        finish_datagram-IsWellFormed bb (l ∷ slice bb 5 (5 + l)) (5 + l) d,
        length-take (5 + l - 5) (drop 5 bb),
        length-drop 5 bb,
      )

  new_datagram-IsWellFormed : new_datagram_from_bytes bb ≡ ok d → IsWellFormed d
  unfolding new_datagram_from_bytes
  new_datagram-IsWellFormed h =
      ground
        (arith, ipv4_datagram-IsWellFormed, ipv6_datagram-IsWellFormed, fqdn_datagram-IsWellFormed)

-- The other way: a packet that is printed from its parts.
module _ (r0 r1 frag atyp p0 p1 x : ℕ) (addr xs : List ℕ) where
  abbrev packet : List ℕ
  packet = r0 ∷ r1 ∷ frag ∷ atyp ∷ (addr ++ (p0 ∷ p1 ∷ x ∷ xs))

  abbrev parts : Datagram
  parts = record {
    rsv = r0 ∷ r1 ∷ [];
    frag = frag;
    atyp = atyp;
    dst_addr = addr;
    dst_port = p0 ∷ p1 ∷ [];
    payload = x ∷ xs;
  }

  length-packet : length packet ≡ 4 + length addr + 3 + length xs
  length-packet = omega (arith, length-append addr (p0 ∷ p1 ∷ x ∷ xs))

  drop_to_port : (n : ℕ) → n ≡ 4 + length addr → drop n packet ≡ p0 ∷ p1 ∷ x ∷ xs
  drop_to_port n e =
      let past : n ≡ suc (suc (suc (suc (length addr)))) = omega arith in
      rw past (drop-append addr (p0 ∷ p1 ∷ x ∷ xs))

  drop_to_payload : (n : ℕ) → n ≡ 4 + length addr → drop (n + 2) packet ≡ x ∷ xs
  drop_to_payload n e = rw (← drop-drop) (rw (drop_to_port n e))

  take_port : (n : ℕ) → n ≡ 4 + length addr → slice packet (n + 2 - 2) (n + 2) ≡ p0 ∷ p1 ∷ []
  take_port n e =
      let two : n + 2 - (n + 2 - 2) ≡ 2 = omega arith in
      rw two (rw (drop_to_port (n + 2 - 2) (omega arith)))

  take_addr : (n : ℕ) → n ≡ 4 + length addr → slice packet 4 n ≡ addr
  take_addr n e =
      let len : n - 4 ≡ length addr = omega arith in rw len (take-append addr (p0 ∷ p1 ∷ x ∷ xs))

  finish_datagram-packet : (n : ℕ) → n ≡ 4 + length addr → finish_datagram packet addr n ≡ ok parts
  unfolding finish_datagram
  finish_datagram-packet n e = ground (arith, length-packet, drop_to_payload n e, take_port n e)

  ipv4_datagram-packet : length addr ≡ 4 → ipv4_datagram packet ≡ ok parts
  unfolding ipv4_datagram
  ipv4_datagram-packet e =
      rw (take_addr 8 (omega arith)) (ground (arith, length-packet, finish_datagram-packet 8))

  ipv6_datagram-packet : length addr ≡ 16 → ipv6_datagram packet ≡ ok parts
  unfolding ipv6_datagram
  ipv6_datagram-packet e =
      rw (take_addr 20 (omega arith)) (ground (arith, length-packet, finish_datagram-packet 20))

fqdn_datagram-packet :
    (r0 r1 frag atyp p0 p1 x l : ℕ) (host xs : List ℕ)
    → length host ≡ l
    → 0 < l
    → fqdn_datagram (packet r0 r1 frag atyp p0 p1 x (l ∷ host) xs)
      ≡ ok (parts r0 r1 frag atyp p0 p1 x (l ∷ host) xs)
unfolding fqdn_datagram
fqdn_datagram-packet r0 r1 frag atyp p0 p1 x l host xs e pos =
    let len : 5 + l - 5 ≡ length host = omega arith in
    rw len (
      rw (take-append host (p0 ∷ p1 ∷ x ∷ xs)) (
        ground (
          arith,
          length-packet r0 r1 frag atyp p0 p1 x (l ∷ host) xs,
          finish_datagram-packet r0 r1 frag atyp p0 p1 x (l ∷ host) xs (5 + l),
        )))

new_datagram-packet :
    (r0 r1 frag atyp p0 p1 x : ℕ) (addr xs : List ℕ)
    → AddrFits atyp addr
    → new_datagram_from_bytes (packet r0 r1 frag atyp p0 p1 x addr xs)
      ≡ ok (parts r0 r1 frag atyp p0 p1 x addr xs)
unfolding new_datagram_from_bytes
new_datagram-packet r0 r1 frag atyp p0 p1 x addr xs (inl (t, n)) = ground (
  arith,
  length-packet r0 r1 frag atyp p0 p1 x addr xs,
  ipv4_datagram-packet r0 r1 frag atyp p0 p1 x addr xs,
)
new_datagram-packet r0 r1 frag atyp p0 p1 x addr xs (inr (inl (t, n))) = ground (
  arith,
  length-packet r0 r1 frag atyp p0 p1 x addr xs,
  ipv6_datagram-packet r0 r1 frag atyp p0 p1 x addr xs,
)
new_datagram-packet r0 r1 frag atyp p0 p1 x (l ∷ host) xs (inr (inr (t, (n, pos)))) = ground (
  arith,
  length-packet r0 r1 frag atyp p0 p1 x (l ∷ host) xs,
  fqdn_datagram-packet r0 r1 frag atyp p0 p1 x l host xs,
)
new_datagram-packet r0 r1 frag atyp p0 p1 x [] xs (inr (inr (t, h))) = absurd h

-- The datagrams of the packets: a list of known length is spelled out.
new_datagram-datagram_bytes :
    (rsv port payload addr : List ℕ) (frag atyp : ℕ)
    → length rsv ≡ 2
    → length port ≡ 2
    → 0 < length payload
    → AddrFits atyp addr
    → let d : Datagram = record {
      rsv = rsv;
      frag = frag;
      atyp = atyp;
      dst_addr = addr;
      dst_port = port;
      payload = payload;
    } in
      new_datagram_from_bytes (datagram_bytes d) ≡ ok d
unfolding datagram_bytes
new_datagram-datagram_bytes (r0 ∷ r1 ∷ []) (p0 ∷ p1 ∷ []) (x ∷ xs) addr frag atyp r p n fits =
    new_datagram-packet r0 r1 frag atyp p0 p1 x addr xs fits
new_datagram-datagram_bytes _ _ _ _ _ _ r p n fits = absurd (omega arith)

-- newDatagramFromBytes accepts a packet with d exactly when d is well formed (two reserved bytes,
-- an address as long as its type says, two port bytes, a payload) and prints as that packet.
pub new_datagram_iff :
    (bb : List ℕ) (d : Datagram)
    → (new_datagram_from_bytes bb ≡ ok d) ↔ (IsWellFormed d × (datagram_bytes d ≡ bb))
new_datagram_iff bb d = (
  λ h. (new_datagram-IsWellFormed bb d h, bytes-new_datagram bb d h),
  λ (v, e). rw (← e) (
      new_datagram-datagram_bytes d.rsv d.dst_port d.payload d.dst_addr d.frag d.atyp v.reserved
        v.port v.loaded v.addr),
)
