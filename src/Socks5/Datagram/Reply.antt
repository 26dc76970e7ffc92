-- ===== src/Socks5/Datagram/Reply.antt =====
-- The header that the server puts before a UDP answer, ippop/api/socks5/protocol.go and
-- ippop/api/ws/udpproxy.go.
use titan_tunnel.Prelude.{
  ℕ, suc, ◌<◌, List, [], ◌∷◌, some, none, ok, ◌≡◌, refl, inl, inr, arith, length, GoString,
}
use titan_tunnel.Socks5.Net.{Ip, NetLib, NetLaws}
use titan_tunnel.Socks5.Datagram.{
  Datagram, datagram_bytes, new_datagram_from_bytes, new_datagram, address_host, put_uint16,
  ipv4_address, ipv6_address, fqdn_address,
}
use titan_tunnel.Socks5.Datagram.Accepts.{IsWellFormed, AddrFits, new_datagram_iff}

module _ (net : NetLib) (laws : NetLaws net) (addr h p : GoString) (x : ℕ) (xs : List ℕ)
    (split : net.split_host_port addr ≡ some (h, p)) where
  abbrev answer : ℕ → List ℕ → Datagram
  answer atyp dst = record {
    rsv = 0 ∷ 0 ∷ [];
    frag = 0;
    atyp = atyp;
    dst_addr = dst;
    dst_port = put_uint16 (net.atoi p);
    payload = x ∷ xs;
  }

  -- `answer atyp dst` is what NewDatagram makes, the other side can read it, and reads `host`.
  abbrev pub AnswersAs : ℕ → List ℕ → GoString → Type 0
  AnswersAs atyp dst host =
      (new_datagram net addr (x ∷ xs) ≡ ok (answer atyp dst))
      × (new_datagram_from_bytes (datagram_bytes (answer atyp dst)) ≡ ok (answer atyp dst))
      × (address_host net atyp dst ≡ some host)

  reads_back :
      (atyp : ℕ) (dst : List ℕ)
      → AddrFits atyp dst
      → new_datagram_from_bytes (datagram_bytes (answer atyp dst)) ≡ ok (answer atyp dst)
  reads_back atyp dst fits =
      let valid : IsWellFormed (answer atyp dst) = record {
        reserved = refl;
        port = refl;
        addr = fits;
        loaded = omega arith;
      } in
      (new_datagram_iff _ (answer atyp dst)).1 (valid, refl)

  -- An answer from an IPv4 host carries a header that is read as that host.
  pub answer-ipv4 :
      (ip4 : Ip)
      → net.to4 (net.parse_ip h) ≡ some ip4
      → AnswersAs ipv4_address ip4 (net.ip_string ip4)
  unfolding new_datagram address_host
  answer-ipv4 ip4 e =
      (ground arith, reads_back ipv4_address ip4 (inl (refl, laws.length-to4 _ ip4 e)), refl)

  -- An answer from an IPv6 host carries a header that is read as that host.
  pub answer-ipv6 :
      (ip6 : Ip)
      → net.to4 (net.parse_ip h) ≡ none
      → net.to16 (net.parse_ip h) ≡ some ip6
      → AnswersAs ipv6_address ip6 (net.ip_string ip6)
  unfolding new_datagram address_host
  answer-ipv6 ip6 n e =
      (ground arith, reads_back ipv6_address ip6 (inr (inl (refl, laws.length-to16 _ ip6 e))), refl)

  -- An answer from a domain name of at most 254 bytes is read as another name: the name with its
  -- length byte in front, since parseAddress and NewDatagram both add that byte.
  pub answer-domain :
      net.to4 (net.parse_ip h) ≡ none
      → net.to16 (net.parse_ip h) ≡ none
      → length h < 255
      → AnswersAs fqdn_address (suc (length h) ∷ length h ∷ h) (length h ∷ h)
  unfolding new_datagram address_host
  answer-domain n m short = (
    ground arith,
    reads_back fqdn_address (suc (length h) ∷ length h ∷ h) (inr (inr (refl, (refl, omega arith)))),
    ground arith,
  )
