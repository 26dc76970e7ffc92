-- ===== src/Socks5/Datagram/RoundTrip.antt =====
-- Reading and printing of the SOCKS5 UDP request header, ippop/api/socks5/protocol.go.
use titan_tunnel.Prelude.{
  ℕ, ◌+◌, ◌-◌, ◌≤◌, List, ◌∷◌, ◌++◌, ok, ◌≡◌, refl, ap, ◌∙◌, arith, length, drop,
  take-append-drop_from,
}
use titan_tunnel.Socks5.Datagram.{
  Datagram, datagram_bytes, byte_at, slice, finish_datagram, ipv4_datagram, ipv6_datagram,
  fqdn_datagram, new_datagram_from_bytes,
}

-- The four bytes before the address, and the length byte of a domain name.
header_split :
    (bb : List ℕ) → 4 ≤ length bb → slice bb 0 2 ++ (byte_at bb 2 ∷ byte_at bb 3 ∷ drop 4 bb) ≡ bb
header_split (b0 ∷ b1 ∷ b2 ∷ b3 ∷ rest) h = refl
header_split _ h = absurd (omega arith)

length_byte_split : (bb : List ℕ) → 5 ≤ length bb → byte_at bb 4 ∷ drop 5 bb ≡ drop 4 bb
length_byte_split (b0 ∷ b1 ∷ b2 ∷ b3 ∷ b4 ∷ rest) h = refl
length_byte_split _ h = absurd (omega arith)

-- What is read after the address is the rest of the packet.
finish_datagram-bytes :
    (bb addr : List ℕ) (header : ℕ) (d : Datagram)
    → finish_datagram bb addr header ≡ ok d
    → datagram_bytes d ≡ slice bb 0 2 ++ (byte_at bb 2 ∷ byte_at bb 3 ∷ (addr ++ drop header bb))
unfolding finish_datagram datagram_bytes
finish_datagram-bytes bb addr header d h = ground (
  arith,
  take-append-drop_from (header + 2 - 2) (header + 2) bb,
  ap (λ k. drop k bb) (minus_two header),
)
  where
    minus_two : (n : ℕ) → n + 2 - 2 ≡ n
    minus_two n = omega arith

finish_rejoins :
    (bb addr : List ℕ) (header : ℕ) (d : Datagram)
    → finish_datagram bb addr header ≡ ok d
    → 4 ≤ length bb
    → addr ++ drop header bb ≡ drop 4 bb
    → datagram_bytes d ≡ bb
finish_rejoins bb addr header d h n e =
    finish_datagram-bytes bb addr header d h
    ∙ ap (λ r. slice bb 0 2 ++ (byte_at bb 2 ∷ byte_at bb 3 ∷ r)) e
    ∙ header_split bb n

fqdn_rejoins :
    (bb : List ℕ)
    → 5 ≤ length bb
    → (byte_at bb 4 ∷ slice bb 5 (5 + byte_at bb 4)) ++ drop (5 + byte_at bb 4) bb ≡ drop 4 bb
fqdn_rejoins bb h =
    ap (λ r. byte_at bb 4 ∷ r) (take-append-drop_from 5 (5 + byte_at bb 4) bb (omega arith))
    ∙ length_byte_split bb h

module _ (bb : List ℕ) (d : Datagram) where
  ipv4_datagram-bytes : ipv4_datagram bb ≡ ok d → datagram_bytes d ≡ bb
  unfolding ipv4_datagram
  ipv4_datagram-bytes h =
      ground (arith, finish_rejoins bb (slice bb 4 8) 8 d, take-append-drop_from 4 8 bb)

  ipv6_datagram-bytes : ipv6_datagram bb ≡ ok d → datagram_bytes d ≡ bb
  unfolding ipv6_datagram
  ipv6_datagram-bytes h =
      ground (arith, finish_rejoins bb (slice bb 4 20) 20 d, take-append-drop_from 4 20 bb)

  fqdn_datagram-bytes : fqdn_datagram bb ≡ ok d → datagram_bytes d ≡ bb
  unfolding fqdn_datagram
  fqdn_datagram-bytes h =
      let l = byte_at bb 4 in
      ground (arith, finish_rejoins bb (l ∷ slice bb 5 (5 + l)) (5 + l) d, fqdn_rejoins bb)

-- A packet that is read prints back as itself.
pub bytes-new_datagram :
    (bb : List ℕ) (d : Datagram) → new_datagram_from_bytes bb ≡ ok d → datagram_bytes d ≡ bb
unfolding new_datagram_from_bytes
bytes-new_datagram bb d h =
    ground (arith, ipv4_datagram-bytes bb d, ipv6_datagram-bytes bb d, fqdn_datagram-bytes bb d)
