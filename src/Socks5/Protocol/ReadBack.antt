-- ===== src/Socks5/Protocol/ReadBack.antt =====
-- Printing and reading the address in a reply, ippop/api/socks5/protocol.go.
use titan_tunnel.Prelude.{
  ℕ, ◌/◌, ◌%◌, ◌<◌, List, [], ◌∷◌, ◌++◌, some, none, ok, err, ◌≡◌, refl, ap, ◌⊎◌, inl, inr, arith,
  length, GoString, if◌then◌else◌, is_empty, false, true, not, ◌∙◌, Option-cases,
}
use mathlib.Core.List.{append_assoc}
use titan_tunnel.Socks5.Net.{Ip, NetLib, NetLaws}
use titan_tunnel.Socks5.Datagram.{ipv4_address, ipv6_address, fqdn_address}
use titan_tunnel.Socks5.Wire.{Conn, ◌>>=◌, write, format_address}
use titan_tunnel.Socks5.Wire.Laws.{read_full-append, read_byte-cons}
use titan_tunnel.Socks5.Protocol.{
  AddrSpec, format_addr, reply_socks5_client, read_port, read_addr_spec, socks5_version,
}

read_port-append :
    (fqdn : GoString) (ip : Ip) (port : ℕ) (more : List ℕ) (c : Conn)
    → c.input ≡ port / 256 ∷ port % 256 ∷ more
    → read_port fqdn ip c
      ≡ (ok (record { fqdn = fqdn; ip = ip; port = port }), record c { input = more })
unfolding read_port ◌>>=◌
read_port-append fqdn ip port more c e =
    rw (read_full-append (port / 256 ∷ port % 256 ∷ []) more c e) (ground arith)

-- The address that a reader of a reply makes of the address that was sent.
module _ (net : NetLib) (laws : NetLaws net) where
  -- The bytes of a reply after its third.
  abbrev pub encoded : ℕ × List ℕ × ℕ → List ℕ → List ℕ
  encoded (t, body, port) more = t ∷ (body ++ (port / 256 ∷ port % 256 ∷ more))

  read_ipv4 :
      (ip4 : Ip) (port : ℕ) (more : List ℕ) (c : Conn)
      → length ip4 ≡ 4
      → c.input ≡ encoded (ipv4_address, ip4, port) more
      → read_addr_spec net c ≡ (
        ok (record { fqdn = net.ip_string ip4; ip = ip4; port = port }),
        record c { input = more },
      )
  unfolding read_addr_spec ◌>>=◌
  read_ipv4 ip4 port more c n e =
      let tail = port / 256 ∷ port % 256 ∷ more in
      rw (read_byte-cons ipv4_address (ip4 ++ tail) c e) (
        rw (← n) (
          rw (read_full-append ip4 tail (record c { input = ip4 ++ tail }) refl)
            (read_port-append (net.ip_string ip4) ip4 port more (record c { input = tail }) refl)))

  read_ipv6 :
      (ip6 : Ip) (port : ℕ) (more : List ℕ) (c : Conn)
      → length ip6 ≡ 16
      → c.input ≡ encoded (ipv6_address, ip6, port) more
      → read_addr_spec net c ≡ (
        ok (record { fqdn = net.ip_string ip6; ip = ip6; port = port }),
        record c { input = more },
      )
  unfolding read_addr_spec ◌>>=◌
  read_ipv6 ip6 port more c n e =
      let tail = port / 256 ∷ port % 256 ∷ more in
      rw (read_byte-cons ipv6_address (ip6 ++ tail) c e) (
        rw (← n) (
          rw (read_full-append ip6 tail (record c { input = ip6 ++ tail }) refl)
            (read_port-append (net.ip_string ip6) ip6 port more (record c { input = tail }) refl)))

  read_fqdn :
      (name : GoString) (port : ℕ) (more : List ℕ) (c : Conn)
      → c.input ≡ encoded (fqdn_address, length name ∷ name, port) more
      → read_addr_spec net c
        ≡ (ok (record { fqdn = name; ip = []; port = port }), record c { input = more })
  unfolding read_addr_spec ◌>>=◌
  read_fqdn name port more c e =
      let tail = port / 256 ∷ port % 256 ∷ more in
      rw (read_byte-cons fqdn_address (length name ∷ (name ++ tail)) c e) (
        rw
          (read_byte-cons (length name) (name ++ tail)
            (record c { input = length name ∷ (name ++ tail) }) refl)
          (rw (read_full-append name tail (record c { input = name ++ tail }) refl)
            (read_port-append name [] port more (record c { input = tail }) refl)))

  encoded-append : (f : ℕ × List ℕ × ℕ) (more : List ℕ) → encoded f [] ++ more ≡ encoded f more
  encoded-append (t, body, port) more =
      ap (λ r. t ∷ r) (append_assoc body (port / 256 ∷ port % 256 ∷ []) more)

  -- A name is kept and an IP address is kept and named by its text; ports are taken modulo 2^16.
  abbrev pub received : AddrSpec → AddrSpec
  received a =
      if not (is_empty a.fqdn)
      then record { fqdn = a.fqdn; ip = []; port = a.port % 65536 }
      else elim (net.to4 a.ip) [
        | some ip4 ↦ record { fqdn = net.ip_string ip4; ip = ip4; port = a.port % 65536 }
        | none ↦ elim (net.to16 a.ip) [
          | some ip6 ↦ record { fqdn = net.ip_string ip6; ip = ip6; port = a.port % 65536 }
          | none ↦ a
        ]
      ]

  -- What replySocks5Client encodes, by the form of the address.
  format_addr-cases :
      (a : AddrSpec) (f : ℕ × List ℕ × ℕ)
      → format_addr net (some a) ≡ some f
      → length a.fqdn < 256
      → ((is_empty a.fqdn ≡ false) × (f ≡ (fqdn_address, length a.fqdn ∷ a.fqdn, a.port % 65536)))
        ⊎ ((ip4 : Ip) × (is_empty a.fqdn ≡ true)
            × (net.to4 a.ip ≡ some ip4)
            × (f ≡ (ipv4_address, ip4, a.port % 65536)))
        ⊎ ((ip6 : Ip) × (is_empty a.fqdn ≡ true)
            × (net.to4 a.ip ≡ none)
            × (net.to16 a.ip ≡ some ip6)
            × (f ≡ (ipv6_address, ip6, a.port % 65536)))
  unfolding format_addr
  format_addr-cases a f e short = ground arith

  read-format_addr :
      (a : AddrSpec) (f : ℕ × List ℕ × ℕ) (more : List ℕ) (c : Conn)
      → format_addr net (some a) ≡ some f
      → length a.fqdn < 256
      → c.input ≡ encoded f more
      → read_addr_spec net c ≡ (ok (received a), record c { input = more })
  read-format_addr a f more c e short i = elim (format_addr-cases a f e short) [
    | inl (named, form) ↦
        ground (arith, read_fqdn a.fqdn (a.port % 65536) more c (i ∙ ap (λ g. encoded g more) form))
    | inr (inl (ip4, unnamed, t4, form)) ↦ ground (
      arith,
      read_ipv4 ip4 (a.port % 65536) more c (laws.length-to4 _ _ t4)
          (i ∙ ap (λ g. encoded g more) form),
    )
    | inr (inr (ip6, unnamed, t4, t16, form)) ↦ ground (
      arith,
      read_ipv6 ip6 (a.port % 65536) more c (laws.length-to16 _ _ t16)
          (i ∙ ap (λ g. encoded g more) form),
    )
  ]

  -- On a connection whose writes succeed, a reply with an address that can be formatted (its name,
  -- if any, below 256 bytes) sends version, code and a reserved byte, then bytes which, read by
  -- readAddrSpec before any further bytes, give `received` of the address and use up exactly
  -- these bytes; an address that cannot be formatted is an error and sends nothing.
  pub reply-read_addr_spec :
      (resp : ℕ) (a : AddrSpec) (more : List ℕ) (c : Conn)
      → c.writes ≡ []
      → length a.fqdn < 256
      → ((msg : List ℕ) × (reply_socks5_client net resp (some a) c
            ≡ (ok tt, record c { output = c.output ++ (socks5_version ∷ resp ∷ 0 ∷ msg) }))
          × (read_addr_spec net (record c { input = msg ++ more })
              ≡ (ok (received a), record c { input = more })))
        ⊎ ((format_addr net (some a) ≡ none)
            × (reply_socks5_client net resp (some a) c ≡ (err format_address, c)))
  unfolding reply_socks5_client write ◌>>=◌
  reply-read_addr_spec resp a more c w short = elim (Option-cases (format_addr net (some a))) [
    | inl fails ↦ inr (fails, ground arith)
    | inr (f, e) ↦
        inl
          (encoded f [], ground arith, read-format_addr a f more _ e short (encoded-append f more))
  ]
