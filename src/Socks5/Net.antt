-- ===== src/Socks5/Net.antt =====
-- What ippop/api/socks5 calls of the Go packages net and strconv: a parameter of the model.
use titan_tunnel.Prelude.{ℕ, Bool, Option, List, GoString, ◌≡◌, some, length}

-- An IP address is its bytes; nil is the empty list.
abbrev pub Ip : Type 0
Ip = List ℕ

pub record NetLib : Type 0 where
  -- net.IP.String
  pub ip_string : Ip → GoString
  -- net.IP.To4 and net.IP.To16; `none` is nil
  pub to4 : Ip → Option Ip
  pub to16 : Ip → Option Ip
  -- net.ParseIP
  pub parse_ip : GoString → Ip
  -- net.SplitHostPort and net.JoinHostPort
  pub split_host_port : GoString → Option (GoString × GoString)
  pub join_host_port : GoString → GoString → GoString
  -- strconv.Itoa, and strconv.Atoi as a 64-bit pattern, its error ignored
  pub itoa : ℕ → GoString
  pub atoi : GoString → ℕ
  -- net.ResolveTCPAddr and net.ResolveUDPAddr: the address, or none for an error
  pub resolve : GoString → Option Ip
  -- net.IP.IsLoopback, IsPrivate, IsMulticast and IsLinkLocalMulticast
  pub is_loopback : Ip → Bool
  pub is_private : Ip → Bool
  pub is_multicast : Ip → Bool
  pub is_link_local_multicast : Ip → Bool

-- What the documentation of package net says of the lengths of the two forms of an address.
pub record NetLaws (net : NetLib) : Type 0 where
  pub length-to4 : (ip ip4 : Ip) → net.to4 ip ≡ some ip4 → length ip4 ≡ 4
  pub length-to16 : (ip ip16 : Ip) → net.to16 ip ≡ some ip16 → length ip16 ≡ 16
