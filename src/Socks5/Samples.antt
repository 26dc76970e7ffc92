-- ===== src/Socks5/Samples.antt =====
-- A small network and a conversation, for the examples of ippop/api/socks5 and what uses it.
use titan_tunnel.Prelude.{
  ℕ, ◌+◌, [], ◌∷◌, ◌++◌, Option, none, some, GoString, codes, false, if◌then◌else◌, ◌==◌, length,
}
use titan_tunnel.Socks5.Net.{Ip, NetLib}
use titan_tunnel.Socks5.Wire.{Conn}
use titan_tunnel.Socks5.Auth.Exchange.{open_conn}
use titan_tunnel.Socks5.Request.{Action, Peer}

-- A small network: an address prints as its bytes, a host is what stands before the first colon.
abbrev pub before_colon : GoString → GoString
before_colon [] = []
before_colon (c ∷ s) = let rest = before_colon s in if c == 58 then [] else c ∷ rest

abbrev pub of_length : ℕ → Ip → Option Ip
of_length n ip = if length ip == n then some ip else none

abbrev pub net : NetLib
net = record {
  ip_string = λ ip. ip;
  to4 = of_length 4;
  to16 = of_length 16;
  parse_ip = λ h. if length h == 4 then h else [];
  split_host_port = λ s. some (before_colon s, codes "5");
  join_host_port = λ h p. h ++ (58 ∷ p);
  itoa = λ n. (n + 48) ∷ [];
  atoi = λ s. 53;
  resolve = λ s. some (8 ∷ 8 ∷ 8 ∷ 8 ∷ []);
  is_loopback = λ ip. false;
  is_private = λ ip. false;
  is_multicast = λ ip. false;
  is_link_local_multicast = λ ip. false;
}

-- User "u" asks for h:80 after the negotiation.
abbrev pub conversation : Conn
conversation =
    open_conn (5 ∷ 1 ∷ 2 ∷ 1 ∷ 1 ∷ 117 ∷ 1 ∷ 112 ∷ 5 ∷ 1 ∷ 0 ∷ 3 ∷ 1 ∷ 104 ∷ 0 ∷ 80 ∷ 9 ∷ []) []

abbrev pub peer : Peer
peer = record { remote = codes "c:1"; local_ip = codes "abcd"; local_port = 1080; buffered = 1 }

abbrev pub handed_on : Action
handed_on =
    Action.handle_tcp
      (record { domain_name = codes "h"; port = 80; extra_bytes = 9 ∷ []; user_name = codes "u" })
