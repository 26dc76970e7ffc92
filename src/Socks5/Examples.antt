-- ===== src/Socks5/Examples.antt =====
-- Tests of the models of ippop/api/socks5, and the theorems at concrete inputs.
use titan_tunnel.Prelude.{
  ℕ, ◌<◌, List, [], ◌∷◌, ◌++◌, none, some, ok, err, GoString, codes, Bool, true, ◌≡◌, ◌≢◌, ◌==◌,
  str_eq, arith, refl, length, ◌⊎◌,
}
use titan_tunnel.Prelude.Maps.{get, empty, put}
use titan_tunnel.Socks5.Net.{NetLaws}
use titan_tunnel.Socks5.Wire.{
  ◌>>=◌, read_full, read_byte, write, format_address, not_support_auth_method,
}
use titan_tunnel.Socks5.Datagram.{
  Datagram, datagram_bytes, new_datagram_from_bytes, finish_datagram, ipv4_datagram, ipv4_address,
  fqdn_address, to_address, address_host,
}
use titan_tunnel.Socks5.Datagram.Accepts.{IsWellFormed, new_datagram_iff}
use titan_tunnel.Socks5.Datagram.Reply.{AnswersAs, answer-ipv4, answer-domain}
use titan_tunnel.Socks5.Protocol.{
  AddrSpec, format_addr, reply_socks5_client, read_port, read_addr_spec, new_request,
  read_auth_methods, user_pass_auth_success,
}
use titan_tunnel.Socks5.Protocol.ReadBack.{reply-read_addr_spec, received}
use titan_tunnel.Socks5.Auth.{offers, verify, user_pass_auth_exchange, authenticate}
use titan_tunnel.Socks5.Auth.Exchange.{open_conn, authenticate_refuses, authenticate-credentials}
use titan_tunnel.Socks5.Request.{
  serve_socks5_conn, handle_socks5_request, handle_socks5_connect, is_blocked, target_address,
}
use titan_tunnel.Socks5.Request.Guard.{IsGuarded, serve_authenticated}
use titan_tunnel.Socks5.Counters.{count_of, incr}
use titan_tunnel.Socks5.Udp.{
  UdpServer, Socks5UdpInfo, UdpSource, ip_count_key, handle_udp_conn, listen, relay_datagram,
  new_udp_server,
}
use titan_tunnel.Socks5.Udp.Relay.{FirstFree, listen-FirstFree, handle_udp_conn_iff}
use titan_tunnel.Socks5.Associate.{Proc, entered, Env, Options, World, run, step, decr_user}
use titan_tunnel.Socks5.Associate.Counts.{start, total, ip_share, user_share, counters_exact}
use titan_tunnel.Socks5.Associate.Servers.{attached_share, server_kept, server_gone}
use titan_tunnel.Socks5.Samples.{net, conversation, peer, handed_on}

net_laws : NetLaws net
net_laws = record { length-to4 = λ ip ip4 h. ground arith; length-to16 = λ ip ip6 h. ground arith }

-- A packet for 1.2.3.4, port 53.
abbrev dns_packet : List ℕ
dns_packet = 0 ∷ 0 ∷ 0 ∷ 1 ∷ 1 ∷ 2 ∷ 3 ∷ 4 ∷ 0 ∷ 53 ∷ 7 ∷ 7 ∷ []

abbrev dns_datagram : Datagram
dns_datagram = record {
  rsv = 0 ∷ 0 ∷ [];
  frag = 0;
  atyp = 1;
  dst_addr = 1 ∷ 2 ∷ 3 ∷ 4 ∷ [];
  dst_port = 0 ∷ 53 ∷ [];
  payload = 7 ∷ 7 ∷ [];
}

dns_packet_read : new_datagram_from_bytes dns_packet ≡ ok dns_datagram
unfolding new_datagram_from_bytes ipv4_datagram finish_datagram
dns_packet_read = refl

new_datagram_iff_example : IsWellFormed dns_datagram × (datagram_bytes dns_datagram ≡ dns_packet)
new_datagram_iff_example = (new_datagram_iff dns_packet dns_datagram).0 dns_packet_read

-- An answer from 9.9.9.9 and one from a domain name.
answer-ipv4_example :
    AnswersAs net net_laws
      (codes "abcd:5")
      (codes "abcd")
      (codes "5")
      7
      []
      refl
      ipv4_address
      (codes "abcd")
      (codes "abcd")
answer-ipv4_example =
    answer-ipv4 net net_laws (codes "abcd:5") (codes "abcd") (codes "5") 7 [] refl (codes "abcd")
      refl

answer-domain_example :
    AnswersAs net net_laws
      (codes "a.org:5")
      (codes "a.org")
      (codes "5")
      7
      []
      refl
      fqdn_address
      (6 ∷ 5 ∷ codes "a.org")
      (5 ∷ codes "a.org")
answer-domain_example =
    answer-domain net net_laws (codes "a.org:5") (codes "a.org") (codes "5") 7 [] refl refl refl
      (omega arith)

abbrev bound : AddrSpec
bound = record { fqdn = []; ip = 1 ∷ 2 ∷ 3 ∷ 4 ∷ []; port = 1080 }

reply-read_addr_spec_example :
    ((msg : List ℕ) × (reply_socks5_client net 0 (some bound) (open_conn [] [])
        ≡ (ok tt, open_conn [] (5 ∷ 0 ∷ 0 ∷ msg)))
      × (read_addr_spec net (open_conn (msg ++ 9 ∷ []) [])
          ≡ (ok (received net net_laws bound), open_conn (9 ∷ []) [])))
    ⊎ ((format_addr net (some bound) ≡ none)
        × (reply_socks5_client net 0 (some bound) (open_conn [] [])
            ≡ (err format_address, open_conn [] [])))
reply-read_addr_spec_example =
    reply-read_addr_spec net net_laws 0 bound (9 ∷ []) (open_conn [] []) refl (omega arith)

abbrev one_user : GoString → GoString → Bool
one_user user pass = length user == 1

authenticate_refuses_example :
    authenticate one_user true (open_conn (1 ∷ 0 ∷ []) [])
    ≡ (err not_support_auth_method, open_conn [] (5 ∷ 255 ∷ []))
unfolding offers
authenticate_refuses_example = authenticate_refuses one_user (0 ∷ []) [] true [] refl

authenticate-credentials_example :
    authenticate one_user true (open_conn (2 ∷ 0 ∷ 2 ∷ 1 ∷ 1 ∷ 117 ∷ 2 ∷ 112 ∷ 113 ∷ 5 ∷ []) [])
    ≡ (ok (some (117 ∷ [])), open_conn (5 ∷ []) (5 ∷ 2 ∷ 1 ∷ 0 ∷ []))
unfolding offers
authenticate-credentials_example =
    authenticate-credentials one_user (0 ∷ 2 ∷ []) [] (117 ∷ []) (112 ∷ 113 ∷ []) (5 ∷ []) refl

conversation_served : serve_socks5_conn net one_user true peer conversation ≡ (
  ok handed_on,
  open_conn [] (5 ∷ 2 ∷ 1 ∷ 0 ∷ 5 ∷ 0 ∷ 0 ∷ 1 ∷ 97 ∷ 98 ∷ 99 ∷ 100 ∷ 4 ∷ 56 ∷ []),
)
unfolding serve_socks5_conn authenticate offers read_auth_methods read_byte read_full
    user_pass_auth_exchange verify user_pass_auth_success write new_request read_addr_spec read_port
    handle_socks5_request handle_socks5_connect is_blocked target_address reply_socks5_client
    format_addr ◌>>=◌
conversation_served = refl

serve_authenticated_example : IsGuarded net one_user handed_on
serve_authenticated_example =
    serve_authenticated net one_user peer conversation _ handed_on conversation_served

-- Packets from an associated address.
abbrev udp_server : UdpServer
udp_server = record { port = 40000; id = codes "i"; user = codes "u" }

abbrev source : UdpSource
source = record { ip = codes "c"; text = codes "c:9" }

abbrev info : Socks5UdpInfo
info = record {
  udp_server_id = codes "i";
  src = codes "c:9";
  dest = 1 ∷ 2 ∷ 3 ∷ 4 ∷ 58 ∷ 101 ∷ [];
  user_name = codes "u";
}

associated :
    handle_udp_conn net (put empty (codes "u:c") 1) udp_server source dns_packet
    ≡ ok (info, 7 ∷ 7 ∷ [])
unfolding handle_udp_conn relay_datagram new_datagram_from_bytes ipv4_datagram finish_datagram
    to_address address_host count_of get put ip_count_key str_eq is_blocked
associated = refl

handle_udp_conn_iff_example : 0 < count_of (put empty (codes "u:c") 1) (codes "u:c")
unfolding ip_count_key
handle_udp_conn_iff_example =
    ((handle_udp_conn_iff net (put empty (codes "u:c") 1) udp_server source dns_packet info
        (7 ∷ 7 ∷ [])).0
      associated).2

listen-FirstFree_example :
    FirstFree (λ p. 40001 == p) 40000 40010 (listen (λ p. 40001 == p) 40000 40010)
listen-FirstFree_example = listen-FirstFree (λ p. 40001 == p) 40000 40010 (omega arith)

-- Two connections of one user.
abbrev clients : List Proc
clients =
    record { user = codes "u"; src_ip = codes "c"; pc = entered }
    ∷ record { user = codes "u"; src_ip = codes "d"; pc = entered }
    ∷ []

abbrev env : Env
env = record { bindable = λ p. true; new_id = codes "i"; replied = true }

abbrev options : Options
options = record { udp_port_start = 40000; udp_port_end = 40010 }

-- The first connection gets its server and waits, the second has begun.
abbrev schedule : List (ℕ × Env)
schedule =
    (0, env) ∷ (0, env) ∷ (1, env) ∷ (0, env) ∷ (0, env) ∷ (0, env) ∷ (0, env) ∷ (1, env) ∷ []

abbrev world : World
world = run options schedule (start clients)

counters_exact_example :
    (count_of world.shared.user_ip_count (codes "u:c") ≡ total (ip_share (codes "u:c")) world.procs)
    × (count_of world.shared.user_udp_count (codes "u")
        ≡ total (user_share (codes "u")) world.procs)
counters_exact_example =
    counters_exact options clients schedule (codes "u:c") (codes "u") (refl, (refl, tt))

one_waits : total (attached_share (codes "u")) world.procs ≡ 1
unfolding run step decr_user incr count_of get put ip_count_key str_eq new_udp_server listen empty
one_waits = refl

server_kept_example : get world.shared.user_udp_servers (codes "u") ≢ none
server_kept_example =
    server_kept options clients schedule (codes "u") (refl, (refl, tt)) (omega (arith, one_waits))

nobody_else : total (user_share (codes "v")) world.procs ≡ 0
unfolding run step decr_user incr count_of get put ip_count_key str_eq new_udp_server listen empty
nobody_else = refl

server_gone_example : get world.shared.user_udp_servers (codes "v") ≡ none
server_gone_example =
    server_gone options clients schedule (codes "v") (refl, (refl, tt)) nobody_else
