-- ===== src/Socks5/Associate.antt =====
-- UDP associations, handleSocks5Associate of ippop/api/socks5/socks5.go with the counters and the
-- servers that it shares: any number of connections run it at once. One step of one connection is
-- one access to the shared state; the two mutexes make each access of a counter one step.
pub mod Counts
pub mod Servers
use titan_tunnel.Prelude.{
  ℕ, zero, suc, ◌+◌, List, [], ◌∷◌, Option, none, some, Result, ok, err, GoString, Bool, true,
  false, leb, ◌==◌, ◌&&◌, not, if◌then◌else◌,
}
use mathlib.Core.Path.{◌≡◌}
use titan_tunnel.Prelude.Maps.{GoMap, get, put, delete, empty}
use titan_tunnel.Socks5.Wire.{Error}
use titan_tunnel.Socks5.Counters.{incr, decr, decremented}
use titan_tunnel.Socks5.Udp.{UdpServer, new_udp_server, ip_count_key}

-- Socks5Server, with the ports of its open UDP sockets.
pub record Shared : Type 0 where
  pub user_ip_count : GoMap ℕ
  pub user_udp_count : GoMap ℕ
  pub user_udp_servers : GoMap UdpServer
  pub listening : List ℕ

abbrev pub is_listening : List ℕ → ℕ → Bool
is_listening [] p = false
is_listening (q ∷ qs) p = if q == p then true else is_listening qs p

abbrev pub close_port : List ℕ → ℕ → List ℕ
close_port [] p = []
close_port (q ∷ qs) p = let rest = close_port qs p in if q == p then rest else q ∷ rest

-- stopUserUDPServer after its Load
abbrev pub stop_server : Shared → GoString → Option UdpServer → Shared
stop_server s user none = s
stop_server s user (some udp) = record s {
  user_udp_servers = delete s.user_udp_servers user;
  listening = close_port s.listening udp.port;
}

unfoldable pub stop_user_udp_server : Shared → GoString → Shared
stop_user_udp_server s user = stop_server s user (get s.user_udp_servers user)

-- userUDPCount.decr: the lock is held while the server is stopped.
unfoldable pub decr_user : Shared → GoString → Shared
unfolding stop_user_udp_server
decr_user s user =
    let left = record s { user_udp_count = decr s.user_udp_count user } in
    if leb (decremented (get s.user_udp_count user)) 0 then stop_user_udp_server left user else left

-- Where a connection is in handleSocks5Associate.
pub data Pc : Type 0 where
  entered ip_counted udp_counted missed : Pc
  created : UdpServer → Pc
  serving : UdpServer → Pc
  waiting : UdpServer → Pc
  leaving left_udp done : Pc

pub record Proc : Type 0 where
  pub user : GoString
  pub src_ip : GoString
  pub pc : Pc

-- What the environment decides in a step.
pub record Env : Type 0 where
  -- the ports that other programs leave free
  pub bindable : ℕ → Bool
  -- uuid.NewString
  pub new_id : GoString
  -- UDPServerIP is an address, and the reply is written
  pub replied : Bool

pub record Options : Type 0 where
  pub udp_port_start : ℕ
  pub udp_port_end : ℕ

abbrev pub after_listen : Shared → Proc → Result Error UdpServer → Shared × Proc
after_listen s p (err e) = (s, record p { pc = leaving })
after_listen s p (ok udp) =
    (record s { listening = udp.port ∷ s.listening }, record p { pc = created udp })

abbrev pub after_load : Proc → Option UdpServer → Proc
after_load p none = record p { pc = missed }
after_load p (some udp) = record p { pc = serving udp }

-- The next access to the shared state. A connection that waits leaves when its client does.
unfoldable pub step_at : Options → Env → Pc → Shared → Proc → Shared × Proc
step_at opts env entered s p = (
  record s { user_ip_count = incr s.user_ip_count (ip_count_key p.user p.src_ip) },
  record p { pc = ip_counted },
)
step_at opts env ip_counted s p =
    (record s { user_udp_count = incr s.user_udp_count p.user }, record p { pc = udp_counted })
step_at opts env udp_counted s p = (s, after_load p (get s.user_udp_servers p.user))
step_at opts env missed s p = after_listen s p (
    new_udp_server (λ q. env.bindable q && not (is_listening s.listening q)) opts.udp_port_start
      opts.udp_port_end env.new_id p.user)
step_at opts env (created udp) s p = (
  record s { user_udp_servers = put s.user_udp_servers p.user udp },
  record p { pc = serving udp },
)
step_at opts env (serving udp) s p =
    (s, record p { pc = if env.replied then waiting udp else leaving })
step_at opts env (waiting udp) s p = (s, record p { pc = leaving })
step_at opts env leaving s p = (decr_user s p.user, record p { pc = left_udp })
step_at opts env left_udp s p = (
  record s { user_ip_count = decr s.user_ip_count (ip_count_key p.user p.src_ip) },
  record p { pc = done },
)
step_at opts env done s p = (s, p)

unfoldable pub step : Options → Env → Shared → Proc → Shared × Proc
unfolding step_at
step opts env s p = step_at opts env p.pc s p

pub record World : Type 0 where
  pub shared : Shared
  pub procs : List Proc

-- Connection number i makes a step.
abbrev pub step_in : Options → Env → ℕ → Shared → List Proc → Shared × List Proc
step_in opts env i s [] = (s, [])
step_in opts env zero s (p ∷ ps) = let (s', p') = step opts env s p in (s', p' ∷ ps)
step_in opts env (suc i) s (p ∷ ps) = let (s', ps') = step_in opts env i s ps in (s', p ∷ ps')

unfoldable pub run : Options → List (ℕ × Env) → World → World
run opts [] w = w
run opts ((i, env) ∷ rest) w =
    let (s, ps) = step_in opts env i w.shared w.procs in
    run opts rest (record { shared = s; procs = ps })

abbrev pub fresh_shared : Shared
fresh_shared = record {
  user_ip_count = empty;
  user_udp_count = empty;
  user_udp_servers = empty;
  listening = [];
}

-- Every connection is about to begin.
abbrev pub IsFresh : List Proc → Type 0
IsFresh [] = Unit {0}
IsFresh (p ∷ ps) = (p.pc ≡ entered) × IsFresh ps
