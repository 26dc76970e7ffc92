-- ===== src/Tunnel/Keepalive.antt =====
-- The pings of a tunnel: keepalive and onPong of ippop/api/ws/tunnel.go, which TunnelManager calls
-- every 30 seconds, and of client/tunnel/tunnel.go, a goroutine that fires every 10 seconds.
pub mod Bounds
use titan_tunnel.Prelude.{
  ℕ, zero, suc, ◌+◌, ◌*◌, ◌/◌, ◌%◌, ◌^◌, ◌≤◌, ◌<◌, List, [], ◌∷◌, ◌++◌, GoString, Bool, true, false,
  not, if◌then◌else◌, ltb, leb, ◌==◌, length, length-append, ◌≡◌, refl, ap, ◌∙◌, sym, arith,
  if-elim, Bool-cases, ◌⊎◌, inl, inr,
}

abbrev pub net_delay_count : ℕ
net_delay_count = 5

abbrev pub wait_pong_timeout : ℕ
wait_pong_timeout = 3

-- The server's end: `attached` is `t.conn != nil`, `open_` an open connection, `pings` the number of
-- pings sent, `reported` what SetNodeNetDelay has been called with, the last one first. `listed` says
-- that the manager's map holds the tunnel, `crashed` that a call went through a nil pointer.
pub record ServerPings : Type 0 where
  pub attached : Bool
  pub open_ : Bool
  pub wait_pong : ℕ
  pub net_delays : List ℕ
  pub pings : ℕ
  pub reported : List ℕ
  pub listed : Bool
  pub crashed : Bool

-- newTunnel
abbrev pub new_pings : ServerPings
new_pings = record {
  attached = true;
  open_ = true;
  wait_pong = 0;
  net_delays = [];
  pings = 0;
  reported = [];
  listed = true;
  crashed = false;
}

-- t.conn.Close(); t.conn = nil
abbrev pub close_tunnel : ServerPings → ServerPings
close_tunnel s =
    if s.attached then record s { attached = false; open_ = false } else record s { crashed = true }

-- writePing: the error of a closed or nil connection is only logged
abbrev pub write_ping : ServerPings → ServerPings
write_ping s = if s.attached then (if s.open_ then record s { pings = s.pings + 1 } else s) else s

abbrev pub count_ping : ServerPings → ServerPings
count_ping s = record s { wait_pong = s.wait_pong + 1 }

unfoldable pub keepalive : ServerPings → ServerPings
keepalive s =
    if ltb wait_pong_timeout s.wait_pong then close_tunnel s else count_ping (write_ping s)

-- the sum of uint64
abbrev pub sum : List ℕ → ℕ
sum [] = 0
sum (d ∷ ds) = (d + sum ds) % 2 ^ 64

-- the delays are averaged when there are enough of them
abbrev pub average_delays : ServerPings → ServerPings
average_delays s =
    if leb net_delay_count (length s.net_delays)
    then record s {
      reported = sum s.net_delays / length s.net_delays ∷ s.reported;
      net_delays = [];
    }
    else s

-- `delay` is the round trip's time in milliseconds
unfoldable pub on_pong : List ℕ → ℕ → ServerPings → ServerPings
on_pong bytes delay s =
    if length bytes == 8
    then record (average_delays (record s { net_delays = s.net_delays ++ (delay ∷ []) })) {
      wait_pong = 0;
    }
    else s

pub data PingEvent : Type 0 where
  tick : PingEvent
  pong : List ℕ → ℕ → PingEvent
  connection_lost loop_ends : PingEvent

-- The end of the read loop: tm.tunnels.Delete of acceptWebsocket and c.Close of ServeWS.
abbrev pub end_loop : ServerPings → ServerPings
end_loop s = record s { listed = false; open_ = false }

-- Nothing recovers a panic of the manager's own goroutine: a crash ends the program. It calls
-- keepalive of the tunnels in its map; the read loop reads no pong from a connection that is not
-- open.
abbrev pub ping_step : PingEvent → ServerPings → ServerPings
ping_step tick s = if s.crashed then s else (if s.listed then keepalive s else s)
ping_step (pong bytes delay) s =
    if s.crashed then s else (if s.open_ then on_pong bytes delay s else s)
ping_step connection_lost s = record s { open_ = false }
ping_step loop_ends s = if s.crashed then s else end_loop s

unfoldable pub ping_run : List PingEvent → ServerPings → ServerPings
ping_run [] s = s
ping_run (e ∷ es) s = ping_run es (ping_step e s)

-- The node's end; the read loop sets t.conn to nil when it ends.
pub record NodePings : Type 0 where
  pub attached : Bool
  pub open_ : Bool
  pub wait_pone : ℕ
  pub stopped : Bool

-- one round of the goroutine
unfoldable pub node_keepalive : NodePings → NodePings
node_keepalive s =
    if s.stopped
    then s
    else if not s.attached
    then record s { stopped = true }
    else if ltb wait_pong_timeout s.wait_pone
    then record s { open_ = false }
    else record s { wait_pone = s.wait_pone + 1 }

unfoldable pub node_on_pong : NodePings → NodePings
node_on_pong s = record s { wait_pone = 0 }
