-- ===== src/Tunnel/Keepalive/Bounds.antt =====
-- The bounds of the counters and a tunnel whose pings are not answered: keepalive and onPong of ippop/api/ws/tunnel.go.
use titan_tunnel.Prelude.{
  ℕ, zero, suc, ◌+◌, ◌≤◌, ◌<◌, List, [], ◌∷◌, ◌++◌, Bool, true, false, ltb, leb, length,
  length-append, ◌≡◌, refl, ◌∙◌, arith, if-elim,
}
use titan_tunnel.Tunnel.Keepalive.{
  wait_pong_timeout, ServerPings, end_loop, write_ping, count_ping, keepalive, on_pong, PingEvent,
  tick, pong, connection_lost, loop_ends, ping_step, ping_run,
}

-- At most four pings wait for a pong, and fewer than five delays wait for their average.
pub record IsBounded (s : ServerPings) : Type 0 where
  pub waits : s.wait_pong ≤ 4
  pub delays : length s.net_delays < 5

keepalive-IsBounded : (s : ServerPings) → IsBounded s → IsBounded (keepalive s)
unfolding keepalive
keepalive-IsBounded s b = record {
  waits = ground (arith, b.waits);
  delays = ground (arith, b.delays);
}

pong-IsBounded :
    (bytes : List ℕ) (delay : ℕ) (s : ServerPings) → IsBounded s → IsBounded (on_pong bytes delay s)
unfolding on_pong
pong-IsBounded bytes delay s b =
    let l = length-append s.net_delays (delay ∷ []) in
    record { waits = ground (arith, b.waits); delays = ground (arith, b.delays, l) }

step-IsBounded : (e : PingEvent) (s : ServerPings) → IsBounded s → IsBounded (ping_step e s)
step-IsBounded tick s b =
    if-elim IsBounded s.crashed _ _ (λ c. b)
      (λ c. if-elim IsBounded s.listed _ _ (λ l. keepalive-IsBounded s b) (λ l. b))
step-IsBounded (pong bytes delay) s b =
    if-elim IsBounded s.crashed _ _ (λ c. b)
      (λ c. if-elim IsBounded s.open_ _ _ (λ o. pong-IsBounded bytes delay s b) (λ o. b))
step-IsBounded connection_lost s b = record { waits = b.waits; delays = b.delays }
step-IsBounded loop_ends s b =
    if-elim IsBounded s.crashed _ _ (λ c. b) (λ c. record { waits = b.waits; delays = b.delays })

-- However ticks, pongs, losses of the connection and ends of the read loop follow one another, at most four pings of a
-- tunnel wait for a pong, and at most four delays wait for their average.
pub ping_run-IsBounded :
    (es : List PingEvent) (s : ServerPings) → IsBounded s → IsBounded (ping_run es s)
unfolding ping_run
ping_run-IsBounded [] s b = b
ping_run-IsBounded (e ∷ es) s b = ping_run-IsBounded es (ping_step e s) (step-IsBounded e s b)

abbrev pub ticks : ℕ → List PingEvent
ticks zero = []
ticks (suc n) = tick ∷ ticks n

-- n ticks, the end of the read loop, and m more ticks.
abbrev pub ticks_around_end : ℕ → ℕ → List PingEvent
ticks_around_end n m = ticks n ++ (loop_ends ∷ ticks m)

abbrev HasEnds : ServerPings → Bool → Bool → Type 0
HasEnds s attached crashed = (s.attached ≡ attached) × (s.crashed ≡ crashed)

-- The manager calls nothing of a tunnel that is not in its map.
unlisted_stays :
    (m : ℕ) (s : ServerPings)
    → s.listed ≡ false
    → HasEnds (ping_run (ticks m) s) s.attached s.crashed
unfolding ping_run
unlisted_stays zero s l = (refl, refl)
unlisted_stays (suc m) s l =
    if-elim (λ (t : ServerPings). HasEnds (ping_run (ticks m) t) s.attached s.crashed) s.crashed _ _
      (λ t. unlisted_stays m s l)
      (λ f.
        if-elim (λ (t : ServerPings). HasEnds (ping_run (ticks m) t) s.attached s.crashed) s.listed
          _ _ (λ t. absurd (ground arith)) (λ u. unlisted_stays m s l))

crashed_stays :
    (es : List PingEvent) (s : ServerPings)
    → s.attached ≡ false
    → s.crashed ≡ true
    → HasEnds (ping_run es s) false true
unfolding ping_run
crashed_stays [] s a c = (a, c)
crashed_stays (connection_lost ∷ es) s a c = crashed_stays es (ping_step connection_lost s) a c
crashed_stays (tick ∷ es) s a c =
    if-elim (λ (t : ServerPings). HasEnds (ping_run es t) false true) s.crashed _ _
      (λ t. crashed_stays es s a c) (λ f. absurd (ground arith))
crashed_stays (pong bytes delay ∷ es) s a c =
    if-elim (λ (t : ServerPings). HasEnds (ping_run es t) false true) s.crashed _ _
      (λ t. crashed_stays es s a c) (λ f. absurd (ground arith))
crashed_stays (loop_ends ∷ es) s a c =
    if-elim (λ (t : ServerPings). HasEnds (ping_run es t) false true) s.crashed _ _
      (λ t. crashed_stays es s a c) (λ f. absurd (ground arith))

module _ (m : ℕ) where
  abbrev EndsAs : ℕ → ServerPings → Bool → Bool → Type 0
  EndsAs n s attached crashed = HasEnds (ping_run (ticks_around_end n m) s) attached crashed

  ended :
      (s : ServerPings) (a c : Bool)
      → s.attached ≡ a
      → s.crashed ≡ c
      → s.crashed ≡ false
      → EndsAs 0 s a c
  unfolding ping_run
  ended s a c ea ec calm =
      if-elim (λ (t : ServerPings). HasEnds (ping_run (ticks m) t) a c) s.crashed _ _
        (λ t. absurd (ground arith))
        (λ f. let (x, y) = unlisted_stays m (end_loop s) refl in (x ∙ ea, y ∙ ec))

  -- a tick of a tunnel in the map of a manager that has not crashed
  ticked :
      (n : ℕ) (s : ServerPings) (a c : Bool)
      → s.listed ≡ true
      → s.crashed ≡ false
      → EndsAs n (keepalive s) a c
      → EndsAs (suc n) s a c
  unfolding ping_run
  ticked n s a c l f later =
      if-elim (λ (t : ServerPings). EndsAs n t a c) s.crashed _ _ (λ t. absurd (ground arith))
        (λ g.
          if-elim (λ (t : ServerPings). EndsAs n t a c) s.listed _ _ (λ u. later)
            (λ u. absurd (ground arith)))

  closed_then :
      (n : ℕ) (s : ServerPings)
      → s.attached ≡ false
      → s.listed ≡ true
      → s.crashed ≡ false
      → s.wait_pong ≡ 4
      → EndsAs n s false (leb 1 n)
  unfolding keepalive
  closed_then zero s a l c w = ended s false false a c c
  closed_then (suc n) s a l c w =
      let (x, y) = crashed_stays (ticks_around_end n m) (record s { crashed = true }) a refl in
      let later : EndsAs n (keepalive s) false true =
        if-elim (λ (t : ServerPings). EndsAs n t false true) (ltb wait_pong_timeout s.wait_pong) _ _
          (λ g.
            if-elim (λ (t : ServerPings). EndsAs n t false true) s.attached _ _
              (λ u. absurd (ground arith)) (λ u. (x, y)))
          (λ g. absurd (ground arith)) in
      let (p, q) = ticked n s false true l c later in (p, q ∙ ground arith)

  pinged :
      (s : ServerPings)
      → ((count_ping (write_ping s)).attached ≡ s.attached)
        × ((count_ping (write_ping s)).listed ≡ s.listed)
        × ((count_ping (write_ping s)).crashed ≡ s.crashed)
        × ((count_ping (write_ping s)).wait_pong ≡ s.wait_pong + 1)
  pinged s = (ground arith, ground arith, ground arith, ground arith)

  ticking :
      (n k : ℕ) (s : ServerPings)
      → s.attached ≡ true
      → s.listed ≡ true
      → s.crashed ≡ false
      → s.wait_pong ≤ 4
      → s.wait_pong + n ≡ k
      → EndsAs n s (leb k 4) (leb 6 k)
  unfolding keepalive
  ticking zero k s a l c w e = ended s (leb k 4) (leb 6 k) (a ∙ ground arith) (c ∙ ground arith) c
  ticking (suc n) k s a l c w e = ticked n s (leb k 4) (leb 6 k) l c (
      if-elim (λ (t : ServerPings). EndsAs n t (leb k 4) (leb 6 k))
        (ltb wait_pong_timeout s.wait_pong) _ _
        (λ g.
          if-elim (λ (t : ServerPings). EndsAs n t (leb k 4) (leb 6 k)) s.attached _ _
            (λ u.
              let (x, y) =
                closed_then n (record s { attached = false; open_ = false }) refl l c
                  (ground arith) in
              (x ∙ ground arith, y ∙ ground arith))
            (λ u. absurd (ground arith)))
        (λ g.
          let (pa, pl, pc, pw) = pinged s in
          ticking n k (count_ping (write_ping s)) (pa ∙ a) (pl ∙ l) (pc ∙ c) (ground arith)
            (ground arith)))

-- From a state in which no ping waits for a pong, let n ticks of the manager pass without a pong
-- before the read loop of the tunnel ends, and m after it. The connection is still in place exactly
-- if n is at most 4, and the server has crashed exactly if n is at least 6: the fifth tick closes the
-- connection and sets it to nil, a sixth one before the read loop has ended closes nil, and ticks
-- after its end do nothing.
pub ping_run-unanswered :
    (n m : ℕ) (s : ServerPings)
    → s.attached ≡ true
    → s.listed ≡ true
    → s.crashed ≡ false
    → s.wait_pong ≡ 0
    → ((ping_run (ticks_around_end n m) s).attached ≡ leb n 4)
      × ((ping_run (ticks_around_end n m) s).crashed ≡ leb 6 n)
ping_run-unanswered n m s a l c w = ticking m n n s a l c (omega (arith, w)) (omega (arith, w))
