-- ===== src/Tunnel/Pipe/Delivered.antt =====
-- The bytes that a user sends and those that the target gets, client/tunnel and ippop/api/ws.
use titan_tunnel.Prelude.{
  ◌≤◌, List, [], ◌∷◌, ◌++◌, Option, none, some, GoString, true, false, ◌≡◌, refl, ap, ◌∙◌, sym,
  subst, arith, length, Option-cases, if-elim, inl, inr,
}
use mathlib.Core.List.{append-nil}
use titan_tunnel.Socks5.Net.{NetLib}
use titan_tunnel.Tunnel.Message.{
  MessageType, unknown, command, proxy_session_create, proxy_session_data, proxy_session_close,
  proxy_udp_data, UdpData, Proto, ProtoLaws, Sent, whole, cut, is_writable,
}
use titan_tunnel.Tunnel.Server.{Session}
use titan_tunnel.Tunnel.Node.{
  NodeUdp, NodeEnd, Dialed, connected, dial_failed, on_proxy_session_create, on_node_session_data,
  on_node_session_close, write_udp, udp_of, udp_unmarshalled, on_node_udp_data, on_tunnel_msg,
}
use titan_tunnel.Tunnel.World.{Event, node_reads, World, new_world, is_panic, node_read, step, run}
use titan_tunnel.Tunnel.Pipe.Ledger.{view, pending}
use titan_tunnel.Tunnel.Pipe.Down.{Prefix}
use titan_tunnel.Tunnel.Pipe.Run.{DownInv, run-DownInv, new-DownInv}

-- The session is there at the node, and its connection to the target works.
abbrev pub IsAlive : GoString → World → Type 0
IsAlive id w = ((w.nodes id).stored ≡ true) × (is_writable (w.nodes id).conn ≡ true)

-- The read loop of the node runs once for each outcome of dialing and writing.
abbrev pub reads : List (Dialed × Sent) → List Event
reads [] = []
reads ((dialed, sent) ∷ os) = node_reads dialed sent ∷ reads os

module _ (proto : Proto) (laws : ProtoLaws proto) (net : NetLib) (id : GoString)
    (valid : proto.is_utf8 id ≡ true) where
  reachable : (evs : List Event) → DownInv proto laws net id valid (run proto net evs new_world)
  reachable evs =
      run-DownInv proto laws net id valid evs new_world (new-DownInv proto laws net id valid)

  -- However the goroutines of a server and a node interleave, whatever the network breaks and
  -- whatever the other sessions do, what a session has written to its target is a prefix of what it
  -- has read from its user, the extra bytes of the SOCKS request first: nothing is lost in between,
  -- reordered, repeated or mixed with another session's bytes.
  pub run-Prefix :
      (evs : List Event)
      → Prefix
          ((run proto net evs new_world).nodes id).conn.given
          ((run proto net evs new_world).sessions id).taken
  run-Prefix evs = (reachable evs).given

  delivered :
      (w : World)
      → DownInv proto laws net id valid w
      → IsAlive id w
      → w.down.writable ≡ true
      → pending (view proto id w.down.queue) ≡ []
      → (w.nodes id).conn.given ≡ (w.sessions id).taken
  delivered w inv alive open_ empty =
      let (r, e, f) = inv.alive alive.0 alive.1 in
      sym (append-nil _)
      ∙ subst (λ r. (w.nodes id).conn.given ++ r ≡ (w.sessions id).taken) (f open_)
          (subst (λ p. (w.nodes id).conn.given ++ (p ++ r) ≡ (w.sessions id).taken) empty e)

  -- The node's read loop does not panic.
  message-calm :
      (j : GoString) (dialed : Dialed) (sent : Sent) (type : MessageType) (payload : GoString)
      (e : NodeEnd)
      → is_panic (on_tunnel_msg proto j dialed sent type payload e).0 ≡ false
  unfolding on_tunnel_msg on_proxy_session_create on_node_session_data on_node_session_close
      on_node_udp_data
  message-calm j dialed sent proxy_session_create payload e = refl
  message-calm j dialed sent proxy_session_data payload e = ground arith
  message-calm j dialed sent proxy_session_close payload e = ground arith
  message-calm j dialed sent proxy_udp_data payload e = go (proto.unmarshal_udp_data payload)
    where
      writes :
          (sent : Sent) (bytes : GoString) (u : NodeUdp)
          → is_panic (write_udp proto j sent bytes u e).0 ≡ false
      writes whole bytes u = refl
      writes (cut k) bytes u = refl

      finds :
          (u : Option NodeUdp) (dialed : Dialed) (bytes : GoString)
          → is_panic (udp_of proto j u dialed sent bytes e).0 ≡ false
      finds none connected bytes = writes sent bytes _
      finds none (dial_failed text) bytes = refl
      finds (some u) dialed bytes = writes sent bytes u

      go : (d : Option UdpData) → is_panic (udp_unmarshalled proto j d dialed sent e).0 ≡ false
      go none = refl
      go (some d) = finds e.session.proxy_udp dialed d.data_
  message-calm j dialed sent unknown payload e = refl
  message-calm j dialed sent command payload e = refl

  -- The websocket from the server holds `queue`, and the node still reads.
  record Reading (queue : List GoString) (before w : World) : Type 0 where
    calm : w.node_crashed ≡ false
    readable : w.down.readable ≡ true
    queued : w.down.queue ≡ queue
    writable : w.down.writable ≡ before.down.writable
    same_sessions : w.sessions ≡ before.sessions

  read-Reading :
      (dialed : Dialed) (sent : Sent) (bytes : GoString) (rest : List GoString) (before w : World)
      → Reading (bytes ∷ rest) before w
      → Reading rest before (step proto net (node_reads dialed sent) w)
  unfolding step
  read-Reading dialed sent bytes rest before w i =
      rw (i.calm, i.queued, i.readable)
        (elim (Option-cases (proto.unmarshal bytes)) [
          | inl e ↦ rw e (record {
            calm = refl;
            readable = refl;
            queued = refl;
            writable = i.writable;
            same_sessions = i.same_sessions;
          })
          | inr (m, e) ↦ rw e (record {
            calm = message-calm m.session_id dialed sent m.message_type m.payload _;
            readable = refl;
            queued = refl;
            writable = i.writable;
            same_sessions = i.same_sessions;
          })
        ])

  read_nothing-Reading :
      (dialed : Dialed) (sent : Sent) (before w : World)
      → Reading [] before w
      → Reading [] before (step proto net (node_reads dialed sent) w)
  unfolding step
  read_nothing-Reading dialed sent before w i =
      if-elim (Reading [] before) w.node_crashed w (node_read proto net dialed sent w.down.queue w)
        (λ c. i)
        (λ c. subst (λ q. Reading [] before (node_read proto net dialed sent q w)) (sym i.queued) i)

  reads-Reading :
      (os : List (Dialed × Sent)) (queue : List GoString) (before w : World)
      → length queue ≤ length os
      → Reading queue before w
      → Reading [] before (run proto net (reads os) w)
  unfolding run
  reads-Reading [] [] before w l i = i
  reads-Reading [] (bytes ∷ rest) before w l i = absurd (omega (arith, l))
  reads-Reading ((dialed, sent) ∷ os) [] before w l i =
      reads-Reading os [] before _ (omega arith) (read_nothing-Reading dialed sent before w i)
  reads-Reading ((dialed, sent) ∷ os) (bytes ∷ rest) before w l i =
      reads-Reading os rest before _ (omega (arith, l))
        (read-Reading dialed sent bytes rest before w i)

  -- From every reachable state in which the node has not crashed and still reads, and the server
  -- can still write: once the node has read as many messages as are under way, all that was read
  -- from the user has been given to the target, if the session is alive then.
  pub run-drained :
      (evs : List Event) (os : List (Dialed × Sent))
      → (run proto net evs new_world).node_crashed ≡ false
      → (run proto net evs new_world).down.readable ≡ true
      → (run proto net evs new_world).down.writable ≡ true
      → length (run proto net evs new_world).down.queue ≤ length os
      → IsAlive id (run proto net (reads os) (run proto net evs new_world))
      → ((run proto net (reads os) (run proto net evs new_world)).nodes id).conn.given
        ≡ ((run proto net evs new_world).sessions id).taken
  run-drained evs os calm readable writable l alive =
      let before = run proto net evs new_world in
      let i = reads-Reading os before.down.queue before before l (record {
        calm = calm;
        readable = readable;
        queued = refl;
        writable = refl;
        same_sessions = refl;
      }) in
      delivered (run proto net (reads os) before)
        (run-DownInv proto laws net id valid (reads os) before (reachable evs)) alive
        (i.writable ∙ writable) (ap (λ q. pending (view proto id q)) i.queued)
      ∙ ap (λ (f : GoString → Session). (f id).taken) i.same_sessions
