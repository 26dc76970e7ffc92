-- ===== src/Tunnel/Pipe/Run.antt =====
-- Schedules of Tunnel/World and the invariant from the user to the target.
use titan_tunnel.Prelude.{
  List, [], ◌∷◌, GoString, true, false, Result, str_eq, str_eq_iff, ◌≡◌, refl, ◌∙◌, sym, subst,
  arith, Bool-cases, if-elim, Bool, Option-cases, inl, inr,
}
use titan_tunnel.Socks5.Net.{NetLib}
use titan_tunnel.Tunnel.Message.{Message, Proto, ProtoLaws, Link, Sent, TunnelError, send}
use titan_tunnel.Tunnel.Server.{End, message}
use titan_tunnel.Tunnel.Server.Messages.{on_message}
use titan_tunnel.Tunnel.Node.{NodeEnd, Dialed, node_message, on_tunnel_msg}
use titan_tunnel.Tunnel.World.{
  ServerAct, NodeAct, Event, at_server, at_node, server_reads, unwound, node_reads, server_stops,
  node_stops, down_breaks, up_breaks, clear, World, new_world, server_end, node_end, put_server,
  put_node, act_server, act_node, server_message, server_read, node_message_in, node_read,
  set_queue, step, run,
}
use titan_tunnel.Tunnel.Pipe.Ledger.{
  view, view-cons_none, view-cons_other, view-cons_own, view-send_other, send-writable,
}
use titan_tunnel.Tunnel.Pipe.Writes.{act-keeps, message-keeps}
use titan_tunnel.Tunnel.Pipe.Writes.AtNode.{node_act-keeps, node_message-keeps}
use titan_tunnel.Tunnel.Pipe.Down.{Inv}
use titan_tunnel.Tunnel.Pipe.Down.Moves.{Inv-open}
use titan_tunnel.Tunnel.Pipe.Down.Messages
use titan_tunnel.Tunnel.Pipe.Down.NodeEnd

module _ (proto : Proto) (laws : ProtoLaws proto) (net : NetLib) (id : GoString)
    (valid : proto.is_utf8 id ≡ true) where
  -- What holds of the session `id` in a world.
  abbrev pub DownInv : World → Type 0
  DownInv w =
      Inv proto (w.sessions id).stage (w.sessions id).taken (w.nodes id)
        (view proto id w.down.queue) (view proto id w.up.queue) w.down.writable

  -- A link with the same messages of the session, and as writable.
  abbrev SameFor : Link → Link → Type 0
  SameFor l l' = (view proto id l'.queue ≡ view proto id l.queue) × (l'.writable ≡ l.writable)

  send-SameFor :
      (m : Message) (l l' : Link)
      → str_eq m.session_id id ≡ false
      → SameFor l l'
      → SameFor l (send proto m l').1
  send-SameFor m l l' other (v, w) =
      (view-send_other proto laws id m l' other ∙ v, send-writable proto m l' ∙ w)

  -- One session's step at the server; `f` is the step of each session.
  put_server-DownInv :
      (f : GoString → Result TunnelError (Unit {0}) × End) (j : GoString) (w : World)
      → (str_eq j id ≡ false → SameFor w.down (f j).1.link)
      → (str_eq j id ≡ false → DownInv w)
      → (j ≡ id
          → Inv proto
              (f id).1.session.stage
              (f id).1.session.taken
              (w.nodes id)
              (view proto id (f id).1.link.queue)
              (view proto id w.up.queue)
              (f id).1.link.writable)
      → DownInv (put_server j w (f j))
  put_server-DownInv f j w same other own = elim (Bool-cases (str_eq j id)) [
    | inl eq ↦
        let here = (str_eq_iff j id).0 eq in
        rw eq (
          subst
            (λ k.
              Inv proto (f k).1.session.stage (f k).1.session.taken (w.nodes id)
                (view proto id (f k).1.link.queue) (view proto id w.up.queue) (f k).1.link.writable)
            (sym here) (own here))
    | inr ne ↦ rw (ne, (same ne).0, (same ne).1) (other ne)
  ]

  put_node-DownInv :
      (f : GoString → Result TunnelError (Unit {0}) × NodeEnd) (j : GoString) (w : World)
      → (str_eq j id ≡ false → SameFor w.up (f j).1.link)
      → (str_eq j id ≡ false → DownInv w)
      → (j ≡ id
          → Inv proto
              (w.sessions id).stage
              (w.sessions id).taken
              (f id).1.session
              (view proto id w.down.queue)
              (view proto id (f id).1.link.queue)
              w.down.writable)
      → DownInv (put_node j w (f j))
  put_node-DownInv f j w same other own = elim (Bool-cases (str_eq j id)) [
    | inl eq ↦
        let here = (str_eq_iff j id).0 eq in
        rw eq (
          subst
            (λ k.
              Inv proto (w.sessions id).stage (w.sessions id).taken (f k).1.session
                (view proto id w.down.queue) (view proto id (f k).1.link.queue) w.down.writable)
            (sym here) (own here))
    | inr ne ↦ rw (ne, (same ne).0) (other ne)
  ]

  at_server-DownInv :
      (j : GoString) (act : ServerAct) (w : World)
      → DownInv w
      → DownInv (put_server j w (act_server proto net act j (server_end j w)))
  at_server-DownInv j act w inv =
      put_server-DownInv (λ k. act_server proto net act k (server_end k w)) j w
        (λ ne.
          act-keeps proto net j (SameFor w.down)
            (λ type payload l s. send-SameFor (message proto net j type payload) w.down l ne s) act
            (server_end j w) (refl, refl))
        (λ ne. inv)
        (λ eq.
          Messages.act-Holds proto laws net id valid (w.nodes id) (view proto id w.up.queue) act
            (server_end id w) inv)

  at_node-DownInv :
      (j : GoString) (act : NodeAct) (w : World)
      → DownInv w
      → DownInv (put_node j w (act_node proto act j (node_end j w)))
  at_node-DownInv j act w inv =
      put_node-DownInv (λ k. act_node proto act k (node_end k w)) j w
        (λ ne.
          node_act-keeps proto j (SameFor w.up)
            (λ type payload l s. send-SameFor (node_message proto j type payload) w.up l ne s) act
            (node_end j w) (refl, refl))
        (λ ne. inv)
        (λ eq.
          NodeEnd.act-Holds proto laws id valid (w.sessions id).stage (w.sessions id).taken
            w.down.writable (view proto id w.down.queue) act (node_end id w) inv)

  -- What holds, with the session's messages `up` on their way to the server.
  abbrev WithUp : World → List Message → Type 0
  WithUp w up =
      Inv proto (w.sessions id).stage (w.sessions id).taken (w.nodes id)
        (view proto id w.down.queue) up w.down.writable

  unwound-DownInv : (b : Bool) (w : World) → DownInv w → DownInv (unwound proto net b w)
  unwound-DownInv true w inv = Inv-open proto inv false (λ h. ground arith)
  unwound-DownInv false w inv = inv

  server_message-DownInv :
      (sent : Sent) (bytes : GoString) (rest : List GoString) (w : World)
      → WithUp w (view proto id (bytes ∷ rest))
      → DownInv (
          server_message proto net sent
            (proto.unmarshal bytes)
            (record w { up = set_queue rest w.up }))
  server_message-DownInv sent bytes rest w inv = elim (Option-cases (proto.unmarshal bytes)) [
    | inl e ↦ rw e (subst (WithUp w) (view-cons_none proto id bytes rest e) inv)
    | inr (m, e) ↦
        let w' : World = record w { up = set_queue rest w.up } in
        rw e (
          unwound-DownInv _ _ (
            put_server-DownInv
              (λ k. on_message proto net k sent m.message_type m.payload (server_end k w'))
              m.session_id w'
              (λ ne.
                message-keeps proto net m.session_id (SameFor w.down)
                  (λ type payload l s.
                    send-SameFor (message proto net m.session_id type payload) w.down l ne s)
                  sent m.message_type m.payload (server_end m.session_id w') (refl, refl))
              (λ ne. subst (WithUp w) (view-cons_other proto id bytes rest m e ne) inv)
              (λ here.
                Messages.message-Holds proto laws net id valid (w.nodes id) (view proto id rest)
                  sent m.message_type m.payload (server_end id w')
                  (subst (WithUp w) (view-cons_own proto id bytes rest m e here) inv))))
  ]

  -- What holds, with the session's messages `down` on their way to the node.
  abbrev WithDown : World → List Message → Type 0
  WithDown w down =
      Inv proto (w.sessions id).stage (w.sessions id).taken (w.nodes id) down
        (view proto id w.up.queue) w.down.writable

  node_message-DownInv :
      (dialed : Dialed) (sent : Sent) (bytes : GoString) (rest : List GoString) (w : World)
      → WithDown w (view proto id (bytes ∷ rest))
      → DownInv (
          node_message_in proto net dialed sent
            (proto.unmarshal bytes)
            (record w { down = set_queue rest w.down }))
  node_message-DownInv dialed sent bytes rest w inv = elim (Option-cases (proto.unmarshal bytes)) [
    | inl e ↦ rw e (subst (WithDown w) (view-cons_none proto id bytes rest e) inv)
    | inr (m, e) ↦
        let w' : World = record w { down = set_queue rest w.down } in
        rw e (
          put_node-DownInv
            (λ k. on_tunnel_msg proto k dialed sent m.message_type m.payload (node_end k w'))
            m.session_id w'
            (λ ne.
              node_message-keeps proto m.session_id (SameFor w.up)
                (λ type payload l s.
                  send-SameFor (node_message proto m.session_id type payload) w.up l ne s)
                dialed sent m.message_type m.payload (node_end m.session_id w') (refl, refl))
            (λ ne. subst (WithDown w) (view-cons_other proto id bytes rest m e ne) inv)
            (λ here.
              NodeEnd.message-Holds proto laws id valid (w.sessions id).stage (w.sessions id).taken
                w.down.writable dialed sent m.message_type m.payload (view proto id rest)
                (node_end id w')
                (subst (WithDown w) (view-cons_own proto id bytes rest m e here) inv)))
  ]

  server_read-DownInv :
      (sent : Sent) (w : World) → DownInv w → DownInv (server_read proto net sent w.up.queue w)
  server_read-DownInv sent w inv = go w.up.queue inv
    where
      go :
          (q : List GoString)
          → WithUp w (view proto id q)
          → DownInv (server_read proto net sent q w)
      go [] i = inv
      go (bytes ∷ rest) i =
          if-elim DownInv w.up.readable _ _ (λ r. server_message-DownInv sent bytes rest w i)
            (λ r. inv)

  node_read-DownInv :
      (dialed : Dialed) (sent : Sent) (w : World)
      → DownInv w
      → DownInv (node_read proto net dialed sent w.down.queue w)
  node_read-DownInv dialed sent w inv = go w.down.queue inv
    where
      go :
          (q : List GoString)
          → WithDown w (view proto id q)
          → DownInv (node_read proto net dialed sent q w)
      go [] i = inv
      go (bytes ∷ rest) i =
          if-elim DownInv w.down.readable _ _ (λ r. node_message-DownInv dialed sent bytes rest w i)
            (λ r. inv)

  pub step-DownInv : (ev : Event) (w : World) → DownInv w → DownInv (step proto net ev w)
  unfolding step
  step-DownInv (at_server j act) w inv = at_server-DownInv j act w inv
  step-DownInv (at_node j act) w inv =
      if-elim DownInv w.node_crashed _ _ (λ c. inv) (λ c. at_node-DownInv j act w inv)
  step-DownInv (server_reads sent) w inv = server_read-DownInv sent w inv
  step-DownInv (node_reads dialed sent) w inv =
      if-elim DownInv w.node_crashed _ _ (λ c. inv) (λ c. node_read-DownInv dialed sent w inv)
  step-DownInv server_stops w inv = Inv-open proto inv false (λ h. ground arith)
  step-DownInv node_stops w inv = inv
  step-DownInv down_breaks w inv = Inv-open proto inv false (λ h. ground arith)
  step-DownInv up_breaks w inv = inv
  step-DownInv clear w inv =
      Messages.clear-Holds proto laws net id valid (w.nodes id) (view proto id w.up.queue)
        (server_end id w) inv

  -- in every state that a schedule reaches
  pub run-DownInv : (evs : List Event) (w : World) → DownInv w → DownInv (run proto net evs w)
  unfolding run
  run-DownInv [] w inv = inv
  run-DownInv (ev ∷ evs) w inv = run-DownInv evs (step proto net ev w) (step-DownInv ev w inv)

  pub new-DownInv : DownInv new_world
  new-DownInv = record {
    given = ([], refl);
    alive = λ st w. ground arith;
    unstarted = λ h. record {
      no_data = refl;
      no_bytes = refl;
      no_grant = refl;
      not_granted = refl;
      not_stored = refl;
    };
    early = λ h. refl;
    once = omega arith;
  }
