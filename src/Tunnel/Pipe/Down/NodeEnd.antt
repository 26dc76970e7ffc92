-- ===== src/Tunnel/Pipe/Down/NodeEnd.antt =====
-- The steps of a session at the node, client/tunnel, and the invariant from the user to the target.
use titan_tunnel.Prelude.{
  List, [], ◌∷◌, ◌++◌, Option, none, some, GoString, Bool, true, false, ◌&&◌, Result, ok, ◌≡◌, refl,
  ap, arith, length, length-append, if-elim, Option-cases, inl, inr,
}
use titan_tunnel.Tunnel.Message.{
  MessageType, unknown, command, proxy_session_create, proxy_session_data, proxy_session_close,
  proxy_udp_data, Message, UdpData, Proto, ProtoLaws, Link, write_message, Sent, whole, cut,
  TunnelError,
}
use titan_tunnel.Tunnel.Server.{Stage}
use titan_tunnel.Tunnel.Node.{
  NodeUdp, NodeEnd, Dialed, connected, dial_failed, node_message, wrote, node_send,
  reply_marshalled, create_proxy_session_reply, store_session, dialed_addr, create_next,
  create_proxy_session, on_proxy_session_create, on_node_session_data, on_node_session_close,
  read_target, finish_node, stop_target, write_udp, dial_udp, udp_of, udp_unmarshalled,
  on_node_udp_data, read_udp_of, read_udp, stop_udp, on_tunnel_msg,
}
use titan_tunnel.Tunnel.World.{
  NodeAct, dial, target_sends, target_ends, target_datagram, udp_ends, act_node,
}
use titan_tunnel.Tunnel.Pipe.Ledger.{data_of, grant_of, view, grants-snoc, view-snoc_own}
use titan_tunnel.Tunnel.Pipe.Down.{Inv}
use titan_tunnel.Tunnel.Pipe.Down.Moves.{Inv-up, Inv-down}
use titan_tunnel.Tunnel.Pipe.Down.Delivery.{
  Inv-node, Inv-stored, Inv-drop, Inv-create, Inv-make, Inv-give,
}

abbrev Outcome : Type 0
Outcome = Result TunnelError (Unit {0}) × NodeEnd

module _ (proto : Proto) (laws : ProtoLaws proto) (id : GoString) (valid : proto.is_utf8 id ≡ true)
    (stage : Stage) (taken : GoString) (open_ : Bool) where
  -- What holds, with the node's end `e` and the messages `down` on their way to it.
  abbrev pub Holds : List Message → NodeEnd → Type 0
  Holds down e = Inv proto stage taken e.session down (view proto id e.link.queue) open_

  abbrev own : MessageType → GoString → Message
  own type payload = node_message proto id type payload

  module _ (down : List Message) where
    -- The session sends a message; a success only if it has been made.
    send-Holds :
        (type : MessageType) (payload : GoString) (e : NodeEnd)
        → (e.session.started ≡ false → grant_of proto type payload ≡ 0)
        → Holds down e
        → Holds down (node_send proto id type payload e).1
    unfolding node_send write_message
    send-Holds type payload e g inv = elim (Option-cases (proto.marshal (own type payload))) [
      | inl a ↦ rw a inv
      | inr (bytes, a) ↦ rw a (
          if-elim (λ (x : Outcome). Holds down x.1) e.attached _ _
            (λ attached.
              if-elim (λ (x : Bool × Link). Holds down (wrote proto id x e).1) e.link.writable _ _
                (λ up.
                  rw (view-snoc_own proto laws id e.link.queue (own type payload) bytes a refl) (
                    Inv-up proto inv _ (λ h z. omega (
                      arith,
                      g h,
                      z,
                      grants-snoc proto (view proto id e.link.queue) (own type payload),
                    ))))
                (λ broken. inv))
            (λ detached. inv))
    ]

    reply-Holds :
        (answer : Option GoString) (e : NodeEnd)
        → (answer ≡ none → e.session.started ≡ true)
        → Holds down e
        → Holds down (create_proxy_session_reply proto id answer e).1
    unfolding create_proxy_session_reply
    reply-Holds none e made inv = go (proto.marshal_reply _)
      where
        go : (o : Option GoString) → Holds down (reply_marshalled proto id o e).1
        go none = inv
        go (some payload) =
            send-Holds proxy_session_create payload e
              (λ h. let t = made refl in absurd (ground arith)) inv
    reply-Holds (some text) e made inv =
        elim (Option-cases (proto.marshal_reply (record { success = false; err_msg = text }))) [
          | inl a ↦ rw a inv
          | inr (payload, a) ↦ rw a (
              send-Holds proxy_session_create payload e
                (λ h. rw (laws.reply_read_back _ payload a) refl) inv)
        ]

    -- The goroutine dials, after its request is taken from `creating`.
    dialed-Holds :
        (payload : GoString) (rest : List GoString) (e : NodeEnd)
        → e.session.creating ≡ payload ∷ rest
        → (addr : Option GoString) (dialed : Dialed) → Holds down e
        → Holds down (record e { session = record e.session { creating = rest } })
        → Holds down
            (dialed_addr proto id addr payload dialed
              (record e { session = record e.session { creating = rest } })).1
    dialed-Holds payload rest e c none dialed inv inv' =
        reply-Holds (some (proto.error_text payload)) _ (λ h. ground arith) inv'
    dialed-Holds payload rest e c (some addr) (dial_failed text) inv inv' =
        reply-Holds (some text) _ (λ h. ground arith) inv'
    dialed-Holds payload rest e c (some addr) connected inv inv' =
        reply-Holds none
          (store_session proto id (record e { session = record e.session { creating = rest } }))
          (λ h. refl) (Inv-make proto inv payload rest c _ refl refl refl)

  pub dial-Holds :
      (down : List Message) (dialed : Dialed) (e : NodeEnd)
      → Holds down e
      → Holds down (create_proxy_session proto id dialed e).1
  unfolding create_proxy_session
  dial-Holds down dialed e inv = go e.session.creating refl
    where
      go :
          (l : List GoString)
          → e.session.creating ≡ l
          → Holds down (create_next proto id l dialed e).1
      go [] c = inv
      go (payload ∷ rest) c =
          let popped : NodeEnd = record e { session = record e.session { creating = rest } } in
          let inv' : Holds down popped =
            Inv-node proto inv popped.session refl (λ h. h) (λ h. h) refl
              (omega (arith, ap length c)) in
          if-elim (λ (x : Outcome). Holds down x.1) e.session.stored _ _
            (λ stored. reply-Holds down none popped (λ h. Inv-stored proto inv stored) inv')
            (λ gone. dialed-Holds down payload rest e c _ dialed inv inv')

  pub read-Holds :
      (down : List Message) (bytes : GoString) (e : NodeEnd)
      → Holds down e
      → Holds down (read_target proto id bytes e).1
  unfolding read_target
  read-Holds down bytes e inv =
      if-elim (λ (x : Outcome). Holds down x.1) (e.session.running && e.session.conn.is_open) _ _
        (λ reads.
          send-Holds down proxy_session_data bytes
            (record e { session = record e.session { fetched = e.session.fetched ++ bytes } })
            (λ h. refl) (Inv-node proto inv _ refl (λ h. h) (λ h. h) refl (omega arith)))
        (λ ended. inv)

  pub stop-Holds :
      (down : List Message) (e : NodeEnd) → Holds down e → Holds down (stop_target proto id e).1
  unfolding stop_target
  stop-Holds down e inv =
      if-elim (λ (x : Outcome). Holds down x.1) e.session.running _ _
        (λ runs.
          if-elim (λ (x : Outcome). Holds down (finish_node proto id x).1)
            e.session.is_close_by_server _ _ (λ by_server. finishes e inv)
            (λ by_target.
              finishes (node_send proto id proxy_session_close [] e).1
                (send-Holds down proxy_session_close [] e (λ h. refl) inv)))
        (λ over. inv)
    where
      finishes : (e : NodeEnd) → Holds down e → Holds down (finish_node proto id (ok tt, e)).1
      finishes e inv =
          Inv-node proto inv _ refl (λ h. ground arith) (λ h. ground arith) refl (omega arith)

  pub read_udp-Holds :
      (down : List Message) (bytes : GoString) (e : NodeEnd)
      → Holds down e
      → Holds down (read_udp proto id bytes e).1
  unfolding read_udp
  read_udp-Holds down bytes e inv = go e.session.proxy_udp
    where
      go : (u : Option NodeUdp) → Holds down (read_udp_of proto id u bytes e).1
      go none = inv
      go (some u) = send-Holds down proxy_udp_data bytes e (λ h. refl) inv

  pub stop_udp-Holds :
      (down : List Message) (e : NodeEnd) → Holds down e → Holds down (stop_udp proto id e).1
  unfolding stop_udp
  stop_udp-Holds down e inv = Inv-node proto inv _ refl (λ h. h) (λ h. h) refl (omega arith)

  -- Every step of the session's goroutines.
  pub act-Holds :
      (down : List Message) (act : NodeAct) (e : NodeEnd)
      → Holds down e
      → Holds down (act_node proto act id e).1
  act-Holds down (dial dialed) e inv = dial-Holds down dialed e inv
  act-Holds down (target_sends bytes) e inv = read-Holds down bytes e inv
  act-Holds down target_ends e inv = stop-Holds down e inv
  act-Holds down (target_datagram bytes) e inv = read_udp-Holds down bytes e inv
  act-Holds down udp_ends e inv = stop_udp-Holds down e inv

  module _ (down : List Message) where
    -- A message of the session from the server is taken off the websocket and handled.
    udp-Holds :
        (dialed : Dialed) (sent : Sent) (payload : GoString) (e : NodeEnd)
        → Holds down e
        → Holds down (on_node_udp_data proto id dialed sent payload e).1
    unfolding on_node_udp_data
    udp-Holds dialed sent payload e inv = unmarshalled (proto.unmarshal_udp_data payload)
      where
        writes :
            (sent : Sent) (bytes : GoString) (u : NodeUdp)
            → Holds down (write_udp proto id sent bytes u e).1
        writes whole bytes u = Inv-node proto inv _ refl (λ h. h) (λ h. h) refl (omega arith)
        writes (cut k) bytes u = inv

        dials :
            (dialed : Dialed) (bytes : GoString)
            → Holds down (dial_udp proto id dialed sent bytes e).1
        dials connected bytes = writes sent bytes _
        dials (dial_failed text) bytes = inv

        finds :
            (u : Option NodeUdp) (bytes : GoString)
            → Holds down (udp_of proto id u dialed sent bytes e).1
        finds none bytes = dials dialed bytes
        finds (some u) bytes = writes sent bytes u

        unmarshalled :
            (d : Option UdpData) → Holds down (udp_unmarshalled proto id d dialed sent e).1
        unmarshalled none = inv
        unmarshalled (some d) = finds e.session.proxy_udp d.data_

    create-Holds :
        (payload : GoString) (e : NodeEnd)
        → Holds (own proxy_session_create payload ∷ down) e
        → Holds down (on_proxy_session_create proto id payload e).1
    unfolding on_proxy_session_create
    create-Holds payload e inv =
        Inv-create proto inv refl refl _ (length-append e.session.creating (payload ∷ []))

    data-Holds :
        (sent : Sent) (bytes : GoString) (e : NodeEnd)
        → Holds (own proxy_session_data bytes ∷ down) e
        → Holds down (on_node_session_data proto id sent bytes e).1
    unfolding on_node_session_data
    data-Holds sent bytes e inv =
        if-elim (λ (x : Outcome). Holds down x.1) e.session.stored _ _
          (λ stored. Inv-give proto inv stored sent) (λ gone. Inv-drop proto inv gone)

    close-Holds : (e : NodeEnd) → Holds down e → Holds down (on_node_session_close proto id e).1
    unfolding on_node_session_close
    close-Holds e inv =
        if-elim (λ (x : Outcome). Holds down x.1) e.session.stored _ _
          (λ stored.
            Inv-node proto inv _ refl (λ h. h) (λ h. absurd (ground arith)) refl (omega arith))
          (λ gone. inv)

  pub message-Holds :
      (dialed : Dialed) (sent : Sent) (type : MessageType) (payload : GoString)
      (down : List Message) (e : NodeEnd)
      → Holds (own type payload ∷ down) e
      → Holds down (on_tunnel_msg proto id dialed sent type payload e).1
  unfolding on_tunnel_msg
  message-Holds dialed sent type payload down e inv = go type inv
    where
      popped :
          (type : MessageType)
          → data_of type payload ≡ []
          → Holds (own type payload ∷ down) e
          → Holds down e
      popped type d inv = Inv-down proto inv down (rw d refl) (omega arith)

      go :
          (type : MessageType)
          → Holds (own type payload ∷ down) e
          → Holds down (on_tunnel_msg proto id dialed sent type payload e).1
      go proxy_session_create inv = create-Holds down payload e inv
      go proxy_session_data inv = data-Holds down sent payload e inv
      go proxy_session_close inv = close-Holds down e (popped _ refl inv)
      go proxy_udp_data inv = udp-Holds down dialed sent payload e (popped _ refl inv)
      go unknown inv = popped _ refl inv
      go command inv = popped _ refl inv
