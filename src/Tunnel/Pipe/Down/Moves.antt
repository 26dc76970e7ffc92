-- ===== src/Tunnel/Pipe/Down/Moves.antt =====
-- The invariant from the user to the target while the server's end or the messages change.
use titan_tunnel.Prelude.{
  ◌≤◌, List, [], ◌∷◌, ◌++◌, GoString, Bool, true, false, ◌≡◌, refl, ap, ◌∙◌, sym, subst, arith,
  Bool-cases, inl, inr,
}
use mathlib.Core.List.{append-nil, append_assoc}
use titan_tunnel.Tunnel.Message.{Message, Proto}
use titan_tunnel.Tunnel.Server.{Stage, idle, asked, answered}
use titan_tunnel.Tunnel.Node.{NodeSession}
use titan_tunnel.Tunnel.Pipe.Ledger.{
  data_of, create_of, pending, creates, is_success, grants, pending-snoc, creates-snoc,
}
use titan_tunnel.Tunnel.Pipe.Down.{begun, begun-le-one, is_sending, granted, sending-granted, Inv}

module _ (proto : Proto) where
  module _ {stage : Stage} {taken : GoString} {n : NodeSession} {down up : List Message}
      {open_ : Bool} (inv : Inv proto stage taken n down up open_) where
    -- The server's end goes on without reading from the user.
    pub Inv-stage :
        (stage' : Stage)
        → (granted proto stage ≡ false → granted proto stage' ≡ false)
        → (is_sending stage' ≡ false → is_sending stage ≡ false)
        → begun stage ≤ begun stage'
        → Inv proto stage' taken n down up open_
    Inv-stage stage' g s b = record {
      given = inv.given;
      alive = inv.alive;
      unstarted = λ h.
          let u = inv.unstarted h in
          record {
            no_data = u.no_data;
            no_bytes = u.no_bytes;
            no_grant = u.no_grant;
            not_granted = g u.not_granted;
            not_stored = u.not_stored;
          };
      early = λ h. inv.early (s h);
      once = omega (arith, inv.once, b);
    }

    pub Inv-open :
        (open' : Bool) → (open' ≡ true → open_ ≡ true) → Inv proto stage taken n down up open'
    Inv-open open' o = record {
      given = inv.given;
      alive = λ st w. let (r, e, f) = inv.alive st w in (r, e, λ h. f (o h));
      unstarted = inv.unstarted;
      early = inv.early;
      once = inv.once;
    }

    -- The messages to the node change, but no data and no requests among them.
    pub Inv-down :
        (down' : List Message)
        → pending down' ≡ pending down
        → creates down' ≤ creates down
        → Inv proto stage taken n down' up open_
    Inv-down down' same c = record {
      given = inv.given;
      alive = λ st w. let (r, e, f) = inv.alive st w in (r, rw same e, f);
      unstarted = λ h.
          let u = inv.unstarted h in
          record {
            no_data = same ∙ u.no_data;
            no_bytes = u.no_bytes;
            no_grant = u.no_grant;
            not_granted = u.not_granted;
            not_stored = u.not_stored;
          };
      early = inv.early;
      once = omega (arith, inv.once, c);
    }

    -- The messages to the server change: they say no more that the session is made, or it is.
    pub Inv-up :
        (up' : List Message)
        → (n.started ≡ false → grants proto up ≡ 0 → grants proto up' ≡ 0)
        → Inv proto stage taken n down up' open_
    Inv-up up' g = record {
      given = inv.given;
      alive = inv.alive;
      unstarted = λ h.
          let u = inv.unstarted h in
          record {
            no_data = u.no_data;
            no_bytes = u.no_bytes;
            no_grant = g h u.no_grant;
            not_granted = u.not_granted;
            not_stored = u.not_stored;
          };
      early = inv.early;
      once = inv.once;
    }

    -- The reply is handed over.
    pub Inv-reply :
        (payload : GoString) (up' : List Message)
        → is_sending stage ≡ false
        → (grants proto up ≡ 0
            → (grants proto up' ≡ 0) × (is_success (proto.unmarshal_reply payload) ≡ false))
        → Inv proto (answered payload) taken n down up' open_
    Inv-reply payload up' s g = record {
      given = inv.given;
      alive = inv.alive;
      unstarted = λ h.
          let u = inv.unstarted h in
          record {
            no_data = u.no_data;
            no_bytes = u.no_bytes;
            no_grant = (g u.no_grant).0;
            not_granted = (g u.no_grant).1;
            not_stored = u.not_stored;
          };
      early = λ h. inv.early s;
      once = omega (arith, inv.once, begun-le-one stage);
    }

    pub Inv-started : is_sending stage ≡ true → n.started ≡ true
    Inv-started s = elim (Bool-cases n.started) [
      | inl made ↦ made
      | inr never ↦
          let f = (inv.unstarted never).not_granted in
          let t = sending-granted proto stage s in ground arith
    ]

    -- Data are read from the user and reach the websocket.
    pub Inv-data :
        (m : Message)
        → open_ ≡ true
        → is_sending stage ≡ true
        → create_of m.message_type ≡ 0
        → Inv proto stage (taken ++ data_of m.message_type m.payload) n (down ++ (m ∷ [])) up open_
    Inv-data m o s c =
        let started = Inv-started s in
        let bytes = data_of m.message_type m.payload in
        record {
          given =
              let (r, e) = inv.given in
              (r ++ bytes, sym (append_assoc n.conn.given r bytes) ∙ ap (λ x. x ++ bytes) e);
          alive = λ st w. let (r, e, f) = inv.alive st w in ([], extend r e (f o), λ h. refl);
          unstarted = λ h. absurd (ground arith);
          early = λ h. absurd (ground arith);
          once = omega (arith, inv.once, creates-snoc down m, c);
        }
      where
        extend :
            (r : GoString)
            → n.conn.given ++ (pending down ++ r) ≡ taken
            → r ≡ []
            → n.conn.given ++ (pending (down ++ (m ∷ [])) ++ [])
              ≡ taken ++ data_of m.message_type m.payload
        extend r e z =
            let k : n.conn.given ++ pending down ≡ taken =
              ap (n.conn.given ++◌) (sym (append-nil (pending down)))
              ∙ subst (λ r. n.conn.given ++ (pending down ++ r) ≡ taken) z e in
            ap (n.conn.given ++◌) (append-nil _ ∙ pending-snoc down m)
            ∙ sym (append_assoc n.conn.given (pending down) _)
            ∙ ap (λ x. x ++ data_of m.message_type m.payload) k

    -- Data are read from the user and are lost, since the websocket takes no more.
    pub Inv-lost :
        (bytes : GoString)
        → open_ ≡ false
        → is_sending stage ≡ true
        → Inv proto stage (taken ++ bytes) n down up open_
    Inv-lost bytes o s =
        let started = Inv-started s in
        record {
          given =
              let (r, e) = inv.given in
              (r ++ bytes, sym (append_assoc n.conn.given r bytes) ∙ ap (λ x. x ++ bytes) e);
          alive = λ st w.
              let (r, e, f) = inv.alive st w in
              (r ++ bytes, extend r e, λ h. absurd (ground arith));
          unstarted = λ h. absurd (ground arith);
          early = λ h. absurd (ground arith);
          once = inv.once;
        }
      where
        extend :
            (r : GoString)
            → n.conn.given ++ (pending down ++ r) ≡ taken
            → n.conn.given ++ (pending down ++ (r ++ bytes)) ≡ taken ++ bytes
        extend r e =
            ap (n.conn.given ++◌) (sym (append_assoc (pending down) r bytes))
            ∙ sym (append_assoc n.conn.given (pending down ++ r) bytes)
            ∙ ap (λ x. x ++ bytes) e

    -- The request for the session is written.
    pub Inv-request :
        (m : Message)
        → stage ≡ idle
        → data_of m.message_type m.payload ≡ []
        → create_of m.message_type ≤ 1
        → Inv proto asked taken n (down ++ (m ∷ [])) up open_
    Inv-request m i d c =
        let same : pending (down ++ (m ∷ [])) ≡ pending down =
          pending-snoc down m ∙ rw d (append-nil _) in
        let none_before : begun stage ≡ 0 = ap begun i in
        record {
          given = inv.given;
          alive = λ st w. let (r, e, f) = inv.alive st w in (r, rw same e, f);
          unstarted = λ h.
              let u = inv.unstarted h in
              record {
                no_data = same ∙ u.no_data;
                no_bytes = u.no_bytes;
                no_grant = u.no_grant;
                not_granted = refl;
                not_stored = u.not_stored;
              };
          early = λ h. inv.early (ap is_sending i);
          once = omega (arith, inv.once, creates-snoc down m, c, none_before);
        }
