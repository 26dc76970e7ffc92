-- ===== src/Tunnel/Pipe/Down/Delivery.antt =====
-- The invariant from the user to the target while the node's end, client/tunnel, changes: a message is taken off the
-- websocket, a write to the target succeeds or fails, a session is made or ends.
use titan_tunnel.Prelude.{
  ℕ, ◌+◌, ◌≤◌, List, [], ◌∷◌, ◌++◌, GoString, Bool, true, false, ◌≡◌, refl, ap, ◌∙◌, sym, subst,
  arith, length, take, drop, take-append-drop, Bool-cases, if-elim, inl, inr,
}
use mathlib.Core.List.{append_assoc}
use titan_tunnel.Tunnel.Message.{
  Message, Proto, Sent, whole, cut, Conn, fresh_conn, is_writable, write_conn,
}
use titan_tunnel.Tunnel.Server.{Stage}
use titan_tunnel.Tunnel.Node.{NodeSession}
use titan_tunnel.Tunnel.Pipe.Ledger.{data_of, create_of, pending}
use titan_tunnel.Tunnel.Pipe.Down.{
  one_if, begun-le-one, is_sending, granted, sending-granted, Prefix, Inv,
}

append-eq-nil_right : (xs ys : GoString) → xs ++ ys ≡ [] → ys ≡ []
append-eq-nil_right [] ys h = h
append-eq-nil_right (x ∷ xs) ys h = ground arith

module _ (proto : Proto) {stage : Stage} {taken : GoString} {n : NodeSession} {up : List Message}
    {open_ : Bool} where
  -- The node's end changes without a write to the target.
  pub Inv-node :
      {down : List Message}
      → Inv proto stage taken n down up open_
      → (n' : NodeSession) → n'.conn.given ≡ n.conn.given
      → (n'.stored ≡ true → n.stored ≡ true)
      → (is_writable n'.conn ≡ true → is_writable n.conn ≡ true)
      → n'.started ≡ n.started
      → length n'.creating ≤ length n.creating
      → Inv proto stage taken n' down up open_
  Inv-node {down} inv n' g s w t c = record {
    given = let (r, e) = inv.given in (r, rw g e);
    alive = λ st wr. let (r, e, f) = inv.alive (s st) (w wr) in (r, rw g e, f);
    unstarted = λ h.
        let u = inv.unstarted (sym t ∙ h) in
        record {
          no_data = u.no_data;
          no_bytes = g ∙ u.no_bytes;
          no_grant = u.no_grant;
          not_granted = u.not_granted;
          not_stored = elim (Bool-cases n'.stored) [
            | inl made ↦ let a = s made in let b = u.not_stored in ground arith
            | inr never ↦ never
          ];
        };
    early = inv.early;
    once = omega (arith, inv.once, c, ap one_if t);
  }

  pub Inv-stored :
      {down : List Message}
      → Inv proto stage taken n down up open_
      → n.stored ≡ true
      → n.started ≡ true
  Inv-stored inv s = elim (Bool-cases n.started) [
    | inl made ↦ made
    | inr never ↦ let f = (inv.unstarted never).not_stored in ground arith
  ]

  -- A message to a session that is not there is dropped.
  pub Inv-drop :
      {m : Message} {down : List Message}
      → Inv proto stage taken n (m ∷ down) up open_
      → n.stored ≡ false
      → Inv proto stage taken n down up open_
  Inv-drop {m} {down} inv gone = record {
    given = inv.given;
    alive = λ st w. absurd (ground arith);
    unstarted = λ h.
        let u = inv.unstarted h in
        record {
          no_data = append-eq-nil_right (data_of m.message_type m.payload) _ u.no_data;
          no_bytes = u.no_bytes;
          no_grant = u.no_grant;
          not_granted = u.not_granted;
          not_stored = u.not_stored;
        };
    early = inv.early;
    once = omega (arith, inv.once);
  }

  -- A request starts a goroutine.
  pub Inv-create :
      {m : Message} {down : List Message}
      → Inv proto stage taken n (m ∷ down) up open_
      → data_of m.message_type m.payload ≡ []
      → create_of m.message_type ≡ 1
      → (creating : List GoString) → length creating ≡ length n.creating + 1
      → Inv proto stage taken (record n { creating = creating }) down up open_
  Inv-create {m} {down} inv d c creating l = record {
    given = inv.given;
    alive = λ st w. let (r, e, f) = inv.alive st w in (r, same r e, f);
    unstarted = λ h.
        let u = inv.unstarted h in
        record {
          no_data = append-eq-nil_right (data_of m.message_type m.payload) _ u.no_data;
          no_bytes = u.no_bytes;
          no_grant = u.no_grant;
          not_granted = u.not_granted;
          not_stored = u.not_stored;
        };
    early = inv.early;
    once = omega (arith, inv.once, c, l);
  }
    where
      same :
          (r : GoString)
          → n.conn.given ++ ((data_of m.message_type m.payload ++ pending down) ++ r) ≡ taken
          → n.conn.given ++ (pending down ++ r) ≡ taken
      same r e = subst (λ (x : GoString). n.conn.given ++ ((x ++ pending down) ++ r) ≡ taken) d e

  -- The session is made.
  pub Inv-make :
      {down : List Message}
      → Inv proto stage taken n down up open_
      → (payload : GoString) (rest : List GoString) → n.creating ≡ payload ∷ rest
      → (n' : NodeSession) → n'.started ≡ true
      → n'.creating ≡ rest
      → n'.conn ≡ fresh_conn
      → Inv proto stage taken n' down up open_
  Inv-make {down} inv payload rest c n' st' cr' cn' =
      let fresh : n.started ≡ false = first in
      let u = inv.unstarted fresh in
      let nothing : taken ≡ [] = inv.early (not_sending u.not_granted) in
      let empty : n'.conn.given ≡ [] = ap (λ (c : Conn). c.given) cn' in
      record {
        given = (taken, rw empty refl);
        alive = λ st w. ([], rw (empty, u.no_data, nothing) refl, λ h. refl);
        unstarted = λ h. absurd (ground arith);
        early = inv.early;
        once =
            omega (arith, inv.once, begun-le-one stage, ap length c, ap length cr', ap one_if st');
      }
    where
      first : n.started ≡ false
      first = elim (Bool-cases n.started) [
        | inl made ↦
            absurd (omega (arith, inv.once, begun-le-one stage, ap length c, ap one_if made))
        | inr never ↦ never
      ]

      not_sending : granted proto stage ≡ false → is_sending stage ≡ false
      not_sending h = elim (Bool-cases (is_sending stage)) [
        | inl s ↦ let t = sending-granted proto stage s in ground arith
        | inr s ↦ s
      ]

  -- A write of data to the target.
  pub Inv-give :
      {m : Message} {down : List Message}
      → Inv proto stage taken n (m ∷ down) up open_
      → n.stored ≡ true
      → (sent : Sent)
      → Inv proto stage taken
          (record n { conn = (write_conn sent (data_of m.message_type m.payload) n.conn).1 })
          down
          up
          open_
  Inv-give {m} {down} inv st sent = go sent
    where
      bytes : GoString
      bytes = data_of m.message_type m.payload

      -- the connection is `c` afterwards
      gives :
          (c : Conn)
          → Prefix c.given taken
          → (is_writable c ≡ true
              → (r : GoString) × (c.given ++ (pending down ++ r) ≡ taken) × (open_ ≡ true → r ≡ []))
          → Inv proto stage taken (record n { conn = c }) down up open_
      gives c p a =
          let started = Inv-stored inv st in
          record {
            given = p;
            alive = λ s w. a w;
            unstarted = λ h. absurd (ground arith);
            early = inv.early;
            once = omega (arith, inv.once);
          }

      -- the bytes that follow those of the message
      after_it :
          (r : GoString)
          → n.conn.given ++ ((bytes ++ pending down) ++ r) ≡ taken
          → n.conn.given ++ (bytes ++ (pending down ++ r)) ≡ taken
      after_it r e = ap (n.conn.given ++◌) (sym (append_assoc bytes (pending down) r)) ∙ e

      blocked :
          is_writable n.conn ≡ false
          → Inv proto stage taken (record n { conn = n.conn }) down up open_
      blocked shut = gives n.conn inv.given (λ w. absurd (ground arith))

      go :
          (sent : Sent)
          → Inv proto stage taken
              (record n { conn = (write_conn sent (data_of m.message_type m.payload) n.conn).1 })
              down
              up
              open_
      go whole =
          if-elim
            (λ (x : Bool × Conn). Inv proto stage taken (record n { conn = x.1 }) down up open_)
            (is_writable n.conn) _ _
            (λ w.
              let (r, e, f) = inv.alive st w in
              let all = append_assoc n.conn.given bytes (pending down ++ r) ∙ after_it r e in
              gives (record n.conn { given = n.conn.given ++ bytes }) (pending down ++ r, all)
                (λ w'. (r, all, f)))
            blocked
      go (cut k) =
          if-elim
            (λ (x : Bool × Conn). Inv proto stage taken (record n { conn = x.1 }) down up open_)
            (is_writable n.conn) _ _
            (λ w.
              let (r, e, f) = inv.alive st w in
              gives (record n.conn { given = n.conn.given ++ take k bytes; sound = false })
                (drop k bytes ++ (pending down ++ r), part k r (after_it r e))
                (λ w'. absurd (ground arith)))
            blocked
        where
          part :
              (k : ℕ) (r : GoString)
              → n.conn.given ++ (bytes ++ (pending down ++ r)) ≡ taken
              → (n.conn.given ++ take k bytes) ++ (drop k bytes ++ (pending down ++ r)) ≡ taken
          part k r e =
              append_assoc n.conn.given (take k bytes) _
              ∙ ap (n.conn.given ++◌) (
                  sym (append_assoc (take k bytes) (drop k bytes) _)
                  ∙ ap (λ x. x ++ (pending down ++ r)) (take-append-drop k bytes))
              ∙ e
