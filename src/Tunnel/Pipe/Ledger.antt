-- ===== src/Tunnel/Pipe/Ledger.antt =====
-- The messages of one session that are under way on a link, and what `send` adds to them.
use titan_tunnel.Prelude.{
  ℕ, ◌+◌, List, [], ◌∷◌, ◌++◌, Option, none, some, GoString, Bool, true, false, if◌then◌else◌,
  str_eq, str_eq_iff, str_eq_refl, ◌≡◌, refl, ap, ◌∙◌, sym, arith, Bool-cases, Option-cases, inl,
  inr,
}
use mathlib.Core.List.{append-nil, append_assoc}
use titan_tunnel.Tunnel.Message.{
  MessageType, proxy_session_create, proxy_session_data, Message, CreateSessionReply, Proto,
  ProtoLaws, Link, write_message, send,
}

abbrev pub kept : Bool → Message → List Message → List Message
kept true m rest = m ∷ rest
kept false m rest = rest

-- The payload of a message, if it is data.
abbrev pub data_of : MessageType → GoString → GoString
data_of proxy_session_data payload = payload
data_of type payload = []

abbrev pub create_of : MessageType → ℕ
create_of proxy_session_create = 1
create_of type = 0

abbrev pub pending : List Message → GoString
pending [] = []
pending (m ∷ ms) = data_of m.message_type m.payload ++ pending ms

-- The requests for the session.
abbrev pub creates : List Message → ℕ
creates [] = 0
creates (m ∷ ms) = create_of m.message_type + creates ms

abbrev pub is_success : Option CreateSessionReply → Bool
is_success none = false
is_success (some reply) = reply.success

module _ (proto : Proto) where
  abbrev pub grant_of : MessageType → GoString → ℕ
  grant_of proxy_session_create payload =
      if is_success (proto.unmarshal_reply payload) then 1 else 0
  grant_of type payload = 0

  -- The replies that say that the session is made.
  abbrev pub grants : List Message → ℕ
  grants [] = 0
  grants (m ∷ ms) = grant_of m.message_type m.payload + grants ms

  module _ (id : GoString) where
    abbrev pub mine : Option Message → List Message → List Message
    mine none rest = rest
    mine (some m) rest = kept (str_eq m.session_id id) m rest

    -- The messages of the session in a queue.
    abbrev pub view : List GoString → List Message
    view [] = []
    view (bytes ∷ q) = mine (proto.unmarshal bytes) (view q)

pub pending-snoc :
    (ms : List Message) (m : Message)
    → pending (ms ++ (m ∷ [])) ≡ pending ms ++ data_of m.message_type m.payload
pending-snoc [] m = append-nil _
pending-snoc (x ∷ ms) m =
    ap (data_of x.message_type x.payload ++◌) (pending-snoc ms m)
    ∙ sym (append_assoc (data_of x.message_type x.payload) (pending ms) _)

pub creates-snoc :
    (ms : List Message) (m : Message)
    → creates (ms ++ (m ∷ [])) ≡ creates ms + create_of m.message_type
creates-snoc [] m = omega arith
creates-snoc (x ∷ ms) m = omega (arith, creates-snoc ms m)

module _ (proto : Proto) where
  pub grants-snoc :
      (ms : List Message) (m : Message)
      → grants proto (ms ++ (m ∷ [])) ≡ grants proto ms + grant_of proto m.message_type m.payload
  grants-snoc [] m = omega arith
  grants-snoc (x ∷ ms) m = omega (arith, grants-snoc ms m)

  module _ (id : GoString) (bytes : GoString) (rest : List GoString) where
    pub view-cons_none :
        proto.unmarshal bytes ≡ none → view proto id (bytes ∷ rest) ≡ view proto id rest
    view-cons_none e = ap (λ o. mine proto id o (view proto id rest)) e

    pub view-cons_other :
        (m : Message)
        → proto.unmarshal bytes ≡ some m
        → str_eq m.session_id id ≡ false
        → view proto id (bytes ∷ rest) ≡ view proto id rest
    view-cons_other m e other =
        ap (λ o. mine proto id o (view proto id rest)) e
        ∙ ap (λ b. kept b m (view proto id rest)) other

    pub view-cons_own :
        (m : Message)
        → proto.unmarshal bytes ≡ some m
        → m.session_id ≡ id
        → view proto id (bytes ∷ rest)
          ≡ (record { message_type = m.message_type; session_id = id; payload = m.payload })
            ∷ view proto id rest
    view-cons_own m e own =
        ap (λ o. mine proto id o (view proto id rest)) e
        ∙ ap (λ b. kept b m (view proto id rest)) ((str_eq_iff m.session_id id).1 own)
        ∙ ap (λ (s : GoString). with_id s ∷ view proto id rest) own
      where
        with_id : GoString → Message
        with_id s = record m { session_id = s }

  module _ (laws : ProtoLaws proto) (id : GoString) where
    kept-append :
        (b : Bool) (m : Message) (xs ys zs : List Message)
        → xs ≡ ys ++ zs
        → kept b m xs ≡ kept b m ys ++ zs
    kept-append true m xs ys zs h = ap (m ∷◌) h
    kept-append false m xs ys zs h = h

    view-snoc :
        (q : List GoString) (bytes : GoString)
        → view proto id (q ++ (bytes ∷ []))
          ≡ view proto id q ++ mine proto id (proto.unmarshal bytes) []
    view-snoc [] bytes = refl
    view-snoc (x ∷ q) bytes = elim (Option-cases (proto.unmarshal x)) [
      | inl e ↦ rw e (view-snoc q bytes)
      | inr (m, e) ↦ rw e (kept-append (str_eq m.session_id id) m _ _ _ (view-snoc q bytes))
    ]

    -- A message of the session at the end of a queue.
    pub view-snoc_own :
        (q : List GoString) (m : Message) (bytes : GoString)
        → proto.marshal m ≡ some bytes
        → m.session_id ≡ id
        → view proto id (q ++ (bytes ∷ [])) ≡ view proto id q ++ (m ∷ [])
    view-snoc_own q m bytes e own =
        view-snoc q bytes ∙ rw (laws.read_back m bytes e, own, str_eq_refl id) refl

    -- A message of the session is added at the end of what is under way.
    pub view-send :
        (m : Message) (l : Link)
        → m.session_id ≡ id
        → proto.is_utf8 id ≡ true
        → l.writable ≡ true
        → view proto id (send proto m l).1.queue ≡ view proto id l.queue ++ (m ∷ [])
    unfolding send write_message
    view-send m l own valid up =
        let (bytes, e) = laws.writes m (ap proto.is_utf8 own ∙ valid) in
        rw (e, up) (view-snoc_own l.queue m bytes e own)

    -- A message of another session changes nothing.
    pub view-send_other :
        (m : Message) (l : Link)
        → str_eq m.session_id id ≡ false
        → view proto id (send proto m l).1.queue ≡ view proto id l.queue
    unfolding send write_message
    view-send_other m l other = elim (Option-cases (proto.marshal m)) [
      | inl e ↦ rw e refl
      | inr (bytes, e) ↦ elim (Bool-cases l.writable) [
        | inl up ↦
            rw (e, up)
              (view-snoc l.queue bytes ∙ rw (laws.read_back m bytes e, other) (append-nil _))
        | inr broken ↦ rw (e, broken) refl
      ]
    ]

  pub send-broken : (m : Message) (l : Link) → l.writable ≡ false → (send proto m l).1 ≡ l
  unfolding send write_message
  send-broken m l broken = elim (Option-cases (proto.marshal m)) [
    | inl e ↦ rw e refl
    | inr (bytes, e) ↦ rw (e, broken) refl
  ]

  pub send-writable : (m : Message) (l : Link) → (send proto m l).1.writable ≡ l.writable
  unfolding send write_message
  send-writable m l = elim (Option-cases (proto.marshal m)) [
    | inl e ↦ rw e refl
    | inr (bytes, e) ↦ elim (Bool-cases l.writable) [
      | inl up ↦ rw (e, up) refl
      | inr broken ↦ rw (e, broken) refl
    ]
  ]
