-- ===== src/Tunnel/Pipe/Down/ServerEnd.antt =====
-- The steps of a session's goroutine at the server, ippop/api/ws, and the invariant from the user to
-- the target.
use titan_tunnel.Prelude.{
  List, [], ◌∷◌, ◌++◌, Option, none, some, GoString, true, false, ◌≡◌, refl, ap, ◌∙◌, subst, arith,
  Bool-cases, if-elim, Option-cases, inl, inr,
}
use mathlib.Core.List.{append-nil}
use titan_tunnel.Socks5.Net.{NetLib}
use titan_tunnel.Socks5.Request.{SocksTargetInfo}
use titan_tunnel.Tunnel.Message.{
  MessageType, proxy_session_create, proxy_session_data, Message, Proto, ProtoLaws, Link,
  write_message, TunnelError, bad_reply, send,
}
use titan_tunnel.Tunnel.Server.{
  Stage, idle, asked, listening, answered, created, serving, ended, failed, Proxy, tcp, udp, End,
  message, opened, requested, accept_idle, accept_socks5_tcp_conn, listen_asked, start_select,
  time_out, on_timeout, send_extra, resume_answered, resume, store_created, store_proxy,
  close_proxy, on_proxy_session_close, read_serving, read_user, finish, stop_serving, stop_user,
}
use titan_tunnel.Tunnel.Node.{NodeSession}
use titan_tunnel.Tunnel.Pipe.Ledger.{
  data_of, create_of, is_success, view, pending-snoc, creates-snoc, view-snoc_own, view-send,
  send-broken, send-writable,
}
use titan_tunnel.Tunnel.Pipe.Down.{is_sending, granted, Inv, begun-le-one}
use titan_tunnel.Tunnel.Pipe.Down.Moves.{Inv-stage, Inv-down, Inv-data, Inv-lost, Inv-request}

module _ (proto : Proto) (laws : ProtoLaws proto) (net : NetLib) (id : GoString)
    (valid : proto.is_utf8 id ≡ true) (n : NodeSession) (up : List Message) where
  -- What holds, with the server's end `e`.
  abbrev pub Holds : End → Type 0
  Holds e =
      Inv proto e.session.stage e.session.taken n (view proto id e.link.queue) up e.link.writable

  abbrev own : MessageType → GoString → Message
  own type payload = message proto net id type payload

  -- The session sends the node a message that is neither data nor a request.
  pub Inv-send :
      (stage : Stage) (taken : GoString) (l : Link) (type : MessageType) (payload : GoString)
      → data_of type payload ≡ []
      → create_of type ≡ 0
      → Inv proto stage taken n (view proto id l.queue) up l.writable
      → Inv proto stage taken n
          (view proto id (send proto (own type payload) l).1.queue)
          up
          (send proto (own type payload) l).1.writable
  Inv-send stage taken l type payload d c inv = elim (Bool-cases l.writable) [
    | inl open_ ↦
        rw
          (
            view-send proto laws id (own type payload) l refl valid open_,
            send-writable proto (own type payload) l,
          )
          (Inv-down proto inv _
            (pending-snoc (view proto id l.queue) (own type payload) ∙ rw d (append-nil _))
            (omega (arith, c, creates-snoc (view proto id l.queue) (own type payload))))
    | inr shut ↦ rw (send-broken proto (own type payload) l shut) inv
  ]

  -- The session sends the node what it has read from the user.
  Inv-send_data :
      (stage : Stage) (taken : GoString) (l : Link) (bytes : GoString)
      → is_sending stage ≡ true
      → Inv proto stage taken n (view proto id l.queue) up l.writable
      → Inv proto stage
          (taken ++ bytes)
          n
          (view proto id (send proto (own proxy_session_data bytes) l).1.queue)
          up
          (send proto (own proxy_session_data bytes) l).1.writable
  Inv-send_data stage taken l bytes s inv = elim (Bool-cases l.writable) [
    | inl open_ ↦
        rw
          (
            view-send proto laws id (own proxy_session_data bytes) l refl valid open_,
            send-writable proto (own proxy_session_data bytes) l,
          )
          (Inv-data proto inv (own proxy_session_data bytes) open_ s refl)
    | inr shut ↦
        rw (send-broken proto (own proxy_session_data bytes) l shut)
          (Inv-lost proto inv bytes shut s)
  ]

  -- The session fails before it has read from the user.
  Inv-fails :
      (e : End) (x : TunnelError)
      → Holds e
      → is_sending e.session.stage ≡ false
      → Inv proto (failed x) e.session.taken n (view proto id e.link.queue) up e.link.writable
  Inv-fails e x inv s =
      Inv-stage proto inv (failed x) (λ h. refl) (λ h. s) (begun-le-one e.session.stage)

  pub start_select-Holds : (e : End) → Holds e → Holds (start_select proto net id e)
  unfolding start_select
  start_select-Holds e inv = go e.session.stage refl
    where
      go : (st : Stage) → e.session.stage ≡ st → Holds (listen_asked proto net id st e)
      go asked eq = Inv-stage proto inv listening (λ h. refl) (λ h. ground arith) (ground arith)
      go st eq = inv

  pub time_out-Holds : (e : End) → Holds e → Holds (on_timeout proto net id e)
  unfolding on_timeout
  time_out-Holds e inv = go e.session.stage refl
    where
      go : (st : Stage) → e.session.stage ≡ st → Holds (time_out proto net id st e)
      go listening eq = Inv-stage proto inv _ (λ h. refl) (λ h. ground arith) (ground arith)
      go st eq = inv

  pub store-Holds : (e : End) → Holds e → Holds (store_proxy proto net id e)
  unfolding store_proxy
  store-Holds e inv = go e.session.stage refl
    where
      go : (st : Stage) → e.session.stage ≡ st → Holds (store_created proto net id st e)
      go created eq = Inv-stage proto inv _ (λ h. ground arith) (λ h. ground arith) (ground arith)
      go st eq = inv

  pub accept-Holds :
      (target : SocksTargetInfo) (e : End)
      → Holds e
      → Holds (accept_socks5_tcp_conn proto net id target e)
  unfolding accept_socks5_tcp_conn write_message
  accept-Holds target e inv = go e.session.stage refl
    where
      fails :
          (x : TunnelError)
          → e.session.stage ≡ idle
          → Inv proto (failed x) e.session.taken n (view proto id e.link.queue) up e.link.writable
      fails x eq = Inv-fails e x inv (ap is_sending eq)

      go :
          (st : Stage)
          → e.session.stage ≡ st
          → Holds (
              accept_idle proto net id st
                (target.domain_name ++ (58 ∷ net.itoa target.port))
                target
                e)
      go idle eq =
          elim (Option-cases
            (proto.marshal_dest_addr (target.domain_name ++ (58 ∷ net.itoa target.port)))) [
              | inl a ↦ rw a (fails _ eq)
              | inr (payload, a) ↦
                  elim (Option-cases (proto.marshal (own proxy_session_create payload))) [
                    | inl b ↦ rw (a, b) (fails _ eq)
                    | inr (bytes, b) ↦
                        rw (a, b)
                          (if-elim
                            (λ r. Holds (requested proto net id r (opened proto net id target e)))
                            e.link.writable _ _
                            (λ open_.
                              rw
                                (view-snoc_own proto laws id e.link.queue
                                  (own proxy_session_create payload) bytes b refl)
                                (Inv-request proto inv (own proxy_session_create payload) eq refl
                                  (omega arith)))
                            (λ shut. fails _ eq))
                  ]
            ]
      go st eq = inv

  -- The reply is good: the session goes on with the extra bytes.
  extra-Holds :
      (e : End) (payload : GoString)
      → Holds e
      → e.session.stage ≡ answered payload
      → is_success (proto.unmarshal_reply payload) ≡ true
      → (extra : GoString)
      → Holds (
          send_extra proto net id extra
            (record e { session = record e.session { waiting = false; stage = created } }))
  extra-Holds e payload inv eq good extra = go extra
    where
      made : Inv proto created e.session.taken n (view proto id e.link.queue) up e.link.writable
      made =
          let g : granted proto e.session.stage ≡ true = ap (granted proto) eq ∙ good in
          Inv-stage proto inv created (λ h. absurd (ground arith)) (λ h. ground arith)
            (begun-le-one e.session.stage)

      go :
          (extra : GoString)
          → Holds (
              send_extra proto net id extra
                (record e { session = record e.session { waiting = false; stage = created } }))
      go [] = made
      go (b ∷ bs) =
          let nothing : e.session.taken ≡ [] = inv.early (ap is_sending eq) in
          Inv-send_data created [] e.link (b ∷ bs) refl (
            subst (λ t. Inv proto created t n (view proto id e.link.queue) up e.link.writable)
              nothing made)

  pub resume-Holds : (e : End) → Holds e → Holds (resume proto net id e)
  unfolding resume
  resume-Holds e inv = go e.session.stage refl
    where
      go : (st : Stage) → e.session.stage ≡ st → Holds (resume_answered proto net id st e)
      go (answered payload) eq = elim (Option-cases (proto.unmarshal_reply payload)) [
        | inl a ↦ rw a (Inv-fails e bad_reply inv (ap is_sending eq))
        | inr (reply, a) ↦ elim (Bool-cases reply.success) [
          | inl good ↦
              rw (a, good)
                (extra-Holds e payload inv eq (ap is_success a ∙ good) e.session.extra_bytes)
          | inr bad ↦ rw (a, bad) (Inv-fails e _ inv (ap is_sending eq))
        ]
      ]
      go st eq = inv

  pub read-Holds : (bytes : GoString) (e : End) → Holds e → Holds (read_user proto net id bytes e)
  unfolding read_user
  read-Holds bytes e inv = go e.session.stage refl
    where
      go : (st : Stage) → e.session.stage ≡ st → Holds (read_serving proto net id st bytes e)
      go serving eq =
          if-elim Holds e.session.conn.is_open _ _
            (λ open_.
              Inv-send_data e.session.stage e.session.taken e.link bytes (ap is_sending eq) inv)
            (λ shut. inv)
      go st eq = inv

  pub stop-Holds : (e : End) → Holds e → Holds (stop_user proto net id e)
  unfolding stop_user on_proxy_session_close
  stop-Holds e inv = go e.session.stage refl
    where
      ends :
          e.session.stage ≡ serving
          → Inv proto ended e.session.taken n (view proto id e.link.queue) up e.link.writable
      ends eq =
          let s : is_sending e.session.stage ≡ true = ap is_sending eq in
          let g : granted proto e.session.stage ≡ true = ap (granted proto) eq in
          Inv-stage proto inv ended (λ h. absurd (ground arith)) (λ h. ground arith)
            (begun-le-one e.session.stage)

      closes :
          (p : Option Proxy)
          → e.session.stage ≡ serving
          → Holds (finish proto net id (close_proxy proto net id p e).1)
      closes none eq = ends eq
      closes (some tcp) eq = ends eq
      closes (some (udp u)) eq = ends eq

      go : (st : Stage) → e.session.stage ≡ st → Holds (stop_serving proto net id st e)
      go serving eq =
          if-elim (λ e'. Holds (finish proto net id e')) e.session.is_close_by_client _ _
            (λ by_client. ends eq) (λ still_open. closes e.session.proxy eq)
      go st eq = inv
