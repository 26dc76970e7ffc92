-- ===== src/Tunnel/Calm.antt =====
-- Which goroutines of client/tunnel can panic: the writes after Serve has set t.conn to nil.
use titan_tunnel.Prelude.{
  List, [], ◌∷◌, Option, none, some, GoString, Bool, true, false, ◌&&◌, Result, ◌≡◌, refl,
  Option-cases, if-elim, inl, inr,
}
use titan_tunnel.Socks5.Net.{NetLib}
use titan_tunnel.Tunnel.Message.{
  MessageType, proxy_session_create, proxy_session_data, proxy_session_close, proxy_udp_data,
  Message, Proto, Link, write_message, TunnelError,
}
use titan_tunnel.Tunnel.Node.{
  NodeUdp, NodeEnd, Dialed, connected, dial_failed, wrote, node_send, reply_marshalled,
  create_proxy_session_reply, store_session, dialed_addr, create_next, create_proxy_session,
  node_message, read_target, finish_node, stop_target, read_udp_of, read_udp, stop_udp,
}
use titan_tunnel.Tunnel.World.{
  NodeAct, dial, target_sends, target_ends, target_datagram, udp_ends, act_node, is_panic, World,
}

abbrev Outcome : Type 0
Outcome = Result TunnelError (Unit {0}) × NodeEnd

module _ (proto : Proto) (id : GoString) where
  send-calm :
      (type : MessageType) (payload : GoString) (e : NodeEnd)
      → e.attached ≡ true
      → is_panic (node_send proto id type payload e).0 ≡ false
  unfolding node_send
  send-calm type payload e a =
      elim (Option-cases (proto.marshal (node_message proto id type payload))) [
        | inl m ↦ rw m refl
        | inr (bytes, m) ↦ rw (m, a) (written (write_message bytes e.link) _)
      ]
    where
      written : (r : Bool × Link) (e : NodeEnd) → is_panic (wrote proto id r e).0 ≡ false
      written (true, l) e = refl
      written (false, l) e = refl

  reply-calm :
      (answer : Option GoString) (e : NodeEnd)
      → e.attached ≡ true
      → is_panic (create_proxy_session_reply proto id answer e).0 ≡ false
  unfolding create_proxy_session_reply
  reply-calm answer e a = go answer
    where
      marshalled : (o : Option GoString) → is_panic (reply_marshalled proto id o e).0 ≡ false
      marshalled none = refl
      marshalled (some payload) = send-calm proxy_session_create payload e a

      go :
          (answer : Option GoString)
          → is_panic (create_proxy_session_reply proto id answer e).0 ≡ false
      go none = marshalled _
      go (some text) = marshalled _

  -- While Serve has not returned, no goroutine of a session at the node panics, whatever it does.
  pub act_node-calm :
      (act : NodeAct) (e : NodeEnd)
      → e.attached ≡ true
      → is_panic (act_node proto act id e).0 ≡ false
  unfolding create_proxy_session read_target stop_target read_udp stop_udp
  act_node-calm (dial dialed) e a = go e.session.creating
    where
      answers :
          (addr : Option GoString) (payload : GoString) (dialed : Dialed) (e : NodeEnd)
          → e.attached ≡ true
          → is_panic (dialed_addr proto id addr payload dialed e).0 ≡ false
      answers none payload dialed e a = reply-calm (some _) e a
      answers (some addr) payload (dial_failed text) e a = reply-calm (some text) e a
      answers (some addr) payload connected e a = reply-calm none (store_session proto id e) a

      go : (l : List GoString) → is_panic (create_next proto id l dialed e).0 ≡ false
      go [] = refl
      go (payload ∷ rest) =
          let popped : NodeEnd = record e { session = record e.session { creating = rest } } in
          if-elim (λ (x : Outcome). is_panic x.0 ≡ false) e.session.stored _ _
            (λ stored. reply-calm none popped a) (λ gone. answers _ payload dialed popped a)
  act_node-calm (target_sends bytes) e a =
      if-elim (λ (x : Outcome). is_panic x.0 ≡ false) (e.session.running && e.session.conn.is_open)
        _ _ (λ reads. send-calm proxy_session_data bytes _ a) (λ over. refl)
  act_node-calm target_ends e a =
      if-elim (λ (x : Outcome). is_panic x.0 ≡ false) e.session.running _ _
        (λ runs.
          if-elim (λ (x : Outcome). is_panic (finish_node proto id x).0 ≡ false)
            e.session.is_close_by_server _ _ (λ by_server. refl)
            (λ by_target. send-calm proxy_session_close [] e a))
        (λ over. refl)
  act_node-calm (target_datagram bytes) e a = go e.session.proxy_udp
    where
      go : (u : Option NodeUdp) → is_panic (read_udp_of proto id u bytes e).0 ≡ false
      go none = refl
      go (some u) = send-calm proxy_udp_data bytes e a
  act_node-calm udp_ends e a = refl

module _ (proto : Proto) (net : NetLib) where
  abbrev IsCalm : World → Type 0
  IsCalm w = w.attached ≡ true → w.node_crashed ≡ false
