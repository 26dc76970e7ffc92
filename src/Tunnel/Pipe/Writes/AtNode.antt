-- ===== src/Tunnel/Pipe/Writes/AtNode.antt =====
-- The messages that the steps of a session of client/tunnel/tunnel.go write to the link.
use titan_tunnel.Prelude.{
  List, [], ◌∷◌, Option, none, some, GoString, Bool, true, false, ◌&&◌, Result, subst, if-elim,
  Option-cases, inl, inr,
}
use titan_tunnel.Tunnel.Message.{
  MessageType, unknown, command, proxy_session_create, proxy_session_data, proxy_session_close,
  proxy_udp_data, UdpData, Proto, Link, write_message, Sent, whole, cut, TunnelError, send_bytes,
  send,
}
use titan_tunnel.Tunnel.Node.{
  NodeUdp, NodeEnd, Dialed, connected, dial_failed, node_message, wrote, node_send,
  reply_marshalled, create_proxy_session_reply, store_session, dialed_addr, create_next,
  create_proxy_session, on_proxy_session_create, on_node_session_data, on_node_session_close,
  read_target, finish_node, stop_target, write_udp, udp_of, udp_unmarshalled, on_node_udp_data,
  read_udp_of, read_udp, stop_udp, on_tunnel_msg,
}
use titan_tunnel.Tunnel.World.{
  NodeAct, dial, target_sends, target_ends, target_datagram, udp_ends, act_node,
}

abbrev Outcome : Type 0
Outcome = Result TunnelError (Unit {0}) × NodeEnd

module _ (proto : Proto) (id : GoString) (P : Link → Type 0)
    (keeps : (type : MessageType) (payload : GoString) (l : Link)
      → P l
      → P (send proto (node_message proto id type payload) l).1) where
  send-keeps :
      (type : MessageType) (payload : GoString) (e : NodeEnd)
      → P e.link
      → P (node_send proto id type payload e).1.link
  unfolding node_send send
  send-keeps type payload e p =
      elim (Option-cases (proto.marshal (node_message proto id type payload))) [
        | inl a ↦ rw a p
        | inr (bytes, a) ↦
            let sent : P
                (send_bytes proto (proto.marshal (node_message proto id type payload)) e.link).1 =
              keeps type payload e.link p in
            rw a (
              if-elim (λ (x : Outcome). P x.1.link) e.attached _ _
                (λ attached.
                  wrote-keeps (write_message bytes e.link)
                    (subst (λ (o : Option GoString). P (send_bytes proto o e.link).1) a sent))
                (λ detached. p))
      ]
    where
      wrote-keeps : (r : Bool × Link) → P r.1 → P (wrote proto id r e).1.link
      wrote-keeps (true, l) q = q
      wrote-keeps (false, l) q = q

  reply-keeps :
      (answer : Option GoString) (e : NodeEnd)
      → P e.link
      → P (create_proxy_session_reply proto id answer e).1.link
  unfolding create_proxy_session_reply
  reply-keeps answer e p = go answer
    where
      marshalled : (o : Option GoString) → P (reply_marshalled proto id o e).1.link
      marshalled none = p
      marshalled (some payload) = send-keeps proxy_session_create payload e p

      go : (answer : Option GoString) → P (create_proxy_session_reply proto id answer e).1.link
      go none = marshalled _
      go (some text) = marshalled _

  dial-keeps :
      (dialed : Dialed) (e : NodeEnd) → P e.link → P (create_proxy_session proto id dialed e).1.link
  unfolding create_proxy_session
  dial-keeps dialed e p = go e.session.creating
    where
      answers :
          (addr : Option GoString) (payload : GoString) (dialed : Dialed) (e : NodeEnd)
          → P e.link
          → P (dialed_addr proto id addr payload dialed e).1.link
      answers none payload dialed e p = reply-keeps (some _) e p
      answers (some addr) payload (dial_failed text) e p = reply-keeps (some text) e p
      answers (some addr) payload connected e p = reply-keeps none (store_session proto id e) p

      go : (l : List GoString) → P (create_next proto id l dialed e).1.link
      go [] = p
      go (payload ∷ rest) =
          let popped : NodeEnd = record e { session = record e.session { creating = rest } } in
          if-elim (λ (x : Outcome). P x.1.link) e.session.stored _ _
            (λ stored. reply-keeps none popped p) (λ gone. answers _ payload dialed popped p)

  pub node_act-keeps : (act : NodeAct) (e : NodeEnd) → P e.link → P (act_node proto act id e).1.link
  unfolding read_target stop_target read_udp stop_udp
  node_act-keeps (dial dialed) e p = dial-keeps dialed e p
  node_act-keeps (target_sends bytes) e p =
      if-elim (λ (x : Outcome). P x.1.link) (e.session.running && e.session.conn.is_open) _ _
        (λ reads. send-keeps proxy_session_data bytes _ p) (λ over. p)
  node_act-keeps target_ends e p =
      if-elim (λ (x : Outcome). P x.1.link) e.session.running _ _
        (λ runs.
          if-elim (λ (x : Outcome). P (finish_node proto id x).1.link) e.session.is_close_by_server
            _ _ (λ by_server. p) (λ by_target. send-keeps proxy_session_close [] e p))
        (λ over. p)
  node_act-keeps (target_datagram bytes) e p = go e.session.proxy_udp
    where
      go : (u : Option NodeUdp) → P (read_udp_of proto id u bytes e).1.link
      go none = p
      go (some u) = send-keeps proxy_udp_data bytes e p
  node_act-keeps udp_ends e p = p

  -- What comes from the server is not answered by the read loop.
  pub node_message-keeps :
      (dialed : Dialed) (sent : Sent) (type : MessageType) (payload : GoString) (e : NodeEnd)
      → P e.link
      → P (on_tunnel_msg proto id dialed sent type payload e).1.link
  unfolding on_tunnel_msg on_proxy_session_create on_node_session_data on_node_session_close
      on_node_udp_data
  node_message-keeps dialed sent proxy_session_create payload e p = p
  node_message-keeps dialed sent proxy_session_data payload e p =
      if-elim (λ (x : Outcome). P x.1.link) e.session.stored _ _ (λ stored. p) (λ gone. p)
  node_message-keeps dialed sent proxy_session_close payload e p =
      if-elim (λ (x : Outcome). P x.1.link) e.session.stored _ _ (λ stored. p) (λ gone. p)
  node_message-keeps dialed sent proxy_udp_data payload e p =
      unmarshalled (proto.unmarshal_udp_data payload)
    where
      writes :
          (sent : Sent) (bytes : GoString) (u : NodeUdp)
          → P (write_udp proto id sent bytes u e).1.link
      writes whole bytes u = p
      writes (cut k) bytes u = p

      finds :
          (u : Option NodeUdp) (dialed : Dialed) (bytes : GoString)
          → P (udp_of proto id u dialed sent bytes e).1.link
      finds none connected bytes = writes sent bytes _
      finds none (dial_failed text) bytes = p
      finds (some u) dialed bytes = writes sent bytes u

      unmarshalled : (d : Option UdpData) → P (udp_unmarshalled proto id d dialed sent e).1.link
      unmarshalled none = p
      unmarshalled (some d) = finds e.session.proxy_udp dialed d.data_
  node_message-keeps dialed sent unknown payload e p = p
  node_message-keeps dialed sent command payload e p = p
