-- ===== src/Tunnel/Pipe/Down.antt =====
-- The invariant from the user to the target: a session's two ends and its messages under way.
pub mod ServerEnd
pub mod Messages
pub mod Moves
pub mod Delivery
pub mod NodeEnd
use titan_tunnel.Prelude.{
  ℕ, zero, suc, ◌+◌, ◌≤◌, List, [], ◌∷◌, ◌++◌, Option, none, some, GoString, Bool, true, false,
  if◌then◌else◌, ◌≡◌, refl, ap, ◌∙◌, sym, subst, arith, length, Bool-cases, ◌⊎◌, inl, inr,
}
use mathlib.Core.List.{append-nil, append_assoc}
use titan_tunnel.Tunnel.Message.{
  MessageType, proxy_session_create, Message, Proto, Conn, is_writable,
}
use titan_tunnel.Tunnel.Server.{
  Stage, idle, asked, listening, answered, created, serving, ended, failed,
}
use titan_tunnel.Tunnel.Node.{NodeSession}
use titan_tunnel.Tunnel.Pipe.Ledger.{
  data_of, create_of, pending, creates, is_success, grants, pending-snoc, creates-snoc,
}

abbrev pub one_if : Bool → ℕ
one_if true = 1
one_if false = 0

abbrev pub begun : Stage → ℕ
begun idle = 0
begun stage = 1

pub begun-le-one : (st : Stage) → begun st ≤ 1
begun-le-one idle = omega arith
begun-le-one st = omega arith

-- The stages in which the user's bytes may have been sent.
abbrev pub is_sending : Stage → Bool
is_sending created = true
is_sending serving = true
is_sending ended = true
is_sending stage = false

-- The first list is the beginning of the second.
abbrev pub Prefix : GoString → GoString → Type 0
Prefix p s = (r : GoString) × (p ++ r ≡ s)

module _ (proto : Proto) where
  -- The stages in which the node has said that the session is made.
  abbrev pub granted : Stage → Bool
  granted (answered payload) = is_success (proto.unmarshal_reply payload)
  granted stage = is_sending stage

  pub sending-granted : (stage : Stage) → is_sending stage ≡ true → granted stage ≡ true
  sending-granted created h = refl
  sending-granted serving h = refl
  sending-granted ended h = refl
  sending-granted idle h = ground arith
  sending-granted asked h = ground arith
  sending-granted listening h = ground arith
  sending-granted (answered p) h = ground arith
  sending-granted (failed e) h = ground arith

  -- Before the node has made the session.
  pub record Unstarted (stage : Stage) (n : NodeSession) (down up : List Message) : Type 0 where
    pub no_data : pending down ≡ []
    pub no_bytes : n.conn.given ≡ []
    pub no_grant : grants proto up ≡ 0
    pub not_granted : granted stage ≡ false
    pub not_stored : n.stored ≡ false

  -- `stage` and `taken` are of the server's end, `n` is the node's, `down` and `up` are the
  -- session's messages under way, `open_` says that the server can still write.
  pub record Inv (stage : Stage) (taken : GoString) (n : NodeSession) (down up : List Message)
      (open_ : Bool) : Type 0 where
    pub given : Prefix n.conn.given taken
    pub alive :
        n.stored ≡ true
        → is_writable n.conn ≡ true
        → (r : GoString) × (n.conn.given ++ (pending down ++ r) ≡ taken) × (open_ ≡ true → r ≡ [])
    pub unstarted : n.started ≡ false → Unstarted stage n down up
    pub early : is_sending stage ≡ false → taken ≡ []
    pub once : creates down + length n.creating + one_if n.started ≤ begun stage
