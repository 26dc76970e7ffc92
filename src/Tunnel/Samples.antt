-- ===== src/Tunnel/Samples.antt =====
-- A small encoding in the place of protobuf, and a schedule of a session, for the examples.
use titan_tunnel.Prelude.{
  ℕ, List, [], ◌∷◌, ◌++◌, Option, none, some, GoString, codes, Bool, true, false, if◌then◌else◌,
  ◌==◌, ◌≡◌, refl, ap, subst, length, take, drop, take-append, drop-append,
}
use titan_tunnel.Socks5.Request.{SocksTargetInfo}
use titan_tunnel.Tunnel.Message.{
  MessageType, unknown, command, proxy_session_create, proxy_session_data, proxy_session_close,
  proxy_udp_data, Message, CreateSessionReply, UdpData, Proto, ProtoLaws, whole,
}
use titan_tunnel.Prelude.Maps.{empty}
use titan_tunnel.Tunnel.Server.{End, new_session, serving, tcp}
use titan_tunnel.Tunnel.Node.{NodeEnd, new_node_session, connected}
use titan_tunnel.Tunnel.World.{
  accept, enter_select, wake, store, user_sends, dial, target_sends, Event, at_server, at_node,
  server_reads, node_reads, new_link,
}

abbrev type_code : MessageType → ℕ
type_code unknown = 0
type_code command = 1
type_code proxy_session_create = 2
type_code proxy_session_data = 3
type_code proxy_session_close = 4
type_code proxy_udp_data = 5

abbrev type_of : ℕ → MessageType
type_of n =
    if n == 1
    then command
    else if n == 2
    then proxy_session_create
    else if n == 3
    then proxy_session_data
    else if n == 4
    then proxy_session_close
    else if n == 5
    then proxy_udp_data
    else unknown

abbrev read_message : GoString → Option Message
read_message [] = none
read_message (t ∷ []) = none
read_message (t ∷ n ∷ bytes) =
    some (record { message_type = type_of t; session_id = take n bytes; payload = drop n bytes })

abbrev read_reply : GoString → Option CreateSessionReply
read_reply [] = none
read_reply (s ∷ text) = some (record { success = s == 1; err_msg = text })

abbrev read_udp_data : GoString → Option UdpData
read_udp_data [] = none
read_udp_data (n ∷ bytes) = some (record { addr = take n bytes; data_ = drop n bytes })

abbrev pub proto : Proto
proto = record {
  marshal =
      λ m. some (type_code m.message_type ∷ length m.session_id ∷ (m.session_id ++ m.payload));
  unmarshal = read_message;
  marshal_dest_addr = λ addr. some addr;
  unmarshal_dest_addr = λ bytes. some bytes;
  marshal_reply = λ reply. some ((if reply.success then 1 else 0) ∷ reply.err_msg);
  unmarshal_reply = read_reply;
  marshal_udp_data = λ d. some (length d.addr ∷ (d.addr ++ d.data_));
  unmarshal_udp_data = read_udp_data;
  error_text = λ bytes. codes "proto: cannot parse";
  is_utf8 = λ bytes. true;
}

type_of-type_code : (t : MessageType) → type_of (type_code t) ≡ t
type_of-type_code unknown = refl
type_of-type_code command = refl
type_of-type_code proxy_session_create = refl
type_of-type_code proxy_session_data = refl
type_of-type_code proxy_session_close = refl
type_of-type_code proxy_udp_data = refl

read_message-encoded :
    (m : Message)
    → read_message (type_code m.message_type ∷ length m.session_id ∷ (m.session_id ++ m.payload))
      ≡ some m
read_message-encoded m =
    rw
      (
        type_of-type_code m.message_type,
        take-append m.session_id m.payload,
        drop-append m.session_id m.payload,
      )
      refl

read_reply-encoded :
    (reply : CreateSessionReply)
    → read_reply ((if reply.success then 1 else 0) ∷ reply.err_msg) ≡ some reply
read_reply-encoded reply =
    ap (λ b. some (record { success = b; err_msg = reply.err_msg })) (bit reply.success)
  where
    bit : (b : Bool) → ((if b then 1 else 0) == 1) ≡ b
    bit true = refl
    bit false = refl

abbrev or_bytes : GoString → Option GoString → GoString
or_bytes d none = d
or_bytes d (some bytes) = bytes

pub proto_laws : ProtoLaws proto
proto_laws = record {
  read_back = λ m bytes h.
      subst (λ b. read_message b ≡ some m) (ap (or_bytes []) h) (read_message-encoded m);
  reply_read_back = λ reply bytes h.
      subst (λ b. read_reply b ≡ some reply) (ap (or_bytes []) h) (read_reply-encoded reply);
  writes = λ m valid. (_, refl);
}

abbrev pub session : GoString
session = codes "s"

abbrev pub target : SocksTargetInfo
target = record {
  domain_name = codes "example.org";
  port = 80;
  extra_bytes = codes "GET";
  user_name = codes "user";
}

-- A session is made; the extra bytes and two more are on their way to the node.
abbrev pub opening : List Event
opening =
    at_server session (accept target)
    ∷ at_server session enter_select
    ∷ node_reads connected whole
    ∷ at_node session (dial connected)
    ∷ server_reads whole
    ∷ at_server session wake
    ∷ at_server session store
    ∷ at_server session (user_sends (codes " /"))
    ∷ []

-- The target speaks first, and its bytes are read before the proxy is stored.
abbrev pub speaking_first : List Event
speaking_first =
    at_server session (accept (record target { extra_bytes = [] }))
    ∷ at_server session enter_select
    ∷ node_reads connected whole
    ∷ at_node session (dial connected)
    ∷ at_node session (target_sends (codes "220"))
    ∷ server_reads whole
    ∷ server_reads whole
    ∷ at_server session wake
    ∷ at_server session store
    ∷ at_node session (target_sends (codes "ok"))
    ∷ server_reads whole
    ∷ []

-- The server's end of a session that serves.
abbrev pub serving_end : End
serving_end = record {
  session = record new_session { stage = serving; proxy = some tcp };
  link = new_link;
  users = empty;
}

-- The node's end of a session that reads, after Serve has returned.
abbrev pub detached_end : NodeEnd
detached_end = record {
  session = record new_node_session { stored = true; running = true; started = true };
  link = new_link;
  attached = false;
}
