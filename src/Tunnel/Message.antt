-- ===== src/Tunnel/Message.antt =====
-- What crosses a tunnel: the messages of ippop/api/ws/pb, with protobuf as a parameter; a websocket
-- and a TCP connection as its two ends see them.
use titan_tunnel.Prelude.{
  ℕ, List, [], ◌∷◌, ◌++◌, Option, none, some, GoString, Bool, true, false, ◌&&◌, if◌then◌else◌, ◌≡◌,
  take,
}

pub data MessageType : Type 0 where
  unknown command proxy_session_create proxy_session_data proxy_session_close : MessageType
  proxy_udp_data : MessageType

pub record Message : Type 0 where
  pub message_type : MessageType
  pub session_id : GoString
  pub payload : GoString

pub record CreateSessionReply : Type 0 where
  pub success : Bool
  pub err_msg : GoString

pub record UdpData : Type 0 where
  pub addr : GoString
  pub data_ : GoString

-- proto.Marshal and proto.Unmarshal of the messages; `none` is an error.
pub record Proto : Type 0 where
  pub marshal : Message → Option GoString
  pub unmarshal : GoString → Option Message
  pub marshal_dest_addr : GoString → Option GoString
  pub unmarshal_dest_addr : GoString → Option GoString
  pub marshal_reply : CreateSessionReply → Option GoString
  pub unmarshal_reply : GoString → Option CreateSessionReply
  pub marshal_udp_data : UdpData → Option GoString
  pub unmarshal_udp_data : GoString → Option UdpData
  -- the text of the error of Unmarshal
  pub error_text : GoString → GoString
  -- utf8.ValidString
  pub is_utf8 : GoString → Bool

-- What protobuf documents: a message is read back as it was written, and only a string field that
-- is not UTF-8 cannot be written.
pub record ProtoLaws (proto : Proto) : Type 0 where
  pub read_back :
      (m : Message) (bytes : GoString)
      → proto.marshal m ≡ some bytes
      → proto.unmarshal bytes ≡ some m
  pub reply_read_back :
      (reply : CreateSessionReply) (bytes : GoString)
      → proto.marshal_reply reply ≡ some bytes
      → proto.unmarshal_reply bytes ≡ some reply
  pub writes :
      (m : Message)
      → proto.is_utf8 m.session_id ≡ true
      → (bytes : GoString) × (proto.marshal m ≡ some bytes)

-- One direction of a websocket: what is written and not yet read, whether writing still works (a
-- failed write is final), and whether the other end still reads.
pub record Link : Type 0 where
  pub queue : List GoString
  pub writable : Bool
  pub readable : Bool

-- conn.WriteMessage: true is a nil error
unfoldable pub write_message : GoString → Link → Bool × Link
write_message bytes l =
    if l.writable then (true, record l { queue = l.queue ++ (bytes ∷ []) }) else (false, l)

-- What the network does with a write to a TCP connection: all of it, or an error after some bytes.
pub data Sent : Type 0 where
  whole : Sent
  cut : ℕ → Sent

-- A net.Conn: whether it is open, whether its writes still work (an error is final, no deadline is
-- set), and what has been written to it.
pub record Conn : Type 0 where
  pub is_open : Bool
  pub sound : Bool
  pub given : GoString

abbrev pub fresh_conn : Conn
fresh_conn = record { is_open = true; sound = true; given = [] }

abbrev pub close_conn : Conn → Conn
close_conn c = record c { is_open = false }

abbrev pub is_writable : Conn → Bool
is_writable c = c.is_open && c.sound

-- conn.Write: true is a nil error
abbrev pub write_conn : Sent → GoString → Conn → Bool × Conn
write_conn whole bytes c =
    if is_writable c then (true, record c { given = c.given ++ bytes }) else (false, c)
write_conn (cut k) bytes c =
    if is_writable c
    then (false, record c { given = c.given ++ take k bytes; sound = false })
    else (false, c)

-- Why an operation of a tunnel fails. `panicked` is a panic of its goroutine: at the node it ends the
-- program; at the server net/http or socks5 recovers it.
pub data TunnelError : Type 0 where
  bad_message marshal_failed write_failed timed_out bad_reply session_not_found : TunnelError
  bad_address : TunnelError
  refused : GoString → TunnelError
  panicked : TunnelError

module _ (proto : Proto) where
  abbrev pub send_bytes : Option GoString → Link → Bool × Link
  send_bytes none l = (false, l)
  send_bytes (some bytes) l = write_message bytes l

  -- proto.Marshal(msg), then t.write(buf)
  unfoldable pub send : Message → Link → Bool × Link
  send m l = send_bytes (proto.marshal m) l
