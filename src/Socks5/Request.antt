-- ===== src/Socks5/Request.antt =====
-- A client's TCP connection from its first byte to the call of the tunnel,
-- ippop/api/socks5/socks5.go. The call of the handler, or the UDP association, is the last thing
-- that serveSocks5Conn does: it is the value returned here.
pub mod Guard
pub mod Sent
use titan_tunnel.Prelude.{
  ℕ, List, [], ◌∷◌, ◌++◌, Option, none, some, GoString, codes, ◌==◌, if◌then◌else◌, Bool, true,
  false, ◌||◌,
}
use titan_tunnel.Socks5.Net.{Ip, NetLib}
use titan_tunnel.Socks5.Wire.{
  M, unsupported_version, unsupported_command, unsupport_bind, not_support_ip, resolve_failed,
  ◌>>=◌, ◌>>◌, pure, raise, read_full, read_byte,
}
use titan_tunnel.Socks5.Protocol.{
  Request, socks5_version, connect_command, bind_command, associate_command, success_reply,
  command_not_supported, reply_socks5_client, new_request,
}
use titan_tunnel.Socks5.Auth.{authenticate}

pub record SocksTargetInfo : Type 0 where
  pub domain_name : GoString
  pub port : ℕ
  pub extra_bytes : List ℕ
  pub user_name : GoString

-- What the connection is handed to: Handler.HandleSocks5TCP or handleSocks5Associate.
pub data Action : Type 0 where
  handle_tcp : SocksTargetInfo → Action
  associate : Request → Action

-- What the code asks of the net.Conn and the bufio.Reader beside their bytes.
pub record Peer : Type 0 where
  -- conn.RemoteAddr().String()
  pub remote : GoString
  -- tcpConn.LocalAddr()
  pub local_ip : Ip
  pub local_port : ℕ
  -- bufreader.Buffered(), when the request has been read
  pub buffered : ℕ

module _ (net : NetLib) where
  -- The addresses that a client may not be connected to.
  unfoldable pub is_blocked : Ip → Bool
  is_blocked ip =
      net.is_loopback ip
      || (net.is_private ip || (net.is_multicast ip || net.is_link_local_multicast ip))

  -- fmt.Sprintf("%s:%d", fqdn, port)
  unfoldable pub target_address : GoString → ℕ → GoString
  target_address fqdn port = fqdn ++ (codes ":" ++ net.itoa port)

  -- The bytes that are already buffered are drained.
  unfoldable pub handle_socks5_connect : Peer → Request → M Action
  handle_socks5_connect peer req =
      elim (net.resolve (target_address req.dest_addr.fqdn req.dest_addr.port)) [
        | none ↦ raise resolve_failed
        | some ip ↦ if is_blocked ip then raise not_support_ip else (do
          extra ← read_full peer.buffered
          reply_socks5_client net success_reply
              (some (record { fqdn = []; ip = peer.local_ip; port = peer.local_port }))
          pure (
              handle_tcp (record {
                domain_name = req.dest_addr.fqdn;
                port = req.dest_addr.port;
                extra_bytes = extra;
                user_name = req.user;
              })))
      ]

  unfoldable pub handle_socks5_bind : M Action
  handle_socks5_bind = do reply_socks5_client net command_not_supported none; raise unsupport_bind

  unfoldable pub handle_socks5_request : Peer → Request → M Action
  handle_socks5_request peer r =
      if r.command == connect_command
      then handle_socks5_connect peer r
      else if r.command == bind_command
      then handle_socks5_bind
      else if r.command == associate_command
      then pure (associate r)
      else (do reply_socks5_client net command_not_supported none; raise unsupported_command)

  -- if user != nil { r1.user = string(user) }
  abbrev pub with_user : Option GoString → Request → Request
  with_user none r = r
  with_user (some user) r = record r { user = user }

  -- An error means that the connection is closed.
  unfoldable pub serve_socks5_conn : (GoString → GoString → Bool) → Bool → Peer → M Action
  serve_socks5_conn accepts enable_auth peer = do
    version ← read_byte
    if version == socks5_version
        then (do
          user ← authenticate accepts enable_auth
          r1 ← new_request net peer.remote
          handle_socks5_request peer (with_user user r1))
        else raise unsupported_version
