-- ===== src/Socks5/Protocol.antt =====
-- The SOCKS5 messages on the TCP connection, ippop/api/socks5/protocol.go.
pub mod ReadBack
use titan_tunnel.Prelude.{
  ℕ, ◌+◌, ◌*◌, ◌/◌, ◌%◌, List, [], ◌∷◌, ◌++◌, Option, none, some, ok, GoString, codes, ◌==◌,
  if◌then◌else◌, length, is_empty, not,
}
use titan_tunnel.Socks5.Net.{Ip, NetLib}
use titan_tunnel.Socks5.Datagram.{ipv4_address, ipv6_address, fqdn_address, byte_at}
use titan_tunnel.Socks5.Wire.{
  Error, M, eof, unsupported_version, unsupported_address_type, not_support_auth_method,
  user_authentication_failed, format_address, bad_address, ◌>>=◌, ◌>>◌, pure, raise, read_full,
  read_byte, write,
}

abbrev pub socks5_version : ℕ
socks5_version = 5

abbrev pub connect_command : ℕ
connect_command = 1

abbrev pub bind_command : ℕ
bind_command = 2

abbrev pub associate_command : ℕ
associate_command = 3

abbrev pub no_auth : ℕ
no_auth = 0

abbrev pub user_pass_auth : ℕ
user_pass_auth = 2

abbrev pub user_auth_version : ℕ
user_auth_version = 1

abbrev pub user_auth_success : ℕ
user_auth_success = 0

abbrev pub user_auth_failure : ℕ
user_auth_failure = 1

abbrev pub no_acceptable : ℕ
no_acceptable = 255

abbrev pub success_reply : ℕ
success_reply = 0

abbrev pub command_not_supported : ℕ
command_not_supported = 7

abbrev pub anonymous_user_name : GoString
anonymous_user_name = codes "anonymous"

unfoldable pub read_auth_methods : M (List ℕ)
read_auth_methods = do num_methods ← read_byte; read_full num_methods

-- the error of this Write is dropped
abbrev ignore_error : M (Unit {0}) → M (Unit {0})
ignore_error m c = (ok tt, (m c).1)

unfoldable pub no_acceptable_auth {ℓ} : {A : Type ℓ} → M A
no_acceptable_auth = do
  ignore_error (write (socks5_version ∷ no_acceptable ∷ []))
  raise not_support_auth_method

unfoldable pub user_pass_auth_failure {ℓ} : {A : Type ℓ} → M A
user_pass_auth_failure = do
  write (user_auth_version ∷ user_auth_failure ∷ [])
  raise user_authentication_failed

unfoldable pub user_pass_auth_success : M (Unit {0})
user_pass_auth_success = write (user_auth_version ∷ user_auth_success ∷ [])

unfoldable pub no_auth_authenticate : M (Unit {0})
no_auth_authenticate = write (socks5_version ∷ no_auth ∷ [])

pub record AddrSpec : Type 0 where
  pub fqdn : GoString
  pub ip : Ip
  pub port : ℕ

pub record Request : Type 0 where
  pub command : ℕ
  pub dest_addr : AddrSpec
  pub src_ip : GoString
  pub user : GoString

-- The end of readAddrSpec, after the switch.
unfoldable pub read_port : GoString → Ip → M AddrSpec
read_port fqdn ip = do
  port ← read_full 2
  pure (record { fqdn = fqdn; ip = ip; port = byte_at port 0 * 256 + byte_at port 1 })

module _ (net : NetLib) where
  -- The switch of replySocks5Client: address type, body and port; none for its default case.
  unfoldable pub format_addr : Option AddrSpec → Option (ℕ × List ℕ × ℕ)
  format_addr none = some (ipv4_address, 0 ∷ 0 ∷ 0 ∷ 0 ∷ [], 0)
  format_addr (some addr) =
      if not (is_empty addr.fqdn)
      then some (fqdn_address, length addr.fqdn % 256 ∷ addr.fqdn, addr.port % 65536)
      else elim (net.to4 addr.ip) [
        | some ip4 ↦ some (ipv4_address, ip4, addr.port % 65536)
        | none ↦ elim (net.to16 addr.ip) [
          | some ip6 ↦ some (ipv6_address, ip6, addr.port % 65536)
          | none ↦ none
        ]
      ]

  unfoldable pub reply_socks5_client : ℕ → Option AddrSpec → M (Unit {0})
  reply_socks5_client resp addr = elim (format_addr addr) [
    | none ↦ raise format_address
    | some (addr_type, body, port) ↦
        write (socks5_version ∷ resp ∷ 0 ∷ addr_type ∷ (body ++ (port / 256 ∷ port % 256 ∷ [])))
  ]

  unfoldable pub read_addr_spec : M AddrSpec
  read_addr_spec = do
    addr_type ← read_byte
    if addr_type == ipv4_address
        then (do addr ← read_full 4; read_port (net.ip_string addr) addr)
        else if addr_type == ipv6_address
        then (do addr ← read_full 16; read_port (net.ip_string addr) addr)
        else if addr_type == fqdn_address
        then (do len ← read_byte; fqdn ← read_full len; read_port fqdn [])
        else raise unsupported_address_type

  -- `remote` is what conn.RemoteAddr().String() returns.
  unfoldable pub new_request : GoString → M Request
  new_request remote = do
    header ← read_full 3
    if byte_at header 0 == socks5_version
        then (do
          dest ← read_addr_spec
          elim (net.split_host_port remote) [
            | none ↦ raise bad_address
            | some (src_ip, _) ↦ pure (record {
              command = byte_at header 1;
              dest_addr = dest;
              src_ip = src_ip;
              user = anonymous_user_name;
            })
          ])
        else raise unsupported_version
