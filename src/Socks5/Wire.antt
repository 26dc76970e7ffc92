-- ===== src/Socks5/Wire.antt =====
-- A client's TCP connection as the code of ippop/api/socks5 uses it: the bytes still to be read
-- up to the end of the stream, the bytes written so far, and what the next writes return.
pub mod Laws
pub mod Inversion
use titan_tunnel.Prelude.{
  ℕ, List, [], ◌∷◌, ◌++◌, Bool, true, false, Result, ok, err, leb, length, take, drop,
  if◌then◌else◌,
}

pub data Error : Type 0 where
  eof write_failed : Error
  unsupported_version unsupported_auth_version unsupported_address_type : Error
  not_support_auth_method user_authentication_failed format_address bad_address : Error
  unsupported_command unsupport_bind not_support_ip resolve_failed parse_ip_failed : Error
  bad_request no_available_port not_associate handler_failed : Error

pub record Conn : Type 0 where
  pub input : List ℕ
  pub output : List ℕ
  -- the result of each Write to come, `true` for a nil error; past the end of the list it is nil
  pub writes : List Bool

abbrev pub M {ℓ} : Type ℓ → Type ℓ
M A = Conn → Result Error A × Conn

abbrev pub continue {ℓ κ} : {A : Type ℓ} {B : Type κ} → Result Error A → (A → M B) → M B
continue (ok a) f c = f a c
continue (err e) f c = (err e, c)

unfoldable pub pure {ℓ} : {A : Type ℓ} → A → M A
pure a c = (ok a, c)

unfoldable pub raise {ℓ} : {A : Type ℓ} → Error → M A
raise e c = (err e, c)

infixl 10 ◌>>=◌ ◌>>◌
-- opening this opens `pure` and `raise` too
unfoldable pub ◌>>=◌ {ℓ κ} : {A : Type ℓ} {B : Type κ} → M A → (A → M B) → M B
unfolding pure raise
◌>>=◌ m f c = continue (m c).0 f (m c).1

abbrev pub ◌>>◌ {ℓ κ} : {A : Type ℓ} {B : Type κ} → M A → M B → M B
m >> n = m >>= λ _. n

-- io.ReadAtLeast with a buffer of exactly n bytes.
unfoldable pub read_full : ℕ → M (List ℕ)
read_full n c =
    if leb n (length c.input)
    then (ok (take n c.input), record c { input = drop n c.input })
    else (err eof, record c { input = [] })

-- Read into a buffer of one byte.
abbrev first_byte : List ℕ → M ℕ
first_byte [] c = (err eof, c)
first_byte (b ∷ rest) c = (ok b, record c { input = rest })

unfoldable pub read_byte : M ℕ
read_byte c = first_byte c.input c

abbrev write_result : List Bool → List ℕ → M (Unit {0})
write_result [] bytes c = (ok tt, record c { output = c.output ++ bytes })
write_result (true ∷ rest) bytes c = (ok tt, record c { output = c.output ++ bytes; writes = rest })
write_result (false ∷ rest) bytes c = (err write_failed, record c { writes = rest })

-- conn.Write; a write that fails is taken to have sent nothing.
unfoldable pub write : List ℕ → M (Unit {0})
write bytes c = write_result c.writes bytes c
