-- ===== src/Socks5/Wire/Inversion.antt =====
-- What a successful read or write of ippop/api/socks5 has done to the connection.
use titan_tunnel.Prelude.{
  ◌⊎◌, Bool, true, false, if◌then◌else◌, ap, sym, ℕ, List, ◌∷◌, ◌++◌, Result, ok, err, ◌≡◌, refl,
  arith, length, take-append-drop, length-take, inl, inr,
}
use titan_tunnel.Socks5.Wire.{
  Error, Conn, M, continue, pure, raise, ◌>>=◌, read_full, read_byte, write,
}

-- A successful chain is a successful first step and a successful rest.
pub >>=-ok {ℓ κ} :
    {A : Type ℓ} {B : Type κ} (m : M A) (f : A → M B) (c c' : Conn) (b : B)
    → (m >>= f) c ≡ (ok b, c')
    → (a : A) × (c1 : Conn) × (m c ≡ (ok a, c1)) × (f a c1 ≡ (ok b, c'))
unfolding ◌>>=◌
>>=-ok {A} {B} m f c c' b h = go (m c).0 (m c).1 refl h
  where
    go :
        (r : Result Error A) (c1 : Conn)
        → m c ≡ (r, c1)
        → continue r f c1 ≡ (ok b, c')
        → (a : A) × (c1 : Conn) × (m c ≡ (ok a, c1)) × (f a c1 ≡ (ok b, c'))
    go (ok a) c1 e k = (a, c1, e, k)
    go (err x) c1 e k = absurd (cc k)

pub read_byte-ok : (c c' : Conn) (b : ℕ) → read_byte c ≡ (ok b, c') → c.input ≡ b ∷ c'.input
unfolding read_byte
read_byte-ok c c' b h = ground arith

pub read_full-ok :
    (n : ℕ) (c c' : Conn) (bytes : List ℕ)
    → read_full n c ≡ (ok bytes, c')
    → (length bytes ≡ n) × (c.input ≡ bytes ++ c'.input)
unfolding read_full
read_full-ok n c c' bytes h = ground (arith, length-take n c.input, take-append-drop n c.input)

pub write-ok :
    (bytes : List ℕ) (c c' : Conn) (t : Unit {0}) → write bytes c ≡ (ok t, c') → c.input ≡ c'.input
unfolding write
write-ok bytes c c' t h = ground arith

pub if-ok {ℓ} :
    {A : Type ℓ} (b : Bool) (m n : M A) (c c' : Conn) (a : A)
    → (if b then m else n) c ≡ (ok a, c')
    → ((b ≡ true) × (m c ≡ (ok a, c'))) ⊎ ((b ≡ false) × (n c ≡ (ok a, c')))
if-ok true m n c c' a h = inl (refl, h)
if-ok false m n c c' a h = inr (refl, h)

returned_or {ℓ} : {A : Type ℓ} → A → Result Error A → A
returned_or a (ok b) = b
returned_or a (err x) = a

pub pure-ok {ℓ} : {A : Type ℓ} (a b : A) (c c' : Conn) → pure a c ≡ (ok b, c') → (b ≡ a) × (c ≡ c')
unfolding pure returned_or
pure-ok a b c c' h = (ap (λ r. returned_or a r.0) (sym h), ap (λ r. r.1) h)

-- A chain that ends with an error does not succeed.
pub raise-ok {ℓ κ μ} :
    {A : Type ℓ} {B : Type κ} {P : Type μ} (m : M A) (x : Error) (c c' : Conn) (b : B)
    → (m >>= λ _. raise x) c ≡ (ok b, c')
    → P
unfolding raise
raise-ok m x c c' b h = let (a, c1, e, k) = >>=-ok m (λ _. raise x) c c' b h in absurd (cc k)
