-- ===== src/Socks5/Wire/Laws.antt =====
-- Reading what a stream begins with, and inversion of a successful chain of reads and writes.
use titan_tunnel.Prelude.{
  Bool, true, false, if◌then◌else◌, ap, subst, ℕ, List, ◌∷◌, ◌++◌, Result, ok, err, ◌≡◌, refl,
  arith, length, length-append, take-append, drop-append,
}
use titan_tunnel.Socks5.Wire.{Error, Conn, M, continue, pure, raise, ◌>>=◌, read_full, read_byte}

-- A read of as many bytes as a list has, from a stream that begins with it.
pub read_full-append :
    (xs ys : List ℕ) (c : Conn)
    → c.input ≡ xs ++ ys
    → read_full (length xs) c ≡ (ok xs, record c { input = ys })
unfolding read_full
read_full-append xs ys c e =
    rw e (ground (arith, length-append xs ys, take-append xs ys, drop-append xs ys))

pub read_byte-cons :
    (b : ℕ) (rest : List ℕ) (c : Conn)
    → c.input ≡ b ∷ rest
    → read_byte c ≡ (ok b, record c { input = rest })
unfolding read_byte
read_byte-cons b rest c e = ground arith

-- Whatever a successful run of `m` returns satisfies `P`.
pub record Yields {ℓ κ} {A : Type ℓ} (P : A → Type κ) (m : M A) : Type (ℓ ⊔ κ) where
  pub at : (c c' : Conn) (a : A) → m c ≡ (ok a, c') → P a

returned_or {ℓ} : {A : Type ℓ} → A → Result Error A → A
returned_or a (ok b) = b
returned_or a (err x) = a

returned {ℓ} :
    {A : Type ℓ} (a : A) {b : A} {c c' : Conn}
    → ◌≡◌ {A = Result Error A × Conn} (ok a, c) (ok b, c')
    → a ≡ b
unfolding returned_or
returned a e = ap (λ r. returned_or a r.0) e

module _ {ℓ κ} {A : Type ℓ} {P : A → Type κ} where
  pub Yields-pure : (a : A) → P a → Yields P (pure a)
  unfolding pure
  Yields-pure a h = record { at = λ c c' b e. subst P (returned a e) h }

  pub Yields-raise : (x : Error) → Yields P (raise x)
  unfolding raise
  Yields-raise x = record { at = λ c c' a e. absurd (cc e) }

  pub Yields-if :
      (b : Bool) (m n : M A)
      → (b ≡ true → Yields P m)
      → (b ≡ false → Yields P n)
      → Yields P (if b then m else n)
  Yields-if true m n km kn = km refl
  Yields-if false m n km kn = kn refl

module _ {ℓ κ μ} {A : Type ℓ} {B : Type κ} {P : B → Type μ} where
  Yields-continue :
      (r : Result Error A) (f : A → M B) (c c' : Conn) (b : B)
      → ((a : A) → Yields P (f a))
      → continue r f c ≡ (ok b, c')
      → P b
  Yields-continue (ok a) f c c' b k e = (k a).at c c' b e
  Yields-continue (err x) f c c' b k e = absurd (cc e)

  pub Yields-bind : (m : M A) (f : A → M B) → ((a : A) → Yields P (f a)) → Yields P (m >>= f)
  unfolding ◌>>=◌
  Yields-bind m f k = record { at = λ c c' b e. Yields-continue (m c).0 f (m c).1 c' b k e }

module _ {ℓ κ μ ν} {A : Type ℓ} {B : Type κ} {Q : A → Type ν} {P : B → Type μ} where
  -- The rest of a chain may use what its first step yields.
  pub Yields-then :
      (m : M A) (f : A → M B) → Yields Q m → ((a : A) → Q a → Yields P (f a)) → Yields P (m >>= f)
  unfolding ◌>>=◌
  Yields-then m f q k = record { at = λ c c' b e. go (m c).0 (m c).1 refl c' b e }
    where
      go :
          {c : Conn} (r : Result Error A) (c1 : Conn)
          → m c ≡ (r, c1)
          → (c' : Conn) (b : B) → continue r f c1 ≡ (ok b, c')
          → P b
      go {c} (ok a) c1 e c' b h = (k a (q.at c c1 a e)).at c1 c' b h
      go (err x) c1 e c' b h = absurd (cc h)

pub ruleset yields_rules = (Yields-pure, Yields-raise, Yields-if, Yields-bind)
