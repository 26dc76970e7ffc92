-- ===== src/Prelude/State.antt =====
-- Code that changes a state and may fail: what was written before an error stays written.
use mathlib.Core.Path.{◌≡◌, refl, subst}
use native.Mathlib.Omega.{arith}
use titan_tunnel.Prelude.Results.{Result, ok, err}

abbrev pub St {ℓ} : Type 0 → Type 0 → Type ℓ → Type ℓ
St E S A = S → Result E A × S

module _ {ℓ} {E S : Type 0} {A : Type ℓ} where
  unfoldable pub pure : A → St E S A
  pure a s = (ok a, s)

  unfoldable pub raise : E → St E S A
  raise e s = (err e, s)

  -- A read that does not change the state.
  unfoldable pub reads : (S → Result E A) → St E S A
  reads f s = (f s, s)

  unfoldable pub of_result : Result E A → St E S A
  of_result r s = (r, s)

module _ {ℓ κ} {E S : Type 0} {A : Type ℓ} {B : Type κ} where
  abbrev pub continue : Result E A → (A → St E S B) → St E S B
  continue (ok a) f s = f a s
  continue (err e) f s = (err e, s)

  infixl 10 ◌>>=◌ ◌>>◌
  -- opening this opens `pure`, `raise`, `reads` and `of_result` too
  unfoldable pub ◌>>=◌ : St E S A → (A → St E S B) → St E S B
  unfolding pure raise reads of_result
  ◌>>=◌ m f s = continue (m s).0 f (m s).1

  abbrev pub ◌>>◌ : St E S A → St E S B → St E S B
  m >> n = m >>= λ _. n

  -- A chain that ends without an error has run both parts without one.
  pub bind_ok :
      (m : St E S A) (f : A → St E S B) (s s'' : S) (b : B)
      → (m >>= f) s ≡ (ok b, s'')
      → (a : A) × (s' : S) × (m s ≡ (ok a, s')) × (f a s' ≡ (ok b, s''))
  unfolding ◌>>=◌
  bind_ok m f s s'' b h = go (m s) refl
    where
      go :
          (r : Result E A × S)
          → m s ≡ r
          → (a : A) × (s' : S) × (m s ≡ (ok a, s')) × (f a s' ≡ (ok b, s''))
      go (ok a, s') e = (a, s', e, subst (λ r. continue r.0 f r.1 ≡ (ok b, s'')) e h)
      go (err x, s') e =
          let k : Path (Result E B × S) (err x, s') (ok b, s'') =
            subst (λ (r : Result E A × S). continue r.0 f r.1 ≡ (ok b, s'')) e h in
          ground arith

  -- The same, for a goal that both parts serve.
  pub after {μ} :
      {C : Type μ} (m : St E S A) (f : A → St E S B) (s s'' : S) (b : B)
      → (m >>= f) s ≡ (ok b, s'')
      → ((a : A) (s' : S) → m s ≡ (ok a, s') → f a s' ≡ (ok b, s'') → C)
      → C
  after m f s s'' b h k = let (a, s', e, g) = bind_ok m f s s'' b h in k a s' e g
