-- ===== src/Client/Access.antt =====
-- The choice of a server by a node: getPop and getAccessPoint of client/tunnel/tunnel.go.
use titan_tunnel.Prelude.{
  List, [], ◌∷◌, ◌++◌, Option, none, some, Result, ok, err, GoString, codes, Bool, true, false,
  is_empty, ◌&&◌, if◌then◌else◌, ◌≡◌, refl, ap, ◌∙◌, sym, arith, Option-cases, ◌⊎◌, inl, inr,
}
use mathlib.Core.List.{Memᴰ}
use mathlib.Core.List.Memᴰ
use titan_tunnel.Client.Web.{Pop, Web, http_get}

pub data AccessError : Type 0 where
  no_access_point no_pop_found : AccessError

module _ (web : Web) where
  abbrev decode_points : Option GoString → Option (List GoString)
  decode_points none = none
  decode_points (some bytes) = web.unmarshal_access_points bytes

  -- The access points of the first bootstrap that answers, which may be none.
  abbrev pub get_access_point_of : List GoString → List GoString
  get_access_point_of [] = []
  get_access_point_of (url ∷ urls) =
      let rest = get_access_point_of urls in
      elim (decode_points (http_get web url)) [ none ↦ rest | some points ↦ points ]

  unfoldable pub get_access_point : List GoString → List GoString
  get_access_point bootstraps = get_access_point_of bootstraps

  abbrev decode_pop : Option GoString → Option Pop
  decode_pop none = none
  decode_pop (some bytes) = web.unmarshal_pop bytes

  -- What one access point says of the node `uuid`.
  unfoldable pub ask : GoString → GoString → Option Pop
  ask uuid point = decode_pop (http_get web (point ++ (codes "?nodeid=" ++ uuid)))

  abbrev pub or_next : Option Pop → Result AccessError Pop → Result AccessError Pop
  or_next none rest = rest
  or_next (some pop) rest = ok pop

  abbrev pub first_pop : GoString → List GoString → Result AccessError Pop
  first_pop uuid [] = err no_pop_found
  first_pop uuid (point ∷ points) = or_next (ask uuid point) (first_pop uuid points)

  -- The access points that are asked.
  unfoldable pub access_points : GoString → List GoString → List GoString
  access_points direct_url bootstraps =
      if is_empty direct_url then get_access_point bootstraps else direct_url ∷ []

  unfoldable pub get_pop : GoString → GoString → List GoString → Result AccessError Pop
  get_pop uuid direct_url bootstraps =
      if is_empty direct_url && is_empty (access_points direct_url bootstraps)
      then err no_access_point
      else first_pop uuid (access_points direct_url bootstraps)

  -- The pop is what a point says, and the points before it say nothing that can be used.
  abbrev pub IsFirst : GoString → List GoString → Pop → Type 0
  IsFirst uuid points pop =
      (before : List GoString) × (point : GoString) × (after : List GoString) × (points
        ≡ before ++ (point ∷ after))
      × (ask uuid point ≡ some pop)
      × ((q : GoString) → Memᴰ q before → ask uuid q ≡ none)

  IsFirst-cons :
      (uuid : GoString) (p : GoString) (points : List GoString) (pop : Pop)
      → ask uuid p ≡ none
      → IsFirst uuid points pop
      → IsFirst uuid (p ∷ points) pop
  IsFirst-cons uuid p points pop e (before, point, after, split, says, silent) =
      (p ∷ before, point, after, ap (p ∷◌) split, says, λ q m. passed q (Memᴰ.cases_cons m))
    where
      passed : (q : GoString) → (q ≡ p) ⊎ Memᴰ q before → ask uuid q ≡ none
      passed q (inl same) = ap (ask uuid) same ∙ e
      passed q (inr m) = silent q m

  first_pop-IsFirst :
      (uuid : GoString) (points : List GoString) (pop : Pop)
      → first_pop uuid points ≡ ok pop
      → IsFirst uuid points pop
  first_pop-IsFirst uuid [] pop h = ground arith
  first_pop-IsFirst uuid (point ∷ points) pop h =
      go (ask uuid point) refl h (first_pop-IsFirst uuid points pop)
    where
      go :
          (o : Option Pop)
          → ask uuid point ≡ o
          → or_next o (first_pop uuid points) ≡ ok pop
          → (first_pop uuid points ≡ ok pop → IsFirst uuid points pop)
          → IsFirst uuid (point ∷ points) pop
      go none e h rest = IsFirst-cons uuid point points pop e (rest h)
      go (some pop') e h rest =
          ([], point, points, refl, e ∙ ground arith, λ q m. absurd (Memᴰ.not-nil m))

  -- A node that gets a server gets what the first access point that can be used says: every access
  -- point before it was unreachable, refused, or sent what is no JSON.
  pub get_pop-IsFirst :
      (uuid direct_url : GoString) (bootstraps : List GoString) (pop : Pop)
      → get_pop uuid direct_url bootstraps ≡ ok pop
      → IsFirst uuid (access_points direct_url bootstraps) pop
  unfolding get_pop
  get_pop-IsFirst uuid direct_url bootstraps pop h =
      first_pop-IsFirst uuid (access_points direct_url bootstraps) pop (ground arith)

  first_pop-found :
      (uuid : GoString) (points : List GoString) (point : GoString) (p : Pop)
      → Memᴰ point points
      → ask uuid point ≡ some p
      → (pop : Pop) × (first_pop uuid points ≡ ok pop)
  first_pop-found uuid [] point p m e = absurd (Memᴰ.not-nil m)
  first_pop-found uuid (x ∷ points) point p m e = elim (Option-cases (ask uuid x)) [
    | inl silent ↦ elim (Memᴰ.cases_cons m) [
      | inl same ↦ let says = ap (ask uuid) (sym same) ∙ e in absurd (ground arith)
      | inr m' ↦
          let (pop, h) = first_pop-found uuid points point p m' e in
          (pop, ap (λ o. or_next o (first_pop uuid points)) silent ∙ h)
    ]
    | inr (pop, says) ↦ (pop, ap (λ o. or_next o (first_pop uuid points)) says)
  ]

  -- A node finds a server as soon as one of its access points can be used, whatever the others do.
  pub get_pop-found :
      (uuid direct_url : GoString) (bootstraps : List GoString) (point : GoString) (p : Pop)
      → Memᴰ point (access_points direct_url bootstraps)
      → ask uuid point ≡ some p
      → (pop : Pop) × (get_pop uuid direct_url bootstraps ≡ ok pop)
  unfolding get_pop
  get_pop-found uuid direct_url bootstraps point p m e =
      let (pop, h) = first_pop-found uuid (access_points direct_url bootstraps) point p m e in
      (
        pop,
        rw (some_point (access_points direct_url bootstraps) m) (without (is_empty direct_url) h),
      )
    where
      some_point : (l : List GoString) → Memᴰ point l → is_empty l ≡ false
      some_point [] m = absurd (Memᴰ.not-nil m)
      some_point (x ∷ l) m = refl

      without :
          {r : Result AccessError Pop} {pop : Pop} (b : Bool)
          → r ≡ ok pop
          → (if b && false then err no_access_point else r) ≡ ok pop
      without true h = h
      without false h = h
