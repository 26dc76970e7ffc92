-- ===== src/Prelude/Maps.antt =====
-- A Go map or sync.Map with string keys. The representation is private: clients have `map_laws`.
use mathlib.Core.Path.{◌≡◌, refl}
use mathlib.Core.Option.{Option, none, some}
use mathlib.Core.Bool.{Bool, true, false}
use mathlib.Core.List.{List, [], ◌∷◌, foldr}
use native.Mathlib.Omega.{arith}
use titan_tunnel.Prelude.Tests.{if◌then◌else◌}
use titan_tunnel.Prelude.Lists.{GoString, str_eq, str_eq_iff}

pub record GoMap {ℓ} (V : Type ℓ) : Type ℓ where
  entries : List (GoString × V)

module _ {ℓ} {V : Type ℓ} where
  find : GoString → List (GoString × V) → Option V
  find k [] = none
  find k ((j, v) ∷ l) = if str_eq j k then some v else find k l

  without : GoString → List (GoString × V) → List (GoString × V)
  without k [] = []
  without k ((j, v) ∷ l) = let rest = without k l in if str_eq j k then rest else (j, v) ∷ rest

  unfoldable pub empty : GoMap V
  empty = record { entries = [] }

  -- v, ok := m[k]
  unfoldable pub get : GoMap V → GoString → Option V
  unfolding find
  get m k = find k m.entries

  -- m[k] = v
  unfoldable pub put : GoMap V → GoString → V → GoMap V
  unfolding without
  put m k v = record { entries = (k, v) ∷ without k m.entries }

  -- delete(m, k)
  unfoldable pub delete : GoMap V → GoString → GoMap V
  unfolding without
  delete m k = record { entries = without k m.entries }

  -- the entries, in the order in which a range meets them here; the source fixes no order
  unfoldable pub to_list : GoMap V → List (GoString × V)
  to_list m = m.entries

  find-without :
      (k j : GoString) (l : List (GoString × V))
      → find j (without k l) ≡ (if str_eq k j then none else find j l)
  unfolding find without
  find-without k j [] = ground arith
  find-without k j ((i, v) ∷ l) =
      ground (arith, find-without k j l, str_eq_iff i k, str_eq_iff i j, str_eq_iff k j)

  pub get-delete :
      (m : GoMap V) (k j : GoString) → get (delete m k) j ≡ (if str_eq k j then none else get m j)
  unfolding get delete
  get-delete m k j = find-without k j m.entries

  pub get-put :
      (m : GoMap V) (k j : GoString) (v : V)
      → get (put m k v) j ≡ (if str_eq k j then some v else get m j)
  unfolding get put find
  get-put m k j v = ground (arith, find-without k j m.entries)

module _ {ℓ} {V : Type ℓ} where
  -- The first map over the second.
  unfoldable pub merge : GoMap V → GoMap V → GoMap V
  merge m old = foldr (λ (k, v) acc. put acc k v) old (to_list m)

  abbrev pub or_else : Option V → Option V → Option V
  or_else none d = d
  or_else (some v) d = some v

  find-merge :
      (l : List (GoString × V)) (old : GoMap V) (j : GoString)
      → get (foldr (λ (k, v) acc. put acc k v) old l) j ≡ or_else (find j l) (get old j)
  unfolding find
  find-merge [] old j = refl
  find-merge ((k, v) ∷ l) old j = rw get-put (ground (arith, find-merge l old j))

  pub get-merge :
      (m old : GoMap V) (j : GoString) → get (merge m old) j ≡ or_else (get m j) (get old j)
  unfolding merge get to_list
  get-merge m old j = find-merge m.entries old j

  -- len(m) == 0
  abbrev is_nil : List (GoString × V) → Bool
  is_nil [] = true
  is_nil (x ∷ l) = false

  unfoldable pub is_empty_map : GoMap V → Bool
  is_empty_map m = is_nil m.entries

  pub is_empty_map-get :
      (m : GoMap V) (k : GoString) (v : V) → get m k ≡ some v → is_empty_map m ≡ false
  unfolding get find is_empty_map
  is_empty_map-get m k v h = ground arith

  pub get-is_empty_map : (m : GoMap V) (k : GoString) → is_empty_map m ≡ true → get m k ≡ none
  unfolding get find is_empty_map
  get-is_empty_map m k h = ground arith

pub get-empty {ℓ} : {V : Type ℓ} (k : GoString) → get (empty {V = V}) k ≡ none
unfolding get empty find
get-empty k = refl

pub ruleset map_laws = (get-empty, get-delete, get-put)
