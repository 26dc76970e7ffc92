-- ===== src/Manager/Pops/Room.antt =====
-- The loops over the servers and their room, manager/internal/logic/getnodepoplogic.go.
use titan_tunnel.Prelude.{
  ℕ, ◌≤◌, ◌<◌, ◌^◌, List, [], ◌∷◌, none, some, GoString, codes, Bool, true, false, ◌&&◌, str_eq,
  str_eq_iff, ◌≡◌, refl, sym, ap, ◌∙◌, arith, ◌⊎◌, inl, inr, Bool-cases, Option-cases,
  if◌then◌else◌,
}
use mathlib.Core.List.{Memᴰ}
use mathlib.Core.List.Memᴰ
use titan_tunnel.Rpc.Checks.{less}
use titan_tunnel.Manager.Store.{Redis, RedisLaws, redis_key_pop_nodes, node_count_of_pop}
use titan_tunnel.Manager.Pops.{
  Pop, Config, Location, Outside, first_with, country_of, has_room, is_free_in,
}

pub first_with-some :
    (p : Pop → Bool) (pops : List Pop) (pop : Pop)
    → first_with p pops ≡ some pop
    → Memᴰ pop pops × (p pop ≡ true)
first_with-some p [] pop h = ground arith
first_with-some p (x ∷ pops) pop h = elim (Bool-cases (p x)) [
  | inl yes' ↦ let e : pop ≡ x = ground arith in (Memᴰ.head e, ap p e ∙ yes')
  | inr no' ↦ let (m, t) = first_with-some p pops pop (ground arith) in (Memᴰ.tail m, t)
]

pub first_with-none :
    (p : Pop → Bool) (pops : List Pop)
    → first_with p pops ≡ none
    → (pop : Pop) → Memᴰ pop pops
    → p pop ≡ false
first_with-none p [] h pop m = absurd (Memᴰ.not-nil m)
first_with-none p (x ∷ pops) h pop m = elim (Bool-cases (p x)) [
  | inl yes' ↦ ground arith
  | inr no' ↦ elim (Memᴰ.cases_cons m) [
    | inl e ↦ ap p e ∙ no'
    | inr m' ↦ first_with-none p pops (ground arith) pop m'
  ]
]

-- A configuration names each server once, and its limits are not negative.
pub record IsConfigured (config : Config) : Type 0 where
  pub named_once : (p q : Pop) → Memᴰ p config.pops → Memᴰ q config.pops → p.id ≡ q.id → p ≡ q
  pub not_negative : (p : Pop) → Memᴰ p config.pops → p.max_count < 2 ^ 63

and-right : (a b : Bool) → (a && b) ≡ true → b ≡ true
and-right true b h = h
and-right false b h = ground arith

and-left : (a b : Bool) → (a && b) ≡ true → a ≡ true
and-left true b h = refl
and-left false b h = h

and-true : (a b : Bool) → a ≡ true → (a && b) ≡ false → b ≡ false
and-true true b t h = h
and-true false b t h = absurd (ground arith)

less-lt : (n m : ℕ) → n < 2 ^ 63 → m < 2 ^ 63 → less n m ≡ true → n < m
unfolding less
less-lt n m a b h = ground arith

not_less-le : (n m : ℕ) → n < 2 ^ 63 → m < 2 ^ 63 → less n m ≡ false → m ≤ n
unfolding less
not_less-le n m a b h = ground arith

-- The nodes that are recorded for a server.
abbrev pub node_card : (redis : Redis) → RedisLaws redis → redis.Db → Pop → ℕ
node_card redis laws db pop = (laws.view db).card (redis_key_pop_nodes pop.id)

-- The country of a server is that of a location: Hong Kong is a province of its own.
abbrev pub IsIn : Location → Pop → Type 0
IsIn l pop =
    ((l.province ≡ codes "Hong Kong") × (pop.area ≡ codes "HongKong"))
    ⊎ ((¬ (l.province ≡ codes "Hong Kong")) × (pop.area ≡ l.country))

module _ (out : Outside) (config : Config) (redis : Redis) (laws : RedisLaws redis) where
  pub is_free-room :
      (country : GoString) (db : redis.Db) (pop : Pop)
      → IsConfigured config
      → Memᴰ pop config.pops
      → is_free_in out config redis country db pop ≡ true
      → node_card redis laws db pop < pop.max_count
  unfolding is_free_in node_count_of_pop
  is_free-room country db pop good m free =
      let room : has_room out config redis (redis.scard (redis_key_pop_nodes pop.id) db) pop
          ≡ true =
        and-right (str_eq pop.area country) _ free in
      elim (Option-cases (redis.scard (redis_key_pop_nodes pop.id) db)) [
        | inl e ↦ let shut = ap (λ o. has_room out config redis o pop) e in absurd (ground arith)
        | inr (n, e) ↦
            let (size, small) = laws.scard_ok (redis_key_pop_nodes pop.id) db n e in
            let room' : less n pop.max_count ≡ true =
              sym (ap (λ o. has_room out config redis o pop) e) ∙ room in
            omega (arith, size, less-lt n pop.max_count small (good.not_negative pop m) room')
      ]

  pub is_free-area :
      (country : GoString) (db : redis.Db) (pop : Pop)
      → is_free_in out config redis country db pop ≡ true
      → pop.area ≡ country
  unfolding is_free_in
  is_free-area country db pop free =
      (str_eq_iff pop.area country).0 (and-left (str_eq pop.area country) _ free)

  pub not_free-full :
      (country : GoString) (db : redis.Db) (pop : Pop)
      → IsConfigured config
      → Memᴰ pop config.pops
      → pop.area ≡ country
      → is_free_in out config redis country db pop ≡ false
      → (redis.scard (redis_key_pop_nodes pop.id) db ≡ none)
        ⊎ (pop.max_count ≤ node_card redis laws db pop)
  unfolding is_free_in node_count_of_pop
  not_free-full country db pop good m here shut =
      let full : has_room out config redis (redis.scard (redis_key_pop_nodes pop.id) db) pop
          ≡ false =
        and-true _ _ ((str_eq_iff pop.area country).1 here) shut in
      elim (Option-cases (redis.scard (redis_key_pop_nodes pop.id) db)) [
        | inl e ↦ inl e
        | inr (n, e) ↦
            let (size, small) = laws.scard_ok (redis_key_pop_nodes pop.id) db n e in
            let full' : less n pop.max_count ≡ false =
              sym (ap (λ o. has_room out config redis o pop) e) ∙ full in
            inr (
              omega
                (arith, size, not_less-le n pop.max_count small (good.not_negative pop m) full'))
      ]

  pub country_of-IsIn :
      (l : Location) (pop : Pop) → pop.area ≡ country_of out config redis l → IsIn l pop
  country_of-IsIn l pop h = elim (Bool-cases (str_eq l.province (codes "Hong Kong"))) [
    | inl yes' ↦
        inl ((str_eq_iff _ _).0 yes', h ∙ ap (λ b. if b then codes "HongKong" else l.country) yes')
    | inr no' ↦ inr (
      (λ e. absurd (cc ((str_eq_iff _ _).1 e, no'))),
      h ∙ ap (λ b. if b then codes "HongKong" else l.country) no',
    )
  ]

  pub IsIn-country_of :
      (l : Location) (pop : Pop) → IsIn l pop → pop.area ≡ country_of out config redis l
  IsIn-country_of l pop (inl (p, a)) =
      a ∙ sym (ap (λ b. if b then codes "HongKong" else l.country) ((str_eq_iff _ _).1 p))
  IsIn-country_of l pop (inr (p, a)) = elim (Bool-cases (str_eq l.province (codes "Hong Kong"))) [
    | inl yes' ↦ absurd (p ((str_eq_iff _ _).0 yes'))
    | inr no' ↦ a ∙ sym (ap (λ b. if b then codes "HongKong" else l.country) no')
  ]
