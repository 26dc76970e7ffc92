-- ===== src/Manager/Pops/Requests.antt =====
-- Requests for a server one after another, and what a single one can do:
-- manager/internal/logic/getnodepoplogic.go.
use titan_tunnel.Prelude.{
  List, [], ◌∷◌, Option, none, some, Result, ok, err, GoString, Bool, true, str_eq, str_eq_iff, ◌≡◌,
  refl, ◌⊎◌, inl, inr, Option-cases,
}
use mathlib.Core.List.{Memᴰ}
use titan_tunnel.Manager.Store.{
  Redis, Got, nil, failed, found, PopError, panicked, redis_key_nodes, pop_of, set_node_pop,
  get_node_pop,
}
use titan_tunnel.Manager.Pops.{
  Pop, Config, Location, Outside, first_with, country_of, is_free_in, new_pop, located, known,
  looked_up, allocate_pop,
}
use titan_tunnel.Manager.Pops.Room.{first_with-some}

-- The node's id and the address that a request comes from.
pub record Request : Type 0 where
  pub node : GoString
  pub ip : GoString

module _ (out : Outside) (config : Config) (redis : Redis) where
  abbrev pub Answer : Type 0
  Answer = Result PopError Pop × redis.Db

  -- The database after requests.
  unfoldable pub handled : List Request → redis.Db → redis.Db
  handled [] db = db
  handled (r ∷ rs) db = handled rs (allocate_pop out config redis r.node r.ip db).1

  -- A new server for a node: of the default area, or free in some country.
  abbrev pub IsNew : GoString → redis.Db → Answer → Type 0
  IsNew node db a =
      (p : Pop) × Memᴰ p config.pops
      × ((str_eq p.area config.default_area ≡ true)
          ⊎ ((country : GoString) × (is_free_in out config redis country db p ≡ true)))
      × (a ≡ (ok p, (set_node_pop redis node p.id db).1))

  -- The node has a server already, the request fails, or the node gets a server.
  abbrev pub Outcome : GoString → redis.Db → Answer → Type 0
  Outcome node db a =
      ((p : Pop) × Memᴰ p config.pops
        × (redis.hget redis_key_nodes node db ≡ found p.id)
        × (a ≡ (ok p, db)))
      ⊎ (((x : PopError) × (a ≡ (err x, db))) ⊎ IsNew node db a)

  new_pop-Outcome :
      (node country : GoString) (db : redis.Db)
      → Outcome node db (new_pop out config redis node country db)
  unfolding new_pop
  new_pop-Outcome node country db =
      elim (Option-cases (first_with (is_free_in out config redis country db) config.pops)) [
        | inl e ↦ elim (Option-cases (first_with in_default config.pops)) [
          | inl e' ↦ rw (e, e') (inr (inl (_, refl)))
          | inr (p, e') ↦
              let (m, d) = first_with-some in_default config.pops p e' in
              rw (e, e') (inr (inr (p, m, inl d, refl)))
        ]
        | inr (p, e) ↦
            let (m, free) = first_with-some _ config.pops p e in
            rw e (inr (inr (p, m, inr (country, free), refl)))
      ]
    where
      in_default : Pop → Bool
      in_default pop = str_eq pop.area config.default_area

  pub allocate_pop-Outcome :
      (node ip : GoString) (db : redis.Db)
      → Outcome node db (allocate_pop out config redis node ip db)
  unfolding allocate_pop get_node_pop
  allocate_pop-Outcome node ip db = go (redis.hget redis_key_nodes node db) refl
    where
      locates :
          (r : Result PopError (Option Location))
          → Outcome node db (located out config redis node r db)
      locates (ok none) = inr (inl (_, refl))
      locates (ok (some l)) = new_pop-Outcome node (country_of out config redis l) db
      locates (err panicked) = inr (inl (_, refl))
      locates (err x) = inr (inl (_, refl))

      finds :
          (id : GoString)
          → redis.hget redis_key_nodes node db ≡ found id
          → (o : Option Pop) → first_with (λ pop. str_eq pop.id id) config.pops ≡ o
          → Outcome node db (known out config redis o db)
      finds id h none e = inr (inl (_, refl))
      finds id h (some p) e =
          let (m, same) = first_with-some _ config.pops p e in
          inl (p, m, cc (h, (str_eq_iff p.id id).0 same), refl)

      go :
          (g : Got)
          → redis.hget redis_key_nodes node db ≡ g
          → Outcome node db (looked_up out config redis node ip (pop_of redis g) db)
      go failed h = inr (inl (_, refl))
      go nil h = locates _
      go (found id) h = finds id h _ refl
