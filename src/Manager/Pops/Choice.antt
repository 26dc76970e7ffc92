-- ===== src/Manager/Pops/Choice.antt =====
-- How the manager chooses the server of a node, manager/internal/logic/getnodepoplogic.go.
use titan_tunnel.Prelude.{
  ◌≤◌, ◌<◌, Option, none, some, ok, GoString, str_eq, str_eq_iff, ◌≡◌, refl, subst, arith, ◌⊎◌, inl,
  inr,
}
use mathlib.Core.List.{Memᴰ}
use titan_tunnel.Manager.Store.{Redis, RedisLaws, redis_key_pop_nodes, get_node_pop}
use titan_tunnel.Manager.Pops.{
  Pop, Config, Location, Outside, first_with, get_local_info, or_default, country_of, is_free_in,
  taken_by, new_pop, located, looked_up, allocate_pop,
}
use titan_tunnel.Manager.Pops.Room.{
  first_with-some, first_with-none, IsConfigured, node_card, IsIn, is_free-area, is_free-room,
  not_free-full, country_of-IsIn, IsIn-country_of,
}

module _ (out : Outside) (config : Config) (redis : Redis) where
  chosen :
      (node : GoString) (pop : Pop) (db : redis.Db) (o : Option Pop)
      → (taken_by out config redis node o db).0 ≡ ok pop
      → o ≡ some pop
  chosen node pop db none h = ground arith
  chosen node pop db (some p) h = ground arith

  or_default-cases :
      (pop : Pop) (a b : Option Pop)
      → or_default out config a b ≡ some pop
      → (a ≡ some pop) ⊎ ((a ≡ none) × (b ≡ some pop))
  or_default-cases pop none b h = inr (refl, h)
  or_default-cases pop (some p) b h = inl h

  -- A node that has no server yet, and whose location is known, gets a server of the configuration
  -- that is in its country and has fewer nodes than its limit; or one of the default area, but then
  -- every server in its country has reached its limit or the count of its nodes could not be read.
  pub allocate_pop-choice :
      (laws : RedisLaws redis) (node ip : GoString) (l : Location) (pop : Pop) (db : redis.Db)
      → IsConfigured config
      → get_node_pop redis node db ≡ ok none
      → get_local_info out config ip ≡ ok (some l)
      → (allocate_pop out config redis node ip db).0 ≡ ok pop
      → Memᴰ pop config.pops
        × ((IsIn l pop × (node_card redis laws db pop < pop.max_count))
            ⊎ ((pop.area ≡ config.default_area)
                × ((q : Pop)
                    → Memᴰ q config.pops
                    → IsIn l q
                    → (redis.scard (redis_key_pop_nodes q.id) db ≡ none)
                      ⊎ (q.max_count ≤ node_card redis laws db q))))
  unfolding allocate_pop new_pop
  allocate_pop-choice laws node ip l pop db good fresh place h =
      elim (or_default-cases pop (first_with (is_free_in out config redis country db) config.pops)
        (first_with (λ q. str_eq q.area config.default_area) config.pops)
        (chosen node pop db _ (
          subst (λ r. (located out config redis node r db).0 ≡ ok pop) place
            (subst (λ r. (looked_up out config redis node ip r db).0 ≡ ok pop) fresh h)))) [
              | inl e ↦
                  let (m, free) = first_with-some _ config.pops pop e in
                  (
                    m,
                    inl (
                      country_of-IsIn out config redis laws l pop
                          (is_free-area out config redis laws country db pop free),
                      is_free-room out config redis laws country db pop good m free,
                    ),
                  )
              | inr (none_free, e) ↦
                  let (m, d) = first_with-some _ config.pops pop e in
                  (
                    m,
                    inr (
                      (str_eq_iff pop.area config.default_area).0 d,
                      λ q mq here.
                          not_free-full out config redis laws country db q good mq
                            (IsIn-country_of out config redis laws l q here)
                            (first_with-none _ config.pops none_free q mq),
                    ),
                  )
            ]
    where
      country : GoString
      country = country_of out config redis l
