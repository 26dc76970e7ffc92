-- ===== src/Manager/Examples.antt =====
-- Examples for the manager.
use titan_tunnel.Prelude.{
  ◌≤◌, ◌<◌, List, [], ◌∷◌, none, some, ok, err, codes, true, false, str_eq, ◌≡◌, ◌⊎◌, refl, arith,
}
use mathlib.Core.List.{Memᴰ}
use titan_tunnel.Rpc.Checks.{less}
use titan_tunnel.Manager.Store.{
  Redis, no_pop, View, with_field, with_member, redis_key_nodes, redis_key_pop_nodes, redis_failed,
  set_node_pop, get_node_pop, node_count_of_pop,
}
use titan_tunnel.Manager.Pops.{Pop, get_local_info, is_free_in, new_pop, allocate_pop}
use titan_tunnel.Manager.Pops.Room.{IsIn, node_card}
use titan_tunnel.Manager.Pops.Choice.{allocate_pop-choice}
use titan_tunnel.Manager.Pops.Requests.{Request, handled}
use titan_tunnel.Manager.Pops.Sticky.{allocate_pop-sticky}
use titan_tunnel.Manager.Pops.Limits.{IsWithinLimits}
use titan_tunnel.Manager.Pops.Assigned.{WritesSucceed, IsCounted}
use titan_tunnel.Manager.Pops.Counted.{allocate_pop-counted}
use titan_tunnel.Manager.Samples.{
  redis, redis_laws, empty_db, pop, config, location, outside, configured,
}

test_allocate : (allocate_pop outside config redis (codes "n") (codes "ip") empty_db).0 ≡ ok pop
unfolding allocate_pop get_node_pop get_local_info new_pop is_free_in str_eq node_count_of_pop less
test_allocate = refl

empty_within : IsWithinLimits redis redis_laws config empty_db
empty_within p m nd = ground arith

test_no_pop_yet : get_node_pop redis (codes "n") empty_db ≡ ok none
unfolding get_node_pop
test_no_pop_yet = refl

test_located : get_local_info outside config (codes "ip") ≡ ok (some location)
unfolding get_local_info
test_located = refl

allocate_pop-choice_example :
    Memᴰ pop config.pops
    × ((IsIn location pop × (node_card redis redis_laws empty_db pop < pop.max_count))
        ⊎ ((pop.area ≡ config.default_area)
            × ((q : Pop)
                → Memᴰ q config.pops
                → IsIn location q
                → (redis.scard (redis_key_pop_nodes q.id) empty_db ≡ none)
                  ⊎ (q.max_count ≤ node_card redis redis_laws empty_db q))))
allocate_pop-choice_example =
    allocate_pop-choice outside config redis redis_laws (codes "n") (codes "ip") location pop
      empty_db configured test_no_pop_yet test_located test_allocate

-- The database after SetNodePop.
abbrev with_node : View
with_node =
    with_member (redis_key_pop_nodes pop.id) (codes "n")
      (with_field redis_key_nodes (codes "n") pop.id empty_db)

test_recorded : set_node_pop redis (codes "n") pop.id empty_db ≡ (ok tt, with_node)
unfolding set_node_pop
test_recorded = refl

-- Another node and the node itself ask in between.
abbrev between : List Request
between =
    record { node = codes "m"; ip = codes "ip" } ∷ record { node = codes "n"; ip = codes "ip" } ∷ []

allocate_pop-sticky_example :
    (allocate_pop outside config redis
        (codes "n")
        (codes "elsewhere")
        (handled outside config redis between with_node)
      ≡ (ok pop, handled outside config redis between with_node))
    ⊎ (allocate_pop outside config redis
          (codes "n")
          (codes "elsewhere")
          (handled outside config redis between with_node)
        ≡ (err redis_failed, handled outside config redis between with_node))
allocate_pop-sticky_example =
    allocate_pop-sticky outside config redis redis_laws (codes "n") (codes "elsewhere") pop empty_db
      with_node between configured (Memᴰ.head refl) test_recorded

writes_succeed : WritesSucceed redis
writes_succeed = record { hset_succeeds = λ k f v db. refl; sadd_succeeds = λ k x db. refl }

empty-IsCounted : IsCounted redis redis_laws empty_db
empty-IsCounted node id h = absurd (cc h)

not_default : str_eq pop.area config.default_area ≡ false
unfolding str_eq
not_default = refl

test_allocate_first :
    (allocate_pop outside config redis
      (codes "n")
      (codes "ip")
      (handled outside config redis [] empty_db)).0
    ≡ ok pop
unfolding allocate_pop get_node_pop get_local_info new_pop is_free_in str_eq node_count_of_pop less
    handled
test_allocate_first = refl

allocate_pop-counted_example :
    ((handled outside config redis between
          (allocate_pop outside config redis
            (codes "n")
            (codes "ip")
            (handled outside config redis [] empty_db)).1).set
        (redis_key_pop_nodes pop.id)
        (codes "n")
      ≡ true)
    × ((handled outside config redis between
            (allocate_pop outside config redis
              (codes "n")
              (codes "ip")
              (handled outside config redis [] empty_db)).1).card
          (redis_key_pop_nodes pop.id)
        ≤ 1)
allocate_pop-counted_example =
    allocate_pop-counted outside config redis redis_laws writes_succeed [] between (codes "n")
      (codes "ip") pop empty_db configured empty-IsCounted empty_within (Memᴰ.head refl) not_default
      test_allocate_first

-- A second node finds no room.
test_full : (allocate_pop outside config redis (codes "m") (codes "ip") with_node).0 ≡ err no_pop
unfolding allocate_pop get_node_pop get_local_info new_pop is_free_in str_eq node_count_of_pop less
test_full = refl

-- A Redis whose writes fail: a server of limit 1 is given to two nodes.
abbrev read_only : Redis
read_only = record redis { hset = λ k f v db. (false, db) }

abbrev read_only_db : read_only.Db
read_only_db = (allocate_pop outside config read_only (codes "n") (codes "ip") empty_db).1

test_read_only :
    ((allocate_pop outside config read_only (codes "n") (codes "ip") empty_db).0 ≡ ok pop)
    × ((allocate_pop outside config read_only (codes "m") (codes "ip") read_only_db).0 ≡ ok pop)
unfolding allocate_pop get_node_pop get_local_info new_pop is_free_in str_eq node_count_of_pop less
    set_node_pop
test_read_only = (refl, refl)
