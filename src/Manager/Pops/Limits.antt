-- ===== src/Manager/Pops/Limits.antt =====
-- The limits of the manager's servers: manager/internal/logic/getnodepoplogic.go.
use titan_tunnel.Prelude.{
  ◌+◌, ◌≤◌, ◌<◌, GoString, codes, Bool, true, false, str_eq, str_eq_iff, ◌≡◌, refl, sym, ap, ◌∙◌,
  subst, arith, ◌⊎◌, inl, inr, Bool-cases, ℕ,
}
use mathlib.Core.List.{Memᴰ, append_cancel_left}
use titan_tunnel.Manager.Store.{
  Redis, RedisLaws, View, with_member, redis_key_nodes, redis_key_pop_nodes, nil_or_failed,
  then_sadd, set_node_pop,
}
use titan_tunnel.Manager.Pops.{Pop, Config, Outside, allocate_pop}
use titan_tunnel.Manager.Pops.Room.{IsConfigured, node_card, is_free-room}
use titan_tunnel.Manager.Pops.Requests.{Answer, Outcome, allocate_pop-Outcome}

module _ (redis : Redis) (laws : RedisLaws redis) where
  abbrev pub card : redis.Db → GoString → ℕ
  card db k = (laws.view db).card k

  -- One node at most is added to the set `k`, and none to another.
  abbrev Adds : GoString → View → View → Type 0
  Adds k w w' =
      (k' : GoString)
      → (str_eq k k' ≡ false → w'.card k' ≡ w.card k') × (w'.card k' ≤ w.card k' + 1)

  Adds-none : (k : GoString) (w : View) → Adds k w w
  Adds-none k w k' = (λ h. refl, omega arith)

  Adds-with_member : (k x : GoString) (w : View) → Adds k w (with_member k x w)
  Adds-with_member k x w k' = (ground arith, ground arith)

  Adds-sadd :
      (k x : GoString) (db : redis.Db) → Adds k (laws.view db) (laws.view (redis.sadd k x db).1)
  Adds-sadd k x db = elim (Bool-cases (redis.sadd k x db).0) [
    | inl good ↦
        subst (Adds k (laws.view db))
          (sym
            (laws.sadd_ok k x db (redis.sadd k x db).1 (ap (λ b. (b, (redis.sadd k x db).1)) good)))
          (Adds-with_member k x (laws.view db))
    | inr bad ↦
        elim (laws.sadd_failed k x db (redis.sadd k x db).1
          (ap (λ b. (b, (redis.sadd k x db).1)) bad)) [
            | inl e ↦ subst (Adds k (laws.view db)) (sym e) (Adds-none k (laws.view db))
            | inr e ↦ subst (Adds k (laws.view db)) (sym e) (Adds-with_member k x (laws.view db))
          ]
  ]

  -- HSET changes the size of no set.
  hset-card :
      (k f v : GoString) (db : redis.Db) (j : GoString) → card (redis.hset k f v db).1 j ≡ card db j
  hset-card k f v db j = elim (Bool-cases (redis.hset k f v db).0) [
    | inl good ↦
        ap (λ (w : View). w.card j)
          (laws.hset_ok k f v db (redis.hset k f v db).1
            (ap (λ b. (b, (redis.hset k f v db).1)) good))
    | inr bad ↦
        elim (laws.hset_failed k f v db (redis.hset k f v db).1
          (ap (λ b. (b, (redis.hset k f v db).1)) bad)) [
            | inl e ↦ ap (λ (w : View). w.card j) e
            | inr e ↦ ap (λ (w : View). w.card j) e
          ]
  ]

  -- SetNodePop adds at most one node to the server it names, and none to another.
  set_node_pop-card :
      (node pop : GoString) (db : redis.Db) (k' : GoString)
      → (str_eq (redis_key_pop_nodes pop) k' ≡ false
          → card (set_node_pop redis node pop db).1 k' ≡ card db k')
        × (card (set_node_pop redis node pop db).1 k' ≤ card db k' + 1)
  unfolding set_node_pop
  set_node_pop-card node pop db k' =
      go (redis.hset redis_key_nodes node pop db) (λ j. hset-card redis_key_nodes node pop db j)
    where
      sadds :
          (r : Bool × redis.Db)
          → (Adds (redis_key_pop_nodes pop) (laws.view db) (laws.view r.1))
          → (str_eq (redis_key_pop_nodes pop) k' ≡ false
              → card (nil_or_failed redis r).1 k' ≡ card db k')
            × (card (nil_or_failed redis r).1 k' ≤ card db k' + 1)
      sadds (true, db') a = a k'
      sadds (false, db') a = a k'

      go :
          (r : Bool × redis.Db)
          → ((j : GoString) → card r.1 j ≡ card db j)
          → (str_eq (redis_key_pop_nodes pop) k' ≡ false
              → card (then_sadd redis node pop r).1 k' ≡ card db k')
            × (card (then_sadd redis node pop r).1 k' ≤ card db k' + 1)
      go (false, db1) h = (λ n. h k', omega (arith, h k'))
      go (true, db1) h = sadds (redis.sadd (redis_key_pop_nodes pop) node db1) (λ j.
          let (f, g) = Adds-sadd (redis_key_pop_nodes pop) node db1 j in
          (λ n. f n ∙ h j, omega (arith, g, h j)))

-- The nodes recorded for each server outside of the default area are within its limit.
abbrev pub IsWithinLimits : (redis : Redis) → RedisLaws redis → Config → redis.Db → Type 0
IsWithinLimits redis laws config db =
    (pop : Pop)
    → Memᴰ pop config.pops
    → str_eq pop.area config.default_area ≡ false
    → node_card redis laws db pop ≤ pop.max_count

module _ (out : Outside) (config : Config) (redis : Redis) (laws : RedisLaws redis) where
  keys-differ :
      (p q : Pop)
      → IsConfigured config
      → Memᴰ p config.pops
      → Memᴰ q config.pops
      → (str_eq (redis_key_pop_nodes p.id) (redis_key_pop_nodes q.id) ≡ false) ⊎ (p ≡ q)
  keys-differ p q good mp mq =
      elim (Bool-cases (str_eq (redis_key_pop_nodes p.id) (redis_key_pop_nodes q.id))) [
        | inl same ↦ inr (
            good.named_once p q mp mq
              (append_cancel_left (codes "titan:manager:pop:") p.id q.id ((str_eq_iff _ _).0 same)))
        | inr other ↦ inl other
      ]

  -- The server `p` is given one more node.
  takes-IsWithinLimits :
      (node : GoString) (p : Pop) (db : redis.Db)
      → IsConfigured config
      → Memᴰ p config.pops
      → IsWithinLimits redis laws config db
      → (str_eq p.area config.default_area ≡ false → node_card redis laws db p < p.max_count)
      → IsWithinLimits redis laws config (set_node_pop redis node p.id db).1
  takes-IsWithinLimits node p db good mp w room q mq nd =
      let (other, one) = set_node_pop-card redis laws node p.id db (redis_key_pop_nodes q.id) in
      elim (keys-differ p q good mp mq) [
        | inl differ ↦ omega (arith, other differ, w q mq nd)
        | inr same ↦
            let r = room (ap (λ (x : Pop). str_eq x.area config.default_area) same ∙ nd) in
            let k = ap (λ (x : Pop). node_card redis laws db x) same in
            omega (arith, one, r, k, ap (λ (x : Pop). x.max_count) same)
      ]

  -- A request keeps all servers within their limits, also if commands fail.
  pub request-IsWithinLimits :
      (node ip : GoString) (db : redis.Db)
      → IsConfigured config
      → IsWithinLimits redis laws config db
      → IsWithinLimits redis laws config (allocate_pop out config redis node ip db).1
  request-IsWithinLimits node ip db good w = go _ (allocate_pop-Outcome out config redis node ip db)
    where
      Within : Answer out config redis → Type 0
      Within a = IsWithinLimits redis laws config a.1

      go : (a : Answer out config redis) → Outcome out config redis node db a → Within a
      go a (inl (p, m, h, e)) = subst Within (sym e) w
      go a (inr (inl (x, e))) = subst Within (sym e) w
      go a (inr (inr (p, m, inl d, e))) =
          subst Within (sym e)
            (takes-IsWithinLimits node p db good m w (λ nd. absurd (ground arith)))
      go a (inr (inr (p, m, inr (country, free), e))) = subst Within (sym e) (
          takes-IsWithinLimits node p db good m w
            (λ nd. is_free-room out config redis laws country db p good m free))
