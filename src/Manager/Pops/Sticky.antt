-- ===== src/Manager/Pops/Sticky.antt =====
-- Later requests of a node, manager/internal/logic/getnodepoplogic.go.
use titan_tunnel.Prelude.{
  List, [], ◌∷◌, Option, none, some, ok, err, GoString, Bool, true, false, str_eq, str_eq_iff,
  str_eq_refl, ◌≡◌, refl, sym, ap, ◌∙◌, arith, ◌⊎◌, inl, inr, Bool-cases,
}
use mathlib.Core.List.{Memᴰ}
use titan_tunnel.Manager.Store.{
  Redis, RedisLaws, View, got, with_field, redis_failed, redis_key_nodes, redis_key_pop_nodes,
  nil_or_failed, then_sadd, set_node_pop, get_node_pop,
}
use titan_tunnel.Manager.Pops.{Pop, Config, Outside, first_with, known, allocate_pop}
use titan_tunnel.Manager.Pops.Room.{first_with-some, first_with-none, IsConfigured}
use titan_tunnel.Manager.Pops.Requests.{Request, Answer, handled, Outcome, allocate_pop-Outcome}

module _ (redis : Redis) (laws : RedisLaws redis) where
  -- The server that the database records for a node.
  abbrev field : redis.Db → GoString → Option GoString
  field db node = (laws.view db).hash redis_key_nodes node

  -- After SetNodePop the node's field holds the server.
  recorded :
      (node pop : GoString) (db db' : redis.Db)
      → set_node_pop redis node pop db ≡ (ok tt, db')
      → field db' node ≡ some pop
  unfolding set_node_pop
  recorded node pop db db' h = go (redis.hset redis_key_nodes node pop db) refl h
    where
      written :
          (w : View) → (with_field redis_key_nodes node pop w).hash redis_key_nodes node ≡ some pop
      written w = rw (str_eq_refl redis_key_nodes, str_eq_refl node) refl

      sadds :
          (db1 : redis.Db) (r : Bool × redis.Db)
          → redis.sadd (redis_key_pop_nodes pop) node db1 ≡ r
          → field db1 node ≡ some pop
          → nil_or_failed redis r ≡ (ok tt, db')
          → field db' node ≡ some pop
      sadds db1 (false, db2) e f h = ground arith
      sadds db1 (true, db2) e f h =
          let same : db2 ≡ db' = ap (λ r. r.1) h in
          ap (λ d. field d node) (sym same)
          ∙ ap (λ (w : View). w.hash redis_key_nodes node) (laws.sadd_ok _ node db1 db2 e)
          ∙ f

      go :
          (r : Bool × redis.Db)
          → redis.hset redis_key_nodes node pop db ≡ r
          → then_sadd redis node pop r ≡ (ok tt, db')
          → field db' node ≡ some pop
      go (false, db1) e h = ground arith
      go (true, db1) e h =
          sadds db1 (redis.sadd (redis_key_pop_nodes pop) node db1) refl
            (ap (λ (w : View). w.hash redis_key_nodes node)
                (laws.hset_ok redis_key_nodes node pop db db1 e)
              ∙ written (laws.view db))
            h

  -- HSET of another node's field, and SADD, leave the field alone, also when they fail.
  hset-field :
      (other node v : GoString) (db : redis.Db)
      → str_eq other node ≡ false
      → field (redis.hset redis_key_nodes other v db).1 node ≡ field db node
  hset-field other node v db ne = elim (Bool-cases (redis.hset redis_key_nodes other v db).0) [
    | inl good ↦
        ap (λ (w : View). w.hash redis_key_nodes node)
          (laws.hset_ok redis_key_nodes other v db (redis.hset redis_key_nodes other v db).1
            (ap (λ b. (b, (redis.hset redis_key_nodes other v db).1)) good))
        ∙ untouched (laws.view db)
    | inr bad ↦
        elim (laws.hset_failed redis_key_nodes other v db (redis.hset redis_key_nodes other v db).1
          (ap (λ b. (b, (redis.hset redis_key_nodes other v db).1)) bad)) [
            | inl e ↦ ap (λ (w : View). w.hash redis_key_nodes node) e
            | inr e ↦ ap (λ (w : View). w.hash redis_key_nodes node) e ∙ untouched (laws.view db)
          ]
  ]
    where
      untouched :
          (w : View)
          → (with_field redis_key_nodes other v w).hash redis_key_nodes node
            ≡ w.hash redis_key_nodes node
      untouched w = rw (str_eq_refl redis_key_nodes, ne) refl

  sadd-field :
      (k x node : GoString) (db : redis.Db) → field (redis.sadd k x db).1 node ≡ field db node
  sadd-field k x node db = elim (Bool-cases (redis.sadd k x db).0) [
    | inl good ↦
        ap (λ (w : View). w.hash redis_key_nodes node)
          (laws.sadd_ok k x db (redis.sadd k x db).1 (ap (λ b. (b, (redis.sadd k x db).1)) good))
    | inr bad ↦
        elim (laws.sadd_failed k x db (redis.sadd k x db).1
          (ap (λ b. (b, (redis.sadd k x db).1)) bad)) [
            | inl e ↦ ap (λ (w : View). w.hash redis_key_nodes node) e
            | inr e ↦ ap (λ (w : View). w.hash redis_key_nodes node) e
          ]
  ]

  set_node_pop-field :
      (other node pop : GoString) (db : redis.Db)
      → str_eq other node ≡ false
      → field (set_node_pop redis other pop db).1 node ≡ field db node
  unfolding set_node_pop
  set_node_pop-field other node pop db ne =
      go (redis.hset redis_key_nodes other pop db) (hset-field other node pop db ne)
    where
      sadds : (r : Bool × redis.Db) → (nil_or_failed redis r).1 ≡ r.1
      sadds (true, d) = refl
      sadds (false, d) = refl

      go :
          (r : Bool × redis.Db)
          → field r.1 node ≡ field db node
          → field (then_sadd redis other pop r).1 node ≡ field db node
      go (false, db1) h = h
      go (true, db1) h =
          ap (λ d. field d node) (sadds (redis.sadd (redis_key_pop_nodes pop) other db1))
          ∙ sadd-field (redis_key_pop_nodes pop) other node db1
          ∙ h

module _ (out : Outside) (config : Config) (redis : Redis) (laws : RedisLaws redis) where
  -- The request's answer is the server, or the error of Redis; nothing is changed.
  abbrev IsSticky : GoString → GoString → Pop → redis.Db → Type 0
  IsSticky node ip pop db =
      (allocate_pop out config redis node ip db ≡ (ok pop, db))
      ⊎ (allocate_pop out config redis node ip db ≡ (err redis_failed, db))

  recorded-IsSticky :
      (node ip : GoString) (pop : Pop) (db : redis.Db)
      → IsConfigured config
      → Memᴰ pop config.pops
      → field redis laws db node ≡ some pop.id
      → IsSticky node ip pop db
  unfolding allocate_pop get_node_pop
  recorded-IsSticky node ip pop db good m set = elim (laws.hget_ok redis_key_nodes node db) [
    | inl e ↦ inr (rw e refl)
    | inr e ↦
        let stored = ap got set in
        inl (rw (e, stored) (finds (first_with (λ q. str_eq q.id pop.id) config.pops) refl))
  ]
    where
      finds :
          (o : Option Pop)
          → first_with (λ q. str_eq q.id pop.id) config.pops ≡ o
          → known out config redis o db ≡ (ok pop, db)
      finds none e =
          let missed = first_with-none _ config.pops e pop m in
          let here = str_eq_refl pop.id in absurd (ground arith)
      finds (some q) e =
          let (mq, same) = first_with-some _ config.pops q e in
          ap (λ x. (ok x, db)) (good.named_once q pop mq m ((str_eq_iff q.id pop.id).0 same))

  -- What a request of another node leaves alone.
  request-field :
      (other ip node : GoString) (db : redis.Db)
      → str_eq other node ≡ false
      → field redis laws (allocate_pop out config redis other ip db).1 node
        ≡ field redis laws db node
  request-field other ip node db ne = go _ (allocate_pop-Outcome out config redis other ip db)
    where
      go :
          (a : Answer out config redis)
          → Outcome out config redis other db a
          → field redis laws a.1 node ≡ field redis laws db node
      go a (inl (p, m, h, e)) = ap (λ (x : Answer out config redis). field redis laws x.1 node) e
      go a (inr (inl (x, e))) = ap (λ (x : Answer out config redis). field redis laws x.1 node) e
      go a (inr (inr (p, m, room, e))) =
          ap (λ (x : Answer out config redis). field redis laws x.1 node) e
          ∙ set_node_pop-field redis laws other node p.id db ne

  handled-field :
      (rs : List Request) (node : GoString) (pop : Pop) (db : redis.Db)
      → IsConfigured config
      → Memᴰ pop config.pops
      → field redis laws db node ≡ some pop.id
      → field redis laws (handled out config redis rs db) node ≡ some pop.id
  unfolding handled
  handled-field [] node pop db good m h = h
  handled-field (r ∷ rs) node pop db good m h =
      handled-field rs node pop (allocate_pop out config redis r.node r.ip db).1 good m
        (elim (Bool-cases (str_eq r.node node)) [
          | inl own ↦
              let same = (str_eq_iff r.node node).0 own in
              let own_field = ap (field redis laws db) same ∙ h in
              elim (recorded-IsSticky r.node r.ip pop db good m own_field) [
                | inl e ↦ ap (λ (x : Answer out config redis). field redis laws x.1 node) e ∙ h
                | inr e ↦ ap (λ (x : Answer out config redis). field redis laws x.1 node) e ∙ h
              ]
          | inr ne ↦ request-field r.node r.ip node db ne ∙ h
        ])

  -- Once SetNodePop has recorded a server of the configuration for a node, and whatever requests for
  -- a server, of this and other nodes, are handled in between, one after another and with or without Redis
  -- commands that fail: a request of the node gets this server, wherever it comes from, or the error
  -- of Redis, and changes nothing. The configuration names each server once and has no negative
  -- limit.
  pub allocate_pop-sticky :
      (node ip : GoString) (pop : Pop) (db db' : redis.Db) (between : List Request)
      → IsConfigured config
      → Memᴰ pop config.pops
      → set_node_pop redis node pop.id db ≡ (ok tt, db')
      → (allocate_pop out config redis node ip (handled out config redis between db')
          ≡ (ok pop, handled out config redis between db'))
        ⊎ (allocate_pop out config redis node ip (handled out config redis between db')
            ≡ (err redis_failed, handled out config redis between db'))
  allocate_pop-sticky node ip pop db db' between good m set =
      recorded-IsSticky node ip pop (handled out config redis between db') good m
        (handled-field between node pop db' good m (recorded redis laws node pop.id db db' set))
