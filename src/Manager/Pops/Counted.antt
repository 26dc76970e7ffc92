-- ===== src/Manager/Pops/Counted.antt =====
-- The nodes that were sent to a server and those recorded for it:
-- manager/internal/logic/getnodepoplogic.go.
use titan_tunnel.Prelude.{
  ◌≤◌, List, [], ◌∷◌, ok, GoString, Bool, true, false, str_eq, ◌≡◌, sym, ap, ◌∙◌, subst, inl, inr,
}
use mathlib.Core.List.{Memᴰ}
use titan_tunnel.Manager.Store.{
  Redis, RedisLaws, View, found, redis_key_nodes, redis_key_pop_nodes, set_node_pop,
}
use titan_tunnel.Manager.Pops.{Pop, Config, Outside, allocate_pop}
use titan_tunnel.Manager.Pops.Room.{IsConfigured}
use titan_tunnel.Manager.Pops.Requests.{Request, Answer, handled, Outcome, allocate_pop-Outcome}
use titan_tunnel.Manager.Pops.Limits.{IsWithinLimits, request-IsWithinLimits}
use titan_tunnel.Manager.Pops.Assigned.{
  WritesSucceed, IsViewCounted, IsCounted, assigned-IsViewCounted, assigned-keeps, assigned-has,
  got-found, set_node_pop-view,
}

module _ (out : Outside) (config : Config) (redis : Redis) (laws : RedisLaws redis)
    (writes : WritesSucceed redis) where
  -- Whether a node is in the set of a server.
  abbrev has_node : redis.Db → Pop → GoString → Bool
  has_node db p node = (laws.view db).set (redis_key_pop_nodes p.id) node

  -- What SetNodePop keeps, and what it adds.
  set_node_pop-IsCounted :
      (node pop : GoString) (db : redis.Db)
      → IsCounted redis laws db
      → IsCounted redis laws (set_node_pop redis node pop db).1
  set_node_pop-IsCounted node pop db c =
      subst IsViewCounted (sym (set_node_pop-view redis laws writes node pop db))
        (assigned-IsViewCounted node pop (laws.view db) c)

  request-IsCounted :
      (node ip : GoString) (db : redis.Db)
      → IsCounted redis laws db
      → IsCounted redis laws (allocate_pop out config redis node ip db).1
  request-IsCounted node ip db c = go _ (allocate_pop-Outcome out config redis node ip db)
    where
      Kept : Answer out config redis → Type 0
      Kept a = IsCounted redis laws a.1

      go : (a : Answer out config redis) → Outcome out config redis node db a → Kept a
      go a (inl (p, m, h, e)) = subst Kept (sym e) c
      go a (inr (inl (x, e))) = subst Kept (sym e) c
      go a (inr (inr (p, m, room, e))) = subst Kept (sym e) (set_node_pop-IsCounted node p.id db c)

  request-keeps :
      (other ip : GoString) (db : redis.Db) (p : Pop) (node : GoString)
      → has_node db p node ≡ true
      → has_node (allocate_pop out config redis other ip db).1 p node ≡ true
  request-keeps other ip db p node h = go _ (allocate_pop-Outcome out config redis other ip db)
    where
      Kept : Answer out config redis → Type 0
      Kept a = has_node a.1 p node ≡ true

      go : (a : Answer out config redis) → Outcome out config redis other db a → Kept a
      go a (inl (q, m, g, e)) = subst Kept (sym e) h
      go a (inr (inl (x, e))) = subst Kept (sym e) h
      go a (inr (inr (q, m, room, e))) = subst Kept (sym e) (
          ap (λ (w : View). w.set (redis_key_pop_nodes p.id) node)
            (set_node_pop-view redis laws writes other q.id db)
          ∙ assigned-keeps other q.id (redis_key_pop_nodes p.id) node (laws.view db) h)

  -- The node that is sent to a server is in its set.
  answer-counted :
      (node ip : GoString) (db : redis.Db) (p : Pop)
      → IsCounted redis laws db
      → (allocate_pop out config redis node ip db).0 ≡ ok p
      → has_node (allocate_pop out config redis node ip db).1 p node ≡ true
  answer-counted node ip db p c h = go _ (allocate_pop-Outcome out config redis node ip db) h
    where
      known :
          (id : GoString)
          → redis.hget redis_key_nodes node db ≡ found id
          → (laws.view db).set (redis_key_pop_nodes id) node ≡ true
      known id g = elim (laws.hget_ok redis_key_nodes node db) [
        | inl f ↦ absurd (cc (f, g))
        | inr f ↦ c node id (got-found id ((laws.view db).hash redis_key_nodes node) (sym g ∙ f))
      ]

      go :
          (a : Answer out config redis)
          → Outcome out config redis node db a
          → a.0 ≡ ok p
          → has_node a.1 p node ≡ true
      go a (inl (q, m, g, e)) h =
          let first = ap (λ (x : Answer out config redis). x.0) e in
          let same : q ≡ p = cc (first, h) in
          ap (λ (x : Answer out config redis). has_node x.1 p node) e
          ∙ ap (λ (x : Pop). has_node db x node) (sym same)
          ∙ known q.id g
      go a (inr (inl (x, e))) h = absurd (cc (h, e))
      go a (inr (inr (q, m, room, e))) h =
          let first = ap (λ (x : Answer out config redis). x.0) e in
          let same : q ≡ p = cc (first, h) in
          ap (λ (x : Answer out config redis). has_node x.1 p node) e
          ∙ ap (λ (x : Pop). has_node (set_node_pop redis node q.id db).1 x node) (sym same)
          ∙ ap (λ (w : View). w.set (redis_key_pop_nodes q.id) node)
              (set_node_pop-view redis laws writes node q.id db)
          ∙ assigned-has node q.id (laws.view db)

  handled-IsCounted :
      (rs : List Request) (db : redis.Db)
      → IsCounted redis laws db
      → IsCounted redis laws (handled out config redis rs db)
  unfolding handled
  handled-IsCounted [] db c = c
  handled-IsCounted (r ∷ rs) db c =
      handled-IsCounted rs (allocate_pop out config redis r.node r.ip db).1
        (request-IsCounted r.node r.ip db c)

  handled-keeps :
      (rs : List Request) (db : redis.Db) (p : Pop) (node : GoString)
      → has_node db p node ≡ true
      → has_node (handled out config redis rs db) p node ≡ true
  unfolding handled
  handled-keeps [] db p node h = h
  handled-keeps (r ∷ rs) db p node h =
      handled-keeps rs (allocate_pop out config redis r.node r.ip db).1 p node
        (request-keeps r.node r.ip db p node h)

  handled-IsWithinLimits :
      (rs : List Request) (db : redis.Db)
      → IsConfigured config
      → IsWithinLimits redis laws config db
      → IsWithinLimits redis laws config (handled out config redis rs db)
  unfolding handled
  handled-IsWithinLimits [] db good w = w
  handled-IsWithinLimits (r ∷ rs) db good w =
      handled-IsWithinLimits rs (allocate_pop out config redis r.node r.ip db).1 good
        (request-IsWithinLimits out config redis laws r.node r.ip db good w)

  -- If no write to Redis fails, requests for a server are handled one after another, and at the start
  -- every node with a server is in the server's set and no server outside of the default area has
  -- more nodes than its limit: each node that is sent to a server of the configuration outside of the
  -- default area is in the set of this server ever after, and the set has no more members than the
  -- server's limit. The configuration names each server once and has no negative limit.
  pub allocate_pop-counted :
      (before after : List Request) (node ip : GoString) (p : Pop) (db : redis.Db)
      → IsConfigured config
      → IsCounted redis laws db
      → IsWithinLimits redis laws config db
      → Memᴰ p config.pops
      → str_eq p.area config.default_area ≡ false
      → (allocate_pop out config redis node ip (handled out config redis before db)).0 ≡ ok p
      → ((laws.view (
              handled out config redis after
                (allocate_pop out config redis node ip (handled out config redis before db)).1)).set
            (redis_key_pop_nodes p.id)
            node
          ≡ true)
        × ((laws.view (
                handled out config redis after
                  (allocate_pop out config redis node ip
                    (handled out config redis before db)).1)).card
              (redis_key_pop_nodes p.id)
            ≤ p.max_count)
  allocate_pop-counted before after node ip p db good c w m nd h =
      let start = handled out config redis before db in
      (
        handled-keeps after (allocate_pop out config redis node ip start).1 p node
            (answer-counted node ip start p (handled-IsCounted before db c) h),
        handled-IsWithinLimits after (allocate_pop out config redis node ip start).1 good
            (request-IsWithinLimits out config redis laws node ip start good
              (handled-IsWithinLimits before db good w))
            p m nd,
      )
