-- ===== src/Manager/Pops/Assigned.antt =====
-- What SetNodePop of manager/model/node.go does when no write fails.
use titan_tunnel.Prelude.{
  Option, none, some, GoString, Bool, true, false, ◌&&◌, str_eq, str_eq_iff, str_eq_refl, ◌≡◌, refl,
  sym, ap, ◌∙◌, arith, inl, inr, Bool-cases, if◌then◌else◌,
}
use titan_tunnel.Manager.Store.{
  Redis, RedisLaws, View, got, found, with_field, with_member, redis_key_nodes, redis_key_pop_nodes,
  nil_or_failed, then_sadd, set_node_pop,
}

-- No HSET and no SADD fails.
pub record WritesSucceed (redis : Redis) : Type 0 where
  pub hset_succeeds : (k f v : GoString) (db : redis.Db) → (redis.hset k f v db).0 ≡ true
  pub sadd_succeeds : (k x : GoString) (db : redis.Db) → (redis.sadd k x db).0 ≡ true

-- A node whose field names a server is in the server's set.
abbrev pub IsViewCounted : View → Type 0
IsViewCounted w =
    (node id : GoString)
    → w.hash redis_key_nodes node ≡ some id
    → w.set (redis_key_pop_nodes id) node ≡ true

abbrev pub IsCounted : (redis : Redis) → RedisLaws redis → redis.Db → Type 0
IsCounted redis laws db = IsViewCounted (laws.view db)

-- What SetNodePop does to the view.
abbrev pub assigned : GoString → GoString → View → View
assigned node pop w =
    with_member (redis_key_pop_nodes pop) node (with_field redis_key_nodes node pop w)

and-true : (a b : Bool) → a ≡ true → b ≡ true → (a && b) ≡ true
and-true true b ha hb = hb
and-true false b ha hb = ha

and-false : (a b : Bool) → b ≡ false → (a && b) ≡ false
and-false true b h = h
and-false false b h = refl

pub assigned-IsViewCounted :
    (node pop : GoString) (w : View) → IsViewCounted w → IsViewCounted (assigned node pop w)
assigned-IsViewCounted node pop w c other id h = elim (Bool-cases (str_eq node other)) [
  | inl own ↦
      let both = and-true _ _ (str_eq_refl redis_key_nodes) own in
      let e = sym (ap (λ b. if b then some pop else w.hash redis_key_nodes other) both) ∙ h in
      let p : pop ≡ id = cc e in
      let key = (str_eq_iff (redis_key_pop_nodes pop) (redis_key_pop_nodes id)).1 in
      ap (λ b. if b then true else w.set (redis_key_pop_nodes id) other)
        (and-true _ _ (key (ap redis_key_pop_nodes p)) own)
  | inr ne ↦
      let e =
        sym (ap (λ b. if b then some pop else w.hash redis_key_nodes other) (and-false _ _ ne))
        ∙ h in
      ap (λ b. if b then true else w.set (redis_key_pop_nodes id) other) (and-false _ _ ne)
      ∙ c other id e
]

pub assigned-keeps :
    (node pop k x : GoString) (w : View) → w.set k x ≡ true → (assigned node pop w).set k x ≡ true
assigned-keeps node pop k x w h = ground arith

pub assigned-has :
    (node pop : GoString) (w : View)
    → (assigned node pop w).set (redis_key_pop_nodes pop) node ≡ true
assigned-has node pop w = rw (str_eq_refl (redis_key_pop_nodes pop), str_eq_refl node) refl

pub got-found : (id : GoString) (o : Option GoString) → found id ≡ got o → o ≡ some id
got-found id none e = absurd (cc e)
got-found id (some v) e = cc e

module _ (redis : Redis) (laws : RedisLaws redis) (writes : WritesSucceed redis) where
  pub set_node_pop-view :
      (node pop : GoString) (db : redis.Db)
      → laws.view (set_node_pop redis node pop db).1 ≡ assigned node pop (laws.view db)
  unfolding set_node_pop
  set_node_pop-view node pop db =
      go (redis.hset redis_key_nodes node pop db) refl
        (writes.hset_succeeds redis_key_nodes node pop db)
    where
      sadds :
          (db1 : redis.Db) (r : Bool × redis.Db)
          → redis.sadd (redis_key_pop_nodes pop) node db1 ≡ r
          → r.0 ≡ true
          → laws.view (nil_or_failed redis r).1
            ≡ with_member (redis_key_pop_nodes pop) node (laws.view db1)
      sadds db1 (true, db2) e t = laws.sadd_ok (redis_key_pop_nodes pop) node db1 db2 e
      sadds db1 (false, db2) e t = absurd (ground arith)

      go :
          (r : Bool × redis.Db)
          → redis.hset redis_key_nodes node pop db ≡ r
          → r.0 ≡ true
          → laws.view (then_sadd redis node pop r).1 ≡ assigned node pop (laws.view db)
      go (true, db1) e t =
          sadds db1 (redis.sadd (redis_key_pop_nodes pop) node db1) refl
            (writes.sadd_succeeds (redis_key_pop_nodes pop) node db1)
          ∙ ap (with_member (redis_key_pop_nodes pop) node)
              (laws.hset_ok redis_key_nodes node pop db db1 e)
      go (false, db1) e t = absurd (ground arith)
