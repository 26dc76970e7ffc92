-- ===== src/Model/Store/Nodes.antt =====
-- What GetNode finds in the database, ippop/api/model/node.go.
use titan_tunnel.Prelude.{
  List, [], ◌∷◌, none, some, ok, err, GoString, codes, ◌≡◌, ◌⊎◌, inl, inr, refl, arith, str_eq, sym,
  Option-cases, Result-cases, Bool-cases,
}
use titan_tunnel.Prelude.Maps.{get, is_empty_map}
use titan_tunnel.Prelude.State.{◌>>=◌}
use titan_tunnel.Model.StructMap.{Strconv, StructField, Hash, load_field, map_to_struct}
use titan_tunnel.Model.Redis.{Redis, RedisLaws, View}
use titan_tunnel.Model.Records.{
  Node, node_fields, node_of_fields, zero_node, node_key, key_node_online, value_at, as_str,
}
use titan_tunnel.Model.Store.{
  ModelError, redis_failed, invalid_field, hgetall, load_struct, is_node_online, get_node,
}

-- The user that the hash of a node names, [] for none.
abbrev pub bound_user : View → GoString → GoString
bound_user v id = elim (v.hash (node_key id) (codes "bind_user")) [ none ↦ [] | some name ↦ name ]

-- A Node value says what the database says of the node.
abbrev pub Agrees : View → GoString → Node → Type 0
Agrees v id n =
    (n.id ≡ id) × (n.bind_user ≡ bound_user v id) × (n.online ≡ v.set key_node_online id)

module _ (conv : Strconv) where
  map_to_struct-cons :
      (m : Hash) (f : StructField) (fs rs : List StructField)
      → map_to_struct conv m (f ∷ fs) ≡ ok rs
      → (f' : StructField) × (rs' : List StructField) × (load_field conv m f ≡ ok f')
        × (map_to_struct conv m fs ≡ ok rs')
        × (rs ≡ f' ∷ rs')
  unfolding map_to_struct
  map_to_struct-cons m f fs rs h = elim (Result-cases (load_field conv m f)) [
    | inl (e, a) ↦ ground arith
    | inr (f', a) ↦ elim (Result-cases (map_to_struct conv m fs)) [
      | inl (e, b) ↦ ground arith
      | inr (rs', b) ↦ (f', rs', a, b, ground arith)
    ]
  ]

  -- The fifth field of a node is the user that it is bound to.
  load_node-bind_user :
      (m : Hash) (rs : List StructField)
      → map_to_struct conv m (node_fields zero_node) ≡ ok rs
      → as_str (value_at rs 4) ≡ elim (get m (codes "bind_user")) [ none ↦ [] | some name ↦ name ]
  unfolding load_field str_eq
  load_node-bind_user m rs h =
      let (f0, r0, _, h0, e0) = map_to_struct-cons m _ _ rs h in
      let (f1, r1, _, h1, e1) = map_to_struct-cons m _ _ r0 h0 in
      let (f2, r2, _, h2, e2) = map_to_struct-cons m _ _ r1 h1 in
      let (f3, r3, _, h3, e3) = map_to_struct-cons m _ _ r2 h2 in
      let (f4, r4, a4, h4, e4) = map_to_struct-cons m _ _ r3 h3 in
      rw (e0, e1, e2, e3, e4)
        (elim (Option-cases (get m (codes "bind_user"))) [
          | inl n ↦ ground arith
          | inr (name, s) ↦ ground arith
        ])

module _ (redis : Redis) (laws : RedisLaws redis) (conv : Strconv) where
  -- GetNode writes nothing; a node that it finds is as the database says.
  pub get_node-cases :
      (id : GoString) (db : redis.Db)
      → ((e : ModelError) × (get_node redis conv id db ≡ (err e, db)))
        ⊎ ((get_node redis conv id db ≡ (ok none, db))
            ⊎ ((n : Node) × (get_node redis conv id db ≡ (ok (some n), db))
                × Agrees (laws.view db) id n))
  unfolding get_node hgetall load_struct is_node_online ◌>>=◌
  get_node-cases id db = elim (Option-cases (redis.hgetall (node_key id) db)) [
    | inl a ↦ inl (redis_failed, ground arith)
    | inr (m, a) ↦ elim (Bool-cases (is_empty_map m)) [
      | inl b ↦ inr (inl (ground arith))
      | inr b ↦ elim (Result-cases (map_to_struct conv m (node_fields zero_node))) [
        | inl (e, c) ↦ inl (invalid_field, ground arith)
        | inr (rs, c) ↦ elim (Option-cases (redis.sismember key_node_online id db)) [
          | inl d ↦ inl (redis_failed, ground arith)
          | inr (online, d) ↦ inr (
              inr (
                node_of_fields id online rs,
                ground arith,
                (
                  refl,
                  rw (bound_user, sym (laws.hgetall_ok (node_key id) db m a (codes "bind_user")))
                      (load_node-bind_user conv m rs c),
                  laws.sismember_ok key_node_online id db online d,
                ),
              ))
        ]
      ]
    ]
  ]
