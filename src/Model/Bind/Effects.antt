-- ===== src/Model/Bind/Effects.antt =====
-- What the transactions of ippop/api/model/bind.go do to the database.
use titan_tunnel.Prelude.{
  ℕ, List, [], ◌∷◌, some, GoString, codes, Bool, true, false, is_empty, not, ◌&&◌, ◌||◌,
  if◌then◌else◌, ◌≡◌, inl, inr, refl, arith, str_eq, ◌∙◌, ap, Bool-cases,
}
use titan_tunnel.Prelude.Maps.{get, get-put}
use titan_tunnel.Model.StructMap.{Strconv, struct_to_map, struct_to_map_from, format_value}
use titan_tunnel.Model.Redis.{Redis, View, Cmd, hset, zadd, zrem, apply, apply_all}
use titan_tunnel.Model.Records.{
  Node, User, node_key, user_key, node_fields, user_fields, key_node_free, key_node_bind,
  key_user_zset, key_node_online,
}
use titan_tunnel.Model.Store.Nodes.{bound_user}
use titan_tunnel.Model.Bind.{bind_commands, unbind_commands, if_online, switch_commands}

-- What the database says of the binding of one node.
pub record Binding : Type 0 where
  pub user : GoString
  pub bound : Bool
  pub free : Bool
  pub online : Bool

abbrev pub binding : View → GoString → Binding
binding v id = record {
  user = bound_user v id;
  bound = v.zset key_node_bind id;
  free = v.zset key_node_free id;
  online = v.set key_node_online id;
}

-- A free node is not bound and has no user; a node with a user is bound.
abbrev pub is_consistent : Binding → Bool
is_consistent b = if b.free then not b.bound && is_empty b.user else b.bound || is_empty b.user

pub binding-zadd_free :
    (now : ℕ) (v : View) (id x : GoString)
    → binding (apply (zadd key_node_free now id) v) x
      ≡ record (binding v x) { free = str_eq id x || (binding v x).free }
unfolding key_node_free key_node_bind str_eq
binding-zadd_free now v id x = elim (Bool-cases (str_eq id x)) [
  | inl a ↦ rw a refl
  | inr a ↦ rw a refl
]

pub binding-zrem_free :
    (v : View) (id x : GoString)
    → binding (apply (zrem key_node_free id) v) x
      ≡ (if str_eq id x then record (binding v x) { free = false } else binding v x)
unfolding key_node_free key_node_bind str_eq
binding-zrem_free v id x = elim (Bool-cases (str_eq id x)) [ inl a ↦ rw a refl | inr a ↦ rw a refl ]

module _ (conv : Strconv) where
  get-struct_to_map-bind_user :
      (n : Node) → get (struct_to_map conv (node_fields n)) (codes "bind_user") ≡ some n.bind_user
  unfolding struct_to_map struct_to_map_from format_value str_eq
  get-struct_to_map-bind_user n = rw (get-put, get-put) refl

  -- HSET of a node changes the user of that node alone.
  hset_node-bound_user :
      (v : View) (n : Node) (id : GoString)
      → bound_user (apply (hset (node_key n.id) (struct_to_map conv (node_fields n))) v) id
        ≡ (if str_eq n.id id then n.bind_user else bound_user v id)
  unfolding node_key str_eq
  hset_node-bound_user v n id = elim (Bool-cases (str_eq n.id id)) [
    | inl a ↦ rw (a, get-struct_to_map-bind_user n) refl
    | inr a ↦ rw a refl
  ]

  hset_user-bound_user :
      (v : View) (u : User) (id : GoString)
      → bound_user (apply (hset (user_key u.user_name) (struct_to_map conv (user_fields u))) v) id
        ≡ bound_user v id
  unfolding node_key user_key str_eq
  hset_user-bound_user v u id = refl

  pub binding-bind_commands :
      (now : ℕ) (redis : Redis) (v : View) (n : Node) (x : GoString) (u : User)
      → binding (apply_all (bind_commands redis now conv n n.id u) v) x ≡ (
          if str_eq n.id x
          then record {
            user = u.user_name;
            bound = true;
            free = false;
            online = v.set key_node_online x;
          }
          else binding v x)
  unfolding key_node_free key_node_bind key_node_online key_user_zset str_eq
  binding-bind_commands now redis v n x u =
      let named = record n { bind_user = u.user_name } in
      let e = hset_node-bound_user v named x in
      let f =
        hset_user-bound_user
          (apply (hset (node_key n.id) (struct_to_map conv (node_fields named))) v) u x in
      elim (Bool-cases (str_eq n.id x)) [ inl a ↦ ground arith | inr a ↦ ground arith ]

  pub binding-unbind_commands :
      (now : ℕ) (redis : Redis) (v : View) (n : Node) (x : GoString)
      → binding (apply_all (unbind_commands redis now conv n n.id) v) x ≡ (
          if str_eq n.id x
          then record (binding v x) {
            user = [];
            bound = false;
            free = n.online || (binding v x).free;
          }
          else binding v x)
  unfolding key_node_free key_node_bind key_node_online key_user_zset str_eq
  binding-unbind_commands now redis v n x =
      let e = hset_node-bound_user v (record n { bind_user = [] }) x in
      elim (Bool-cases (str_eq n.id x)) [
        | inl a ↦ elim (Bool-cases n.online) [ inl b ↦ ground arith | inr b ↦ ground arith ]
        | inr a ↦ elim (Bool-cases n.online) [ inl b ↦ ground arith | inr b ↦ ground arith ]
      ]

  apply_all-if_online :
      (redis : Redis) (now : ℕ) (n : Node) (c : Cmd) (cs : List Cmd) (v : View)
      → apply_all (if_online redis now conv n c cs) v
        ≡ apply_all cs (apply_all (if_online redis now conv n c []) v)
  apply_all-if_online redis now n c cs v = elim (Bool-cases n.online) [
    | inl a ↦ rw a refl
    | inr a ↦ rw a refl
  ]

  -- The second half of the transaction, which binds the new node.
  abbrev take_commands : Redis → ℕ → User → Node → List Cmd
  take_commands redis now u to =
      hset (node_key to.id)
        (struct_to_map conv (node_fields (record to { bind_user = u.user_name })))
      ∷ hset (user_key u.user_name)
          (struct_to_map conv (user_fields (record u { route_node_id = to.id })))
      ∷ zadd key_node_bind now to.id
      ∷ zrem key_node_free to.id
      ∷ []

  binding-take_commands :
      (redis : Redis) (now : ℕ) (u : User) (to : Node) (v : View) (x : GoString)
      → binding (apply_all (take_commands redis now u to) v) x ≡ (
          if str_eq to.id x
          then record (binding v x) { user = u.user_name; bound = true; free = false }
          else binding v x)
  unfolding key_node_free key_node_bind key_node_online key_user_zset str_eq
  binding-take_commands redis now u to v x =
      let named = record to { bind_user = u.user_name } in
      let e = hset_node-bound_user v named x in
      let f =
        hset_user-bound_user
          (apply (hset (node_key to.id) (struct_to_map conv (node_fields named))) v)
          (record u { route_node_id = to.id }) x in
      elim (Bool-cases (str_eq to.id x)) [ inl a ↦ ground arith | inr a ↦ ground arith ]

  pub binding-switch_commands :
      (now : ℕ) (redis : Redis) (v : View) (u : User) (from to : Node) (x : GoString)
      → binding (apply_all (switch_commands redis now conv u from to) v) x ≡ (
          if str_eq to.id x
          then record (binding v x) { user = u.user_name; bound = true; free = false }
          else if str_eq from.id x
          then record (binding v x) {
            user = [];
            bound = false;
            free = from.online || (binding v x).free;
          }
          else binding v x)
  binding-switch_commands now redis v u from to x =
      let freed = apply (zrem key_node_bind from.id) (
        apply
          (hset (node_key from.id)
            (struct_to_map conv (node_fields (record from { bind_user = [] }))))
          v) in
      let split =
        apply_all-if_online redis now from (zadd key_node_free now from.id)
          (take_commands redis now u to) freed in
      let taken =
        binding-take_commands redis now u to
          (apply_all (unbind_commands redis now conv from from.id) v) x in
      let unbound = binding-unbind_commands now redis v from x in
      ap (λ w. binding w x) split ∙ taken ∙ (elim (Bool-cases (str_eq to.id x)) [
        | inl a ↦ elim (Bool-cases (str_eq from.id x)) [
          | inl b ↦ ground arith
          | inr b ↦ ground arith
        ]
        | inr a ↦ ground arith
      ])
