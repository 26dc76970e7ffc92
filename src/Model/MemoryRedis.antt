-- ===== src/Model/MemoryRedis.antt =====
-- A Redis in memory, on which the examples run: it never fails, and ZPOPMIN takes the member that
-- was added first.
use titan_tunnel.Prelude.{
  List, [], ◌∷◌, ◌++◌, Option, none, some, GoString, Bool, true, false, ◌||◌, if◌then◌else◌, str_eq,
  str_eq_iff, str_eq_refl, str_eq_sym, ◌≡◌, refl, fun_ext, ap₂, ◌∙◌, ap, sym, arith, Bool-cases,
  inl, inr,
}
use titan_tunnel.Prelude.Maps.{empty, get-empty, get, merge, get-merge}
use titan_tunnel.Model.StructMap.{Hash}
use titan_tunnel.Model.Redis.{
  Redis, RedisLaws, View, Cmd, hset, zadd, zrem, sadd, srem, del, apply, apply_all, insert_at,
  remove_at,
}

pub record Memory : Type 0 where
  pub hash : GoString → Hash
  pub zset : GoString → List GoString
  pub set : GoString → GoString → Bool

abbrev has : List GoString → GoString → Bool
has [] x = false
has (y ∷ ys) x = str_eq y x || has ys x

abbrev without : List GoString → GoString → List GoString
without [] x = []
without (y ∷ ys) x = let rest = without ys x in if str_eq x y then rest else y ∷ rest

abbrev run : Cmd → Memory → Memory
run (hset k m) s = record s { hash = λ k'. if str_eq k k' then merge m (s.hash k') else s.hash k' }
run (zadd k t x) s = record s {
  zset = λ k'. if str_eq k k' then without (s.zset k') x ++ (x ∷ []) else s.zset k';
}
run (zrem k x) s = record s {
  zset = λ k'. if str_eq k k' then without (s.zset k') x else s.zset k';
}
run (sadd k x) s = record s { set = insert_at s.set k x }
run (srem k x) s = record s { set = remove_at s.set k x }
run (del k) s = record {
  hash = λ k'. if str_eq k k' then empty else s.hash k';
  zset = λ k'. if str_eq k k' then [] else s.zset k';
  set = λ k' x. if str_eq k k' then false else s.set k' x;
}

abbrev run_all : List Cmd → Memory → Memory
run_all [] s = s
run_all (c ∷ cs) s = run_all cs (run c s)

abbrev first : List GoString → Option GoString
first [] = none
first (x ∷ xs) = some x

abbrev pop : GoString → List GoString → Memory → Option (Option GoString) × Memory
pop k [] s = (some none, s)
pop k (x ∷ xs) s = (some (some x), run (zrem k x) s)

abbrev pub memory_redis : Redis
memory_redis = record {
  Db = Memory;
  hgetall = λ k s. some (s.hash k);
  sismember = λ k x s. some (s.set k x);
  exec = λ cs s. (true, run_all cs s);
  zpop_min = λ k s. pop k (s.zset k) s;
}

abbrev seen : Memory → View
seen s = record { hash = λ k. get (s.hash k); zset = λ k. has (s.zset k); set = s.set }

has-without :
    (l : List GoString) (x y : GoString)
    → has (without l x) y ≡ (if str_eq x y then false else has l y)
has-without [] x y = ground arith
has-without (z ∷ l) x y =
    let h = has-without l x y in
    elim (Bool-cases (str_eq x z)) [
      | inl a ↦
          let e = ap (λ w. str_eq w y) ((str_eq_iff x z).0 a) in
          elim (Bool-cases (str_eq x y)) [ inl b ↦ ground arith | inr b ↦ ground arith ]
      | inr a ↦ elim (Bool-cases (str_eq x y)) [
        | inl b ↦
            let e = ap (λ w. str_eq z w) ((str_eq_iff x y).0 b) in
            let f = str_eq_sym z x in ground arith
        | inr b ↦ ground arith
      ]
    ]

has-append : (l : List GoString) (x y : GoString) → has (l ++ (x ∷ [])) y ≡ (has l y || str_eq x y)
has-append [] x y = ground arith
has-append (z ∷ l) x y = ground (arith, has-append l x y)

seen-run : (c : Cmd) (s : Memory) → seen (run c s) ≡ apply c (seen s)
seen-run (hset k m) s =
    let e : (seen (run (hset k m) s)).hash ≡ (apply (hset k m) (seen s)).hash = fun_ext (λ k'.
      fun_ext (λ f. elim (Bool-cases (str_eq k k')) [
        | inl a ↦ rw a (get-merge m (s.hash k') f)
        | inr a ↦ rw a refl
      ])) in
    ap (λ h. record { hash = h; zset = (seen s).zset; set = s.set }) e
seen-run (zadd k t x) s =
    let e : (seen (run (zadd k t x) s)).zset ≡ (apply (zadd k t x) (seen s)).zset = fun_ext (λ k'.
      fun_ext (λ y.
        let p = has-append (without (s.zset k') x) x y in
        let q = has-without (s.zset k') x y in
        elim (Bool-cases (str_eq k k')) [
          | inl a ↦ elim (Bool-cases (str_eq x y)) [ inl b ↦ ground arith | inr b ↦ ground arith ]
          | inr a ↦ rw a refl
        ])) in
    ap (λ h. record { hash = (seen s).hash; zset = h; set = s.set }) e
seen-run (zrem k x) s =
    let e : (seen (run (zrem k x) s)).zset ≡ (apply (zrem k x) (seen s)).zset = fun_ext (λ k'.
      fun_ext (λ y.
        let q = has-without (s.zset k') x y in
        elim (Bool-cases (str_eq k k')) [
          | inl a ↦ elim (Bool-cases (str_eq x y)) [ inl b ↦ ground arith | inr b ↦ ground arith ]
          | inr a ↦ rw a refl
        ])) in
    ap (λ h. record { hash = (seen s).hash; zset = h; set = s.set }) e
seen-run (sadd k x) s = refl
seen-run (srem k x) s = refl
seen-run (del k) s =
    let e : (seen (run (del k) s)).hash ≡ (apply (del k) (seen s)).hash = fun_ext (λ k'.
      fun_ext (λ f. elim (Bool-cases (str_eq k k')) [
        | inl a ↦ rw a (get-empty f)
        | inr a ↦ rw a refl
      ])) in
    let g : (seen (run (del k) s)).zset ≡ (apply (del k) (seen s)).zset = fun_ext (λ k'.
      fun_ext (λ x. elim (Bool-cases (str_eq k k')) [ inl a ↦ rw a refl | inr a ↦ rw a refl ])) in
    ap₂ (λ h z. record { hash = h; zset = z; set = (apply (del k) (seen s)).set }) e g

pub seen-run_all : (cs : List Cmd) (s : Memory) → seen (run_all cs s) ≡ apply_all cs (seen s)
seen-run_all [] s = refl
seen-run_all (c ∷ cs) s = seen-run_all cs (run c s) ∙ ap (apply_all cs) (seen-run c s)

pub pop-seen :
    (k x : GoString) (l : List GoString) (s s' : Memory)
    → s.zset k ≡ l
    → pop k l s ≡ (some (some x), s')
    → (has (s.zset k) x ≡ true) × (seen s' ≡ apply (zrem k x) (seen s))
pop-seen k x [] s s' h e = ground arith
pop-seen k x (y ∷ l) s s' h e =
    let a : y ≡ x = ground arith in
    let b : run (zrem k y) s ≡ s' = ap (λ r. r.1) e in
    (
      rw (h, a) (ground (arith, str_eq_refl x)),
      sym (ap seen b) ∙ seen-run (zrem k y) s ∙ ap (λ w. apply (zrem k w) (seen s)) a,
    )

pub sismember-seen :
    (k x : GoString) (s : Memory) (b : Bool)
    → memory_redis.sismember k x s ≡ some b
    → b ≡ (seen s).set k x
sismember-seen k x s b h = ground arith

pub hgetall-seen :
    (k : GoString) (s : Memory) (m : Hash)
    → memory_redis.hgetall k s ≡ some m
    → (f : GoString) → get m f ≡ (seen s).hash k f
hgetall-seen k s m h f = let e : s.hash k ≡ m = ground arith in rw e refl

abbrev pub memory_redis_laws : RedisLaws memory_redis
memory_redis_laws = record {
  view = seen;
  hgetall_ok = hgetall-seen;
  sismember_ok = sismember-seen;
  exec_ok = λ cs db db' h.
      let e : run_all cs db ≡ db' = ap (λ r. r.1) h in sym (ap seen e) ∙ seen-run_all cs db;
  zpop_min_ok = λ k x db db' h. pop-seen k x (db.zset k) db db' refl h;
}
