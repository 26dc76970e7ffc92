-- ===== src/Model/Redis.antt =====
-- The Redis client that ippop/api/model calls, go-zero's and go-redis's: a parameter of the model,
-- with what the commands are documented to do when they succeed. Nothing is assumed of the
-- database after a command that fails.
use titan_tunnel.Prelude.{
  ℕ, List, [], ◌∷◌, Option, none, some, GoString, Bool, true, false, ◌&&◌, if◌then◌else◌, str_eq,
  ◌≡◌,
}
use titan_tunnel.Prelude.Maps.{get, or_else}
use titan_tunnel.Model.StructMap.{Hash}

-- The writes, each with its key. A score is a Unix time.
pub data Cmd : Type 0 where
  hset : GoString → Hash → Cmd
  zadd : GoString → ℕ → GoString → Cmd
  zrem sadd srem : GoString → GoString → Cmd
  del : GoString → Cmd

pub record Redis : Type 1 where
  pub Db : Type 0
  -- none is an error
  pub hgetall : GoString → Db → Option Hash
  pub sismember : GoString → GoString → Db → Option Bool
  -- the commands of a transaction, or one command; `true` for a nil error
  pub exec : List Cmd → Db → Bool × Db
  -- ZPOPMIN key: none for an error, some none for an empty set
  pub zpop_min : GoString → Db → Option (Option GoString) × Db

-- What can be seen of a database: the fields of a hash, the members of a sorted set and of a set.
pub record View : Type 0 where
  pub hash : GoString → GoString → Option GoString
  pub zset : GoString → GoString → Bool
  pub set : GoString → GoString → Bool

abbrev pub insert_at :
    (GoString → GoString → Bool) → GoString → GoString → GoString → GoString → Bool
insert_at s k x k' x' = if str_eq k k' && str_eq x x' then true else s k' x'

abbrev pub remove_at :
    (GoString → GoString → Bool) → GoString → GoString → GoString → GoString → Bool
remove_at s k x k' x' = if str_eq k k' && str_eq x x' then false else s k' x'

abbrev pub apply : Cmd → View → View
apply (hset k m) v = record v {
  hash = λ k' f. if str_eq k k' then or_else (get m f) (v.hash k' f) else v.hash k' f;
}
apply (zadd k score x) v = record v { zset = insert_at v.zset k x }
apply (zrem k x) v = record v { zset = remove_at v.zset k x }
apply (sadd k x) v = record v { set = insert_at v.set k x }
apply (srem k x) v = record v { set = remove_at v.set k x }
apply (del k) v = record {
  hash = λ k' f. if str_eq k k' then none else v.hash k' f;
  zset = λ k' x. if str_eq k k' then false else v.zset k' x;
  set = λ k' x. if str_eq k k' then false else v.set k' x;
}

abbrev pub apply_all : List Cmd → View → View
apply_all [] v = v
apply_all (c ∷ cs) v = apply_all cs (apply c v)

pub record RedisLaws (redis : Redis) : Type 0 where
  pub view : redis.Db → View
  pub hgetall_ok :
      (k : GoString) (db : redis.Db) (m : Hash)
      → redis.hgetall k db ≡ some m
      → (f : GoString) → get m f ≡ (view db).hash k f
  pub sismember_ok :
      (k x : GoString) (db : redis.Db) (b : Bool)
      → redis.sismember k x db ≡ some b
      → b ≡ (view db).set k x
  pub exec_ok :
      (cs : List Cmd) (db db' : redis.Db)
      → redis.exec cs db ≡ (true, db')
      → view db' ≡ apply_all cs (view db)
  pub zpop_min_ok :
      (k x : GoString) (db db' : redis.Db)
      → redis.zpop_min k db ≡ (some (some x), db')
      → ((view db).zset k x ≡ true) × (view db' ≡ apply (zrem k x) (view db))
