-- ===== src/Manager/Store.antt =====
-- Which server ("pop") each node has: manager/model/node.go. The Redis client is a parameter, with
-- what its commands are documented to do.
use titan_tunnel.Prelude.{
  ℕ, ◌+◌, ◌<◌, ◌^◌, ◌++◌, Option, none, some, Result, ok, err, GoString, codes, Bool, true, false,
  not, ◌&&◌, str_eq, if◌then◌else◌, ◌≡◌, ◌⊎◌,
}
use titan_tunnel.Prelude.State.{St}

-- What HGET answers: redis.Nil for a field that is not there, or another error.
pub data Got : Type 0 where
  nil failed : Got
  found : GoString → Got

pub record Redis : Type 1 where
  pub Db : Type 0
  pub hget : GoString → GoString → Db → Got
  -- none is an error
  pub scard : GoString → Db → Option ℕ
  -- true is a nil error
  pub hset : GoString → GoString → GoString → Db → Bool × Db
  pub hdel : GoString → GoString → Db → Bool × Db
  pub sadd : GoString → GoString → Db → Bool × Db
  pub srem : GoString → GoString → Db → Bool × Db

-- What can be seen of a database: the fields of hashes, the members and the sizes of sets.
pub record View : Type 0 where
  pub hash : GoString → GoString → Option GoString
  pub set : GoString → GoString → Bool
  pub card : GoString → ℕ

abbrev pub got : Option GoString → Got
got none = nil
got (some v) = found v

abbrev pub with_field : GoString → GoString → GoString → View → View
with_field k f v w = record w {
  hash = λ k' f'. if str_eq k k' && str_eq f f' then some v else w.hash k' f';
}

abbrev pub with_member : GoString → GoString → View → View
with_member k x w = record w {
  set = λ k' x'. if str_eq k k' && str_eq x x' then true else w.set k' x';
  card = λ k'. if str_eq k k' && not (w.set k x) then w.card k' + 1 else w.card k';
}

-- A command that fails has been carried out, or it has not.
pub record RedisLaws (redis : Redis) : Type 0 where
  pub view : redis.Db → View
  pub hget_ok :
      (k f : GoString) (db : redis.Db)
      → (redis.hget k f db ≡ failed) ⊎ (redis.hget k f db ≡ got ((view db).hash k f))
  pub scard_ok :
      (k : GoString) (db : redis.Db) (n : ℕ)
      → redis.scard k db ≡ some n
      → (n ≡ (view db).card k) × (n < 2 ^ 63)
  pub hset_ok :
      (k f v : GoString) (db db' : redis.Db)
      → redis.hset k f v db ≡ (true, db')
      → view db' ≡ with_field k f v (view db)
  pub hset_failed :
      (k f v : GoString) (db db' : redis.Db)
      → redis.hset k f v db ≡ (false, db')
      → (view db' ≡ view db) ⊎ (view db' ≡ with_field k f v (view db))
  pub sadd_ok :
      (k x : GoString) (db db' : redis.Db)
      → redis.sadd k x db ≡ (true, db')
      → view db' ≡ with_member k x (view db)
  pub sadd_failed :
      (k x : GoString) (db db' : redis.Db)
      → redis.sadd k x db ≡ (false, db')
      → (view db' ≡ view db) ⊎ (view db' ≡ with_member k x (view db))

-- Why the manager has no server for a node.
pub data PopError : Type 0 where
  redis_failed pop_not_found no_location no_pop no_server no_token panicked : PopError

abbrev pub redis_key_nodes : GoString
redis_key_nodes = codes "titan:manager:nodes"

-- fmt.Sprintf(redisKeyPopNodes, pop)
abbrev pub redis_key_pop_nodes : GoString → GoString
redis_key_pop_nodes pop = codes "titan:manager:pop:" ++ pop

module _ (redis : Redis) where
  abbrev pub Action {ℓ} : Type ℓ → Type ℓ
  Action A = St PopError redis.Db A

  abbrev pub nil_or_failed : Bool × redis.Db → Result PopError (Unit {0}) × redis.Db
  nil_or_failed (true, db) = (ok tt, db)
  nil_or_failed (false, db) = (err redis_failed, db)

  abbrev pub then_sadd :
      GoString → GoString → Bool × redis.Db → Result PopError (Unit {0}) × redis.Db
  then_sadd node pop (false, db) = (err redis_failed, db)
  then_sadd node pop (true, db) = nil_or_failed (redis.sadd (redis_key_pop_nodes pop) node db)

  unfoldable pub set_node_pop : GoString → GoString → Action (Unit {0})
  set_node_pop node pop db = then_sadd node pop (redis.hset redis_key_nodes node pop db)

  abbrev pub pop_of : Got → Result PopError (Option GoString)
  pop_of failed = err redis_failed
  pop_of nil = ok none
  pop_of (found pop) = ok (some pop)

  -- none is a nil slice
  unfoldable pub get_node_pop : GoString → redis.Db → Result PopError (Option GoString)
  get_node_pop node db = pop_of (redis.hget redis_key_nodes node db)

  abbrev or_empty : Option GoString → GoString
  or_empty none = codes ""
  or_empty (some pop) = pop

  abbrev then_srem : GoString → GoString → Bool × redis.Db → Result PopError (Unit {0}) × redis.Db
  then_srem node pop (false, db) = (err redis_failed, db)
  then_srem node pop (true, db) = nil_or_failed (redis.srem (redis_key_pop_nodes pop) node db)

  abbrev delete_found : GoString → Result PopError (Option GoString) → Action (Unit {0})
  delete_found node (err e) db = (err e, db)
  delete_found node (ok pop) db = then_srem node (or_empty pop) (redis.hdel redis_key_nodes node db)

  unfoldable pub delete_node : GoString → Action (Unit {0})
  delete_node node db = delete_found node (get_node_pop node db) db

  unfoldable pub node_count_of_pop : GoString → redis.Db → Option ℕ
  node_count_of_pop pop db = redis.scard (redis_key_pop_nodes pop) db
