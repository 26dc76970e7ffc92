-- ===== src/Manager/Samples.antt =====
-- A Redis in memory and a configuration, for the examples.
use titan_tunnel.Prelude.{
  ℕ, ◌<◌, ◌^◌, [], ◌∷◌, none, some, GoString, codes, Bool, true, false, if◌then◌else◌, ltb, ◌≡◌,
  ◌⊎◌, inl, inr, refl, sym, ap, ◌∙◌, arith,
}
use mathlib.Core.List.{Memᴰ}
use mathlib.Core.List.Memᴰ
use titan_tunnel.Manager.Store.{Redis, RedisLaws, View, got, with_field, with_member}
use titan_tunnel.Manager.Pops.{Pop, Config, Location, Outside}
use titan_tunnel.Manager.Pops.Room.{IsConfigured}

abbrev pub redis : Redis
redis = record {
  Db = View;
  hget = λ k f db. got (db.hash k f);
  scard = λ k db. if ltb (db.card k) (2 ^ 63) then some (db.card k) else none;
  hset = λ k f v db. (true, with_field k f v db);
  hdel = λ k f db. (false, db);
  sadd = λ k x db. (true, with_member k x db);
  srem = λ k x db. (false, db);
}

pub scard_law :
    (k : GoString) (db : View) (n : ℕ)
    → (if ltb (db.card k) (2 ^ 63) then some (db.card k) else none) ≡ some n
    → (n ≡ db.card k) × (n < 2 ^ 63)
scard_law k db n h = (ground arith, ground arith)

-- the second part of a pair
pub pair_law : (w w' : View) → Path (Bool × View) (true, w) (true, w') → w' ≡ w
pair_law w w' h = sym (ap (λ r. r.1) h)

pub never_fails : (w v w' : View) → Path (Bool × View) (true, w) (false, w') → (w' ≡ v) ⊎ (w' ≡ w)
never_fails w v w' h = ground arith

abbrev pub redis_laws : RedisLaws redis
redis_laws = record {
  view = λ db. db;
  hget_ok = λ k f db. inr refl;
  scard_ok = scard_law;
  hset_ok = λ k f v db db' h. pair_law (with_field k f v db) db' h;
  hset_failed = λ k f v db db' h. never_fails (with_field k f v db) db db' h;
  sadd_ok = λ k x db db' h. pair_law (with_member k x db) db' h;
  sadd_failed = λ k x db db' h. never_fails (with_member k x db) db db' h;
}

abbrev pub empty_db : View
empty_db = record { hash = λ k f. none; set = λ k x. false; card = λ k. 0 }

abbrev pub pop : Pop
pop = record { id = codes "p1"; area = codes "HongKong"; ws_url = codes "ws://p1"; max_count = 1 }

abbrev pub config : Config
config = record {
  pops = pop ∷ [];
  default_area = codes "China";
  geo_api = codes "http://geo";
  geo_key = codes "k";
}

abbrev pub location : Location
location = record { country = codes "China"; province = codes "Hong Kong"; city = []; ip = [] }

abbrev pub outside : Outside
outside = record {
  Api = Unit {0};
  http_get = λ url. some (200, some []);
  unmarshal_location = λ body.
      some (record { code = 0; data_ = some (record { location = some location }); msg = [] });
  get_node_access_token = λ api node. some (codes "token");
}

only_pop : (p : Pop) → Memᴰ p config.pops → p ≡ pop
only_pop p m = elim (Memᴰ.cases_cons m) [ inl e ↦ e | inr m' ↦ absurd (Memᴰ.not-nil m') ]

pub configured : IsConfigured config
configured = record {
  named_once = λ p q mp mq e. only_pop p mp ∙ sym (only_pop q mq);
  not_negative = λ p m. omega (arith, ap (λ (x : Pop). x.max_count) (only_pop p m));
}
