-- ===== src/Model/Samples.antt =====
-- A database in memory and a user, for the examples of ippop/api/model and what uses it.
use titan_tunnel.Prelude.{
  ℕ, [], ◌∷◌, Option, none, some, ok, GoString, codes, Bool, true, false, take, ◌==◌, str_eq,
  if◌then◌else◌, ◌≡◌, inl, inr, refl, arith, Bool-cases,
}
use titan_tunnel.Prelude.Maps.{empty, put, get}
use titan_tunnel.Model.StructMap.{Strconv}
use titan_tunnel.Model.StructMap.RoundTrip.{StrconvLaws}
use titan_tunnel.Model.Records.{
  User, node_key, key_node_free, key_node_bind, key_node_online, zero_user,
}
use titan_tunnel.Model.Store.{exec, save_user}
use titan_tunnel.Model.Bind.Effects.{binding}
use titan_tunnel.Model.MemoryRedis.{Memory, memory_redis, memory_redis_laws}
use titan_tunnel.Model.Bind.Consistency.{Consistent}
use titan_tunnel.Model.Store.Users.{IsInRange}

-- A number is written as one code, which is enough for the laws.
abbrev one_code : GoString → Option ℕ
one_code [] = none
one_code (c ∷ s) = some c

abbrev pub conv : Strconv
conv = record {
  format_int = λ n. n ∷ [];
  parse_int = one_code;
  format_bool = λ b. if b then 1 ∷ [] else 0 ∷ [];
  parse_bool = λ s. elim (one_code s) [ none ↦ none | some c ↦ some (c == 1) ];
}

bool_read : (b : Bool) → conv.parse_bool (conv.format_bool b) ≡ some b
bool_read true = refl
bool_read false = refl

pub formats : StrconvLaws conv
formats = record { parse-format_int = λ n h. refl; parse-format_bool = bool_read }

-- Every node is known and online, and n1 is free.
abbrev pub db : Memory
db = record {
  hash = λ k.
      if str_eq (take 11 k) (codes "titan:node:")
      then put empty (codes "ip") (codes "1.2.3.4")
      else empty;
  zset = λ k. if str_eq k key_node_free then codes "n1" ∷ [] else [];
  set = λ k x. true;
}

abbrev pub user : User
user = record zero_user {
  user_name = codes "u";
  end_time = 9;
  total_traffic = 5;
  route_node_id = codes "n1";
}

pub in_range : IsInRange user
in_range = record {
  start_time = omega arith;
  end_time = omega arith;
  total_traffic = omega arith;
  current_traffic = omega arith;
  route_mode = omega arith;
  update_route_intervals = omega arith;
  update_route_time = omega arith;
  upload_rate_limit = omega arith;
  download_rate_limit = omega arith;
}

abbrev pub db_u : Memory
db_u = (save_user memory_redis conv user db).1

pub saved : save_user memory_redis conv user db ≡ (ok tt, db_u)
unfolding save_user exec
saved = refl

pub db-Consistent : Consistent (memory_redis_laws.view db)
unfolding node_key key_node_free key_node_bind key_node_online str_eq get put empty
db-Consistent id = elim (Bool-cases (binding (memory_redis_laws.view db) id).free) [
  | inl a ↦ rw a refl
  | inr a ↦ rw a refl
]
