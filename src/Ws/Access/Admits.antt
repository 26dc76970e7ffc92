-- ===== src/Ws/Access/Admits.antt =====
-- The SOCKS5 front end of ippop/api/socks5 with HandleUserAuth of ippop/api/ws as its handler.
use titan_tunnel.Prelude.{
  ℕ, List, some, Result, ok, err, GoString, Bool, true, false, ◌≡◌, arith, Result-cases, inl, inr,
}
use titan_tunnel.Model.StructMap.{Strconv}
use titan_tunnel.Model.Redis.{Redis, RedisLaws}
use titan_tunnel.Model.Records.{User}
use titan_tunnel.Model.Store.{ModelError, get_user}
use titan_tunnel.Rpc.Users.{Call}
use titan_tunnel.Socks5.Net.{NetLib}
use titan_tunnel.Socks5.Wire.{Conn}
use titan_tunnel.Socks5.Request.{Action, Peer, serve_socks5_conn}
use titan_tunnel.Socks5.Request.Guard.{HandedOn}
use titan_tunnel.Socks5.Request.Sent.{greeting, serve-sent}
use titan_tunnel.Ws.Access.{handle_user_auth}
use titan_tunnel.Ws.Access.Rules.{MayEnter, auth-MayEnter}

abbrev is_ok : Result ModelError (Unit {0}) → Bool
is_ok (ok u) = true
is_ok (err e) = false

module _ (redis : Redis) (laws : RedisLaws redis) (conv : Strconv) (call : Call) where
  -- Whether HandleUserAuth returns a nil error, on the database as it is during the connection.
  abbrev pub accepts : redis.Db → GoString → GoString → Bool
  accepts db name pass = is_ok (handle_user_auth redis conv call.now name (call.md5_hex pass) db).0

  accepts-MayEnter :
      (name pass : GoString) (db : redis.Db)
      → accepts db name pass ≡ true
      → (u : User) × (get_user redis conv name db ≡ (ok (some u), db))
        × MayEnter u (call.md5_hex pass) call.now
  accepts-MayEnter name pass db h =
      elim (Result-cases (handle_user_auth redis conv call.now name (call.md5_hex pass) db).0) [
        | inl (e, a) ↦ ground arith
        | inr (t, a) ↦
            auth-MayEnter redis laws conv call call.now name (call.md5_hex pass) db
              (handle_user_auth redis conv call.now name (call.md5_hex pass) db).1 (ground arith)
      ]

  -- Where HandleUserAuth is asked about passwords, a connection that is handed on has begun with the
  -- name and the password of a user, after the methods that the client offers: the user is in the
  -- database under the name with the digest of that password, is not stopped, between its start and
  -- end time and with traffic left. The target or association carries that user's name, and a
  -- target's address is not blocked.
  pub serve-MayEnter :
      (net : NetLib) (peer : Peer) (db : redis.Db) (c c' : Conn) (act : Action)
      → serve_socks5_conn net (accepts db) true peer c ≡ (ok act, c')
      → (methods : List ℕ) × (name : GoString) × (pass : GoString) × (rest : List ℕ) × (u : User)
        × (c.input ≡ greeting methods name pass rest)
        × (get_user redis conv name db ≡ (ok (some u), db))
        × MayEnter u (call.md5_hex pass) call.now
        × HandedOn net name act
  serve-MayEnter net peer db c c' act h =
      let (methods, name, pass, rest, i, a, t) = serve-sent net (accepts db) peer c c' act h in
      let (u, e, m) = accepts-MayEnter name pass db a in (methods, name, pass, rest, u, i, e, m, t)
