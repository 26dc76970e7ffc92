-- ===== src/Socks5/Associate/Counts.antt =====
-- The counters and the connections, ippop/api/socks5/useripcount.go and userudpcount.go.
use titan_tunnel.Prelude.{
  ℕ, zero, suc, ◌+◌, ◌-◌, ◌≤◌, List, [], ◌∷◌, GoString, Bool, true, false, if◌then◌else◌, ◌≡◌, ◌&&◌,
  str_eq, arith, refl,
}
use titan_tunnel.Prelude.Maps.{empty, get-empty}
use titan_tunnel.Socks5.Counters.{count_of, count_of-incr, count_of-decr}
use titan_tunnel.Socks5.Udp.{ip_count_key}
use titan_tunnel.Socks5.Associate.{
  Shared, Pc, entered, ip_counted, leaving, left_udp, done, Proc, Env, Options, World, step_at,
  step, step_in, run, fresh_shared, IsFresh, decr_user,
}

-- Between its first and its last change of the counter of user and address.
abbrev pub holds_ip : Pc → Bool
holds_ip entered = false
holds_ip done = false
holds_ip _ = true

-- Between its two changes of the counter of users.
abbrev pub holds_user : Pc → Bool
holds_user entered = false
holds_user ip_counted = false
holds_user left_udp = false
holds_user done = false
holds_user _ = true

abbrev pub as_number : Bool → ℕ
as_number true = 1
as_number false = 0

abbrev pub ip_share : GoString → Proc → ℕ
ip_share key p = as_number (holds_ip p.pc && str_eq (ip_count_key p.user p.src_ip) key)

abbrev pub user_share : GoString → Proc → ℕ
user_share user p = as_number (holds_user p.pc && str_eq p.user user)

abbrev pub total : (Proc → ℕ) → List Proc → ℕ
total f [] = 0
total f (p ∷ ps) = f p + total f ps

-- What the counters hold beyond the connections of `ps` is `ips` and `users`.
pub record Counted (ips users : GoString → ℕ) (s : Shared) (ps : List Proc) : Type 0 where
  pub by_ip : (key : GoString) → count_of s.user_ip_count key ≡ ips key + total (ip_share key) ps
  pub by_user :
      (user : GoString) → count_of s.user_udp_count user ≡ users user + total (user_share user) ps

pub count_of-decr_user :
    (s : Shared) (k j : GoString)
    → count_of (decr_user s k).user_udp_count j
      ≡ (if str_eq k j then count_of s.user_udp_count j - 1 else count_of s.user_udp_count j)
unfolding decr_user
count_of-decr_user s k j = ground (arith, count_of-decr s.user_udp_count k j)

user_ip_count-decr_user :
    (s : Shared) (k : GoString) → (decr_user s k).user_ip_count ≡ s.user_ip_count
unfolding decr_user
user_ip_count-decr_user s k = ground arith

-- One step moves each counter by the change of the connection's share.
module _ (opts : Options) (env : Env) where
  ip_count-step_at :
      (pc : Pc) (s : Shared) (p : Proc) (key : GoString)
      → p.pc ≡ pc
      → ip_share key p ≤ count_of s.user_ip_count key
      → count_of (step_at opts env pc s p).0.user_ip_count key + ip_share key p
        ≡ count_of s.user_ip_count key + ip_share key (step_at opts env pc s p).1
  unfolding step_at
  ip_count-step_at entered s p key e h =
      ground (arith, count_of-incr s.user_ip_count (ip_count_key p.user p.src_ip) key)
  ip_count-step_at leaving s p key e h = ground (arith, user_ip_count-decr_user s p.user)
  ip_count-step_at left_udp s p key e h =
      ground (arith, count_of-decr s.user_ip_count (ip_count_key p.user p.src_ip) key)
  ip_count-step_at _ s p key e h = ground arith

  user_count-step_at :
      (pc : Pc) (s : Shared) (p : Proc) (user : GoString)
      → p.pc ≡ pc
      → user_share user p ≤ count_of s.user_udp_count user
      → count_of (step_at opts env pc s p).0.user_udp_count user + user_share user p
        ≡ count_of s.user_udp_count user + user_share user (step_at opts env pc s p).1
  unfolding step_at
  user_count-step_at ip_counted s p user e h =
      ground (arith, count_of-incr s.user_udp_count p.user user)
  user_count-step_at leaving s p user e h = ground (arith, count_of-decr_user s p.user user)
  user_count-step_at _ s p user e h = ground arith

  pub step-Counted :
      {ips users : GoString → ℕ} (s : Shared) (p : Proc) (ps : List Proc)
      → Counted ips users s (p ∷ ps)
      → Counted ips users (step opts env s p).0 ((step opts env s p).1 ∷ ps)
  unfolding step
  step-Counted s p ps v = record {
    by_ip = λ key.
        omega (arith, v.by_ip key, ip_count-step_at p.pc s p key refl (omega (arith, v.by_ip key)));
    by_user = λ user. omega (
      arith,
      v.by_user user,
      user_count-step_at p.pc s p user refl (omega (arith, v.by_user user)),
    );
  }

  step_in-Counted :
      (i : ℕ) {ips users : GoString → ℕ} (s : Shared) (ps : List Proc)
      → Counted ips users s ps
      → Counted ips users (step_in opts env i s ps).0 (step_in opts env i s ps).1
  step_in-Counted i s [] v = v
  step_in-Counted zero s (p ∷ ps) v = step-Counted s p ps v
  step_in-Counted (suc i) {ips} {users} s (p ∷ ps) v =
      let inner : Counted (λ k. ips k + ip_share k p) (λ u. users u + user_share u p) s ps =
        record {
          by_ip = λ key. omega (arith, v.by_ip key);
          by_user = λ user. omega (arith, v.by_user user);
        } in
      let w = step_in-Counted i s ps inner in
      record {
        by_ip = λ key. omega (arith, w.by_ip key);
        by_user = λ user. omega (arith, w.by_user user);
      }

run-Counted :
    (opts : Options) (schedule : List (ℕ × Env)) (w : World)
    → Counted (λ _. 0) (λ _. 0) w.shared w.procs
    → Counted (λ _. 0) (λ _. 0) (run opts schedule w).shared (run opts schedule w).procs
unfolding run
run-Counted opts [] w v = v
run-Counted opts ((i, env) ∷ rest) w v =
    run-Counted opts rest _ (step_in-Counted opts env i w.shared w.procs v)

total-IsFresh :
    (key user : GoString) (ps : List Proc)
    → IsFresh ps
    → (total (ip_share key) ps ≡ 0) × (total (user_share user) ps ≡ 0)
total-IsFresh key user [] f = (refl, refl)
total-IsFresh key user (p ∷ ps) (e, f) = let (a, b) = total-IsFresh key user ps f in ground arith

count_of-empty : (key : GoString) → count_of empty key ≡ 0
unfolding count_of
count_of-empty key = rw get-empty

pub fresh-Counted : (ps : List Proc) → IsFresh ps → Counted (λ _. 0) (λ _. 0) fresh_shared ps
fresh-Counted ps f = record {
  by_ip = λ key. omega (arith, count_of-empty key, (total-IsFresh key key ps f).0);
  by_user = λ user. omega (arith, count_of-empty user, (total-IsFresh user user ps f).1);
}

-- Start from connections that are about to begin.
abbrev pub start : List Proc → World
start ps = record { shared = fresh_shared; procs = ps }

-- In whatever order the connections make their steps, and whatever the environment answers, each
-- counter holds the number of connections that are between their first and their last change of
-- it: of one user and address for userIPCount, of one user for userUDPCount.
pub counters_exact :
    (opts : Options) (ps : List Proc) (schedule : List (ℕ × Env)) (key user : GoString)
    → IsFresh ps
    → let w = run opts schedule (start ps) in
      (count_of w.shared.user_ip_count key ≡ total (ip_share key) w.procs)
      × (count_of w.shared.user_udp_count user ≡ total (user_share user) w.procs)
counters_exact opts ps schedule key user f =
    let v = run-Counted opts schedule (start ps) (fresh-Counted ps f) in
    (omega (arith, v.by_ip key), omega (arith, v.by_user user))
