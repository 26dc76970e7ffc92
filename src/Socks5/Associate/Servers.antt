-- ===== src/Socks5/Associate/Servers.antt =====
-- The UDP servers of the users, ippop/api/socks5/socks5.go and userudpcount.go.
use titan_tunnel.Prelude.{
  ℕ, zero, suc, ◌+◌, ◌-◌, ◌≤◌, ◌<◌, List, [], ◌∷◌, none, GoString, Bool, true, false, leb,
  if◌then◌else◌, ◌≡◌, ◌≢◌, ◌&&◌, str_eq, str_eq_iff, arith, refl,
}
use titan_tunnel.Prelude.Maps.{get, get-empty, get-put, get-delete}
use titan_tunnel.Socks5.Counters.{count_of, count_of-incr}
use titan_tunnel.Socks5.Associate.{
  Shared, Pc, entered, ip_counted, udp_counted, created, serving, waiting, leaving, Proc, Env,
  Options, World, step_at, step, step_in, run, IsFresh, decr_user, stop_user_udp_server,
}
use titan_tunnel.Socks5.Associate.Counts.{
  as_number, ip_share, user_share, total, Counted, step-Counted, count_of-decr_user, start,
  fresh-Counted,
}

-- Has a server in hand that is to be, or was, announced to its client.
abbrev pub is_attached : Pc → Bool
is_attached (serving udp) = true
is_attached (waiting udp) = true
is_attached _ = false

abbrev pub attached_share : GoString → Proc → ℕ
attached_share user p = as_number (is_attached p.pc && str_eq p.user user)

attached_le :
    (user : GoString) (pc : Pc) (p : Proc) → p.pc ≡ pc → attached_share user p ≤ user_share user p
attached_le user entered p e = ground arith
attached_le user _ p e = ground arith

-- `rest` and `users` stand for the connections before `ps`.
record Served (ips users rest : GoString → ℕ) (s : Shared) (ps : List Proc) : Type 0 where
  counted : Counted ips users s ps
  within : (user : GoString) → rest user ≤ users user
  backed :
      (user : GoString) → count_of s.user_udp_count user ≡ 0 → get s.user_udp_servers user ≡ none
  attached :
      (user : GoString)
      → get s.user_udp_servers user ≡ none
      → rest user + total (attached_share user) ps ≡ 0

total_attached_le :
    (user : GoString) (ps : List Proc) → total (attached_share user) ps ≤ total (user_share user) ps
total_attached_le user [] = omega arith
total_attached_le user (p ∷ ps) =
    omega (arith, attached_le user p.pc p refl, total_attached_le user ps)

-- A server that is stopped is gone from the map; it is stopped when the count falls to 0.
get-decr_user :
    (s : Shared) (k j : GoString)
    → get (decr_user s k).user_udp_servers j ≡ (
        if str_eq k j
        then (if leb (count_of s.user_udp_count k - 1) 0 then none else get s.user_udp_servers j)
        else get s.user_udp_servers j)
unfolding decr_user stop_user_udp_server count_of
get-decr_user s k j = ground (arith, str_eq_iff k j, get-delete s.user_udp_servers k j)

module _ (opts : Options) (env : Env) where
  backed-step_at :
      (pc : Pc) (s : Shared) (p : Proc) (user : GoString)
      → p.pc ≡ pc
      → user_share user p ≤ count_of s.user_udp_count user
      → (count_of s.user_udp_count user ≡ 0 → get s.user_udp_servers user ≡ none)
      → count_of (step_at opts env pc s p).0.user_udp_count user ≡ 0
      → get (step_at opts env pc s p).0.user_udp_servers user ≡ none
  unfolding step_at
  backed-step_at ip_counted s p user e n h z =
      ground (arith, count_of-incr s.user_udp_count p.user user)
  backed-step_at (created udp) s p user e n h z =
      ground (arith, get-put s.user_udp_servers p.user user udp)
  backed-step_at leaving s p user e n h z =
      ground (
        arith,
        get-decr_user s p.user user,
        count_of-decr_user s p.user user,
        str_eq_iff p.user user,
      )
  backed-step_at _ s p user e n h z = ground arith

  -- `others` counts the attached connections beside `p`, `holders` those that are counted.
  attached-step_at :
      (pc : Pc) (s : Shared) (p : Proc) (user : GoString) (others holders : ℕ)
      → p.pc ≡ pc
      → others ≤ holders
      → count_of s.user_udp_count user ≡ holders + user_share user p
      → (get s.user_udp_servers user ≡ none → others + attached_share user p ≡ 0)
      → get (step_at opts env pc s p).0.user_udp_servers user ≡ none
      → others + attached_share user (step_at opts env pc s p).1 ≡ 0
  unfolding step_at
  attached-step_at udp_counted s p user o n e le c h g = ground (arith, str_eq_iff p.user user)
  attached-step_at (created udp) s p user o n e le c h g =
      ground (arith, get-put s.user_udp_servers p.user user udp)
  attached-step_at leaving s p user o n e le c h g =
      ground (arith, get-decr_user s p.user user, str_eq_iff p.user user)
  attached-step_at _ s p user o n e le c h g = ground arith

  step-Served :
      {ips users rest : GoString → ℕ} (s : Shared) (p : Proc) (ps : List Proc)
      → Served ips users rest s (p ∷ ps)
      → Served ips users rest (step opts env s p).0 ((step opts env s p).1 ∷ ps)
  unfolding step
  step-Served {ips} {users} {rest} s p ps v = record {
    counted = unfold step in step-Counted opts env s p ps v.counted;
    within = v.within;
    backed = λ user.
        backed-step_at p.pc s p user refl (omega (arith, v.counted.by_user user)) (v.backed user);
    attached = λ user g. omega (
      arith,
      attached-step_at p.pc s p user (rest user + total (attached_share user) ps)
          (users user + total (user_share user) ps) refl
          (omega (arith, v.within user, total_attached_le user ps))
          (omega (arith, v.counted.by_user user)) (λ h. omega (arith, v.attached user h)) g,
    );
  }

  step_in-Served :
      (i : ℕ) {ips users rest : GoString → ℕ} (s : Shared) (ps : List Proc)
      → Served ips users rest s ps
      → Served ips users rest (step_in opts env i s ps).0 (step_in opts env i s ps).1
  step_in-Served i s [] v = v
  step_in-Served zero s (p ∷ ps) v = step-Served s p ps v
  step_in-Served (suc i) {ips} {users} {rest} s (p ∷ ps) v =
      let inner : Served (λ k. ips k + ip_share k p) (λ u. users u + user_share u p)
          (λ u. rest u + attached_share u p) s ps =
        record {
          counted = record {
            by_ip = λ key. omega (arith, v.counted.by_ip key);
            by_user = λ user. omega (arith, v.counted.by_user user);
          };
          within = λ user. omega (arith, v.within user, attached_le user p.pc p refl);
          backed = v.backed;
          attached = λ user g. omega (arith, v.attached user g);
        } in
      let w = step_in-Served i s ps inner in
      record {
        counted = record {
          by_ip = λ key. omega (arith, w.counted.by_ip key);
          by_user = λ user. omega (arith, w.counted.by_user user);
        };
        within = v.within;
        backed = w.backed;
        attached = λ user g. omega (arith, w.attached user g);
      }

abbrev AllServed : World → Type 0
AllServed w = Served (λ _. 0) (λ _. 0) (λ _. 0) w.shared w.procs

run-Served :
    (opts : Options) (schedule : List (ℕ × Env)) (w : World)
    → AllServed w
    → AllServed (run opts schedule w)
unfolding run
run-Served opts [] w v = v
run-Served opts ((i, env) ∷ rest) w v =
    run-Served opts rest _ (step_in-Served opts env i w.shared w.procs v)

total_attached-IsFresh :
    (user : GoString) (ps : List Proc) → IsFresh ps → total (attached_share user) ps ≡ 0
total_attached-IsFresh user [] f = refl
total_attached-IsFresh user (p ∷ ps) (e, f) = ground (arith, total_attached-IsFresh user ps f)

fresh-Served : (ps : List Proc) → IsFresh ps → AllServed (start ps)
fresh-Served ps f = record {
  counted = fresh-Counted ps f;
  within = λ user. omega arith;
  backed = λ user _. get-empty user;
  attached = λ user _. omega (arith, total_attached-IsFresh user ps f);
}

-- In whatever order the connections make their steps: while a connection of the user has a server
-- to announce or to wait with, the user has a server in the map.
pub server_kept :
    (opts : Options) (ps : List Proc) (schedule : List (ℕ × Env)) (user : GoString)
    → IsFresh ps
    → 0 < total (attached_share user) (run opts schedule (start ps)).procs
    → get (run opts schedule (start ps)).shared.user_udp_servers user ≢ none
server_kept opts ps schedule user f some_wait g =
    let v = run-Served opts schedule (start ps) (fresh-Served ps f) in
    absurd (omega (arith, v.attached user g))

-- In whatever order the connections make their steps: a user none of whose connections is counted
-- has no UDP server in the map.
pub server_gone :
    (opts : Options) (ps : List Proc) (schedule : List (ℕ × Env)) (user : GoString)
    → IsFresh ps
    → total (user_share user) (run opts schedule (start ps)).procs ≡ 0
    → get (run opts schedule (start ps)).shared.user_udp_servers user ≡ none
server_gone opts ps schedule user f z =
    let v = run-Served opts schedule (start ps) (fresh-Served ps f) in
    v.backed user (omega (arith, v.counted.by_user user))
