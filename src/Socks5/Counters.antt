-- ===== src/Socks5/Counters.antt =====
-- ippop/api/socks5/useripcount.go and userudpcount.go: how many UDP associations there are, by user
-- and source address and by user. A counter of the program never passes 2^63.
use titan_tunnel.Prelude.{
  ℕ, ◌+◌, ◌-◌, Option, none, some, GoString, leb, if◌then◌else◌, ◌≡◌, arith, str_eq, str_eq_iff,
}
use titan_tunnel.Prelude.Maps.{GoMap, get, put, delete, get-delete, get-put, map_laws}

-- m[key], 0 where the key is missing
abbrev pub or_zero : Option ℕ → ℕ
or_zero none = 0
or_zero (some n) = n

unfoldable pub count_of : GoMap ℕ → GoString → ℕ
count_of m key = or_zero (get m key)

-- incr of either counter
unfoldable pub incr : GoMap ℕ → GoString → GoMap ℕ
unfolding count_of
incr m key = put m key (count_of m key + 1)

-- The value that decr computes: v - 1 if the key is there. The counters hold positive values.
abbrev pub decremented : Option ℕ → ℕ
decremented none = 0
decremented (some v) = v - 1

-- userIPCount.decr
unfoldable pub decr : GoMap ℕ → GoString → GoMap ℕ
decr m key = let v = decremented (get m key) in if leb v 0 then delete m key else put m key v

pub count_of-incr :
    (m : GoMap ℕ) (k j : GoString)
    → count_of (incr m k) j ≡ (if str_eq k j then count_of m j + 1 else count_of m j)
unfolding incr count_of
count_of-incr m k j = simp map_laws (ground (arith, str_eq_iff k j))

pub count_of-decr :
    (m : GoMap ℕ) (k j : GoString)
    → count_of (decr m k) j ≡ (if str_eq k j then count_of m j - 1 else count_of m j)
unfolding decr count_of
count_of-decr m k j =
    ground (arith, str_eq_iff k j, get-delete m k j, get-put m k j (decremented (get m k)))
