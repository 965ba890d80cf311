-- ===== src/Helpers.antt =====
-- The host queries of src/helpers.rs. What the system calls and files answer, and the floating-point
-- parser, are parameters.
pub mod Laws
use snmptrap_rs.Prelude.{
  ℕ, zero, suc, ◌+◌, ◌-◌, ◌*◌, ◌/◌, ◌^◌, min, Bool, true, false, not, List, [], ◌∷◌, Option, none,
  some, Outcome, ok, err, panic, ◌>>=◌, map_err, ok_or, ltb, leb, if◌then◌else◌, is_empty, keep,
}
use snmptrap_rs.Prelude.Int.{ℤ, pos, negsuc}
use snmptrap_rs.Text.{Str, is_whitespace}
use snmptrap_rs.Text.Split.{split}
use snmptrap_rs.Text.Net.{Ipv4Addr}
use snmptrap_rs.Text.Number.{max_u32, max_u64}
use snmptrap_rs.Errors.{
  IoError, custom, addr_not_available, invalid_data, ipv6_source, no_content, bad_float,
}
use snmptrap_rs.Cli.Agent.{SocketAddr, v4, v6}

-- `timeval`, of a time after 1970.
pub record TimeVal : Type 0 where
  pub tv_sec : ℕ
  pub tv_usec : ℕ

-- The answers of the system: the file and the parser on Linux, the two clocks on macOS.
pub data Uptime : Type 0 where
  linux_file : Outcome IoError Str → Uptime
  macos_clocks : Outcome IoError TimeVal → Outcome IoError TimeVal → Uptime
  other_unix : Uptime

-- A difference of `i64`s.
unfoldable pub difference : ℕ → ℕ → ℤ
difference a b = if leb b a then pos (a - b) else negsuc (b - a - 1)

unfoldable pub less_one : ℤ → ℤ
less_one (pos zero) = negsuc 0
less_one (pos (suc n)) = pos n
less_one (negsuc n) = negsuc (suc n)

-- `+= 1_000_000`
unfoldable pub plus_million : ℤ → ℤ
plus_million (pos n) = pos (n + 1000000)
plus_million (negsuc n) = if ltb n 1000000 then pos (1000000 - n - 1) else negsuc (n - 1000000)

-- `as u64`, which wraps around.
unfoldable pub as_u64 : ℤ → ℕ
as_u64 (pos n) = n
as_u64 (negsuc n) = 2 ^ 64 - (n + 1)

-- The carry of a negative difference of microseconds into the seconds.
unfoldable pub borrow : ℤ → ℤ → ℤ × ℤ
unfolding less_one plus_million
borrow secs (pos n) = (secs, pos n)
borrow secs (negsuc n) = (less_one secs, plus_million (negsuc n))

-- Hundredths of a second, the sum and the product saturating.
unfoldable pub centiseconds : ℤ × ℤ → ℕ
unfolding as_u64
centiseconds (negsuc n, usecs) = 0
centiseconds (pos n, usecs) =
    let total_us = min (min (n * 1000000) max_u64 + as_u64 usecs) max_u64 in
    min (total_us / 10000) max_u32

unfoldable pub macos_uptime_centiseconds :
    Outcome IoError TimeVal → Outcome IoError TimeVal → Outcome IoError ℕ
unfolding difference borrow centiseconds
macos_uptime_centiseconds boot_answer now_answer = do
  boottime ← boot_answer
  now ← now_answer
  ok (
      centiseconds
        (borrow (difference now.tv_sec boottime.tv_sec) (difference now.tv_usec boottime.tv_usec)))

-- `split_whitespace().next()`
abbrev pub first_of : List Str → Option Str
first_of [] = none
first_of (w ∷ ws) = some w

module _ {F : Type 0} (parse_f64 : Str → Outcome Str F) (hundredfold_as_u64 : F → ℕ) where
  unfoldable pub linux_uptime_centiseconds : Str → Outcome IoError ℕ
  unfolding split keep
  linux_uptime_centiseconds raw = do
    first ←
        ok_or (first_of (keep (λ w. not (is_empty w)) (split is_whitespace raw)))
          (custom invalid_data no_content)
    secs ← map_err (λ e. custom invalid_data (bad_float e)) (parse_f64 first)
    ok (min (hundredfold_as_u64 secs) max_u32)

  unfoldable pub host_uptime_centiseconds : Uptime → Outcome IoError ℕ
  host_uptime_centiseconds (linux_file file) = file >>= λ raw. linux_uptime_centiseconds raw
  host_uptime_centiseconds (macos_clocks boot now) = macos_uptime_centiseconds boot now
  host_uptime_centiseconds other_unix = ok 0

abbrev pub only_v4 : SocketAddr → Outcome IoError Ipv4Addr
only_v4 (v4 addr port) = ok addr
only_v4 v6 = err (custom addr_not_available ipv6_source)

-- The answers of `bind`, of `connect` and of `local_addr`.
unfoldable pub egress_ipv4_for :
    Outcome IoError (Unit {0})
    → Outcome IoError (Unit {0})
    → Outcome IoError SocketAddr
    → Outcome IoError Ipv4Addr
egress_ipv4_for bound connected local = do
  sock ← bound
  done ← connected
  addr ← local
  only_v4 addr
