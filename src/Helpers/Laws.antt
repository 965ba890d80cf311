-- ===== src/Helpers/Laws.antt =====
-- The uptime that src/helpers.rs computes from two clocks, and panics in its queries.
use snmptrap_rs.Prelude.{
  ℕ, suc, ◌+◌, ◌-◌, ◌*◌, ◌/◌, ◌≤◌, ◌<◌, min, ◌≡◌, refl, ◌∙◌, ap, ◌⊎◌, inl, inr, arith, true, false,
  Outcome, ok, ◌>>=◌, >>=-eq-ok, subst, ok_or, map_err, keep, not, is_empty, ltb, leb,
}
use snmptrap_rs.Prelude.Int.{ℤ, pos, negsuc}
use snmptrap_rs.Prelude.Calm.{
  Calm, calm_rules, Calm-ok, Calm-err, Calm->>=, Calm-ok_or, Calm-map_err,
}
use snmptrap_rs.Text.{Str, is_whitespace}
use snmptrap_rs.Text.Split.{split}
use snmptrap_rs.Text.Number.{max_u32}
use snmptrap_rs.Errors.{IoError, custom, invalid_data, no_content, bad_float}
use snmptrap_rs.Cli.Agent.{SocketAddr, v4, v6}
use snmptrap_rs.Helpers.{
  TimeVal, Uptime, linux_file, macos_clocks, other_unix, difference, borrow, centiseconds,
  macos_uptime_centiseconds, linux_uptime_centiseconds, host_uptime_centiseconds, only_v4, first_of,
  egress_ipv4_for,
}

-- A time in microseconds.
abbrev pub micros : TimeVal → ℕ
micros t = t.tv_sec * 1000000 + t.tv_usec

order : (a b : ℕ) → (b ≤ a) ⊎ (a < b)
order a b = omega arith

difference_pos : (a b : ℕ) → b ≤ a → difference a b ≡ pos (a - b)
unfolding difference
difference_pos a b h = let t : leb b a ≡ true = ground arith in rw t

difference_neg : (a b : ℕ) → a < b → difference a b ≡ negsuc (b - a - 1)
unfolding difference
difference_neg a b h = let t : leb b a ≡ false = ground arith in rw t

-- The seconds are positive or zero, and the microseconds need no borrow.
centiseconds_pos :
    (n u : ℕ)
    → u < 1000000
    → centiseconds (borrow (pos n) (pos u)) ≡ min ((n * 1000000 + u) / 10000) max_u32
unfolding centiseconds borrow
centiseconds_pos n u h = omega arith

centiseconds-borrow :
    (n u : ℕ)
    → u < 1000000
    → centiseconds (borrow (pos (suc n)) (negsuc u))
      ≡ min ((n * 1000000 + (1000000 - u - 1)) / 10000) max_u32
unfolding centiseconds borrow
centiseconds-borrow n u h = let t : ltb u 1000000 ≡ true = ground arith in rw t (omega arith)

centiseconds_zero : (u : ℕ) → centiseconds (borrow (pos 0) (negsuc u)) ≡ 0
unfolding centiseconds borrow
centiseconds_zero u = refl

centiseconds_earlier : (n : ℕ) (u : ℤ) → centiseconds (borrow (negsuc n) u) ≡ 0
unfolding centiseconds borrow
centiseconds_earlier n (pos u) = refl
centiseconds_earlier n (negsuc u) = refl

clocks_lem :
    (s s' u u' : ℕ)
    → u < 1000000
    → u' < 1000000
    → centiseconds (borrow (difference s' s) (difference u' u))
      ≡ min ((s' * 1000000 + u' - (s * 1000000 + u)) / 10000) max_u32
clocks_lem s s' u u' hu hu' = elim (order s' s) [
  | inr earlier ↦
      rw (difference_neg s' s earlier)
        (centiseconds_earlier (s - s' - 1) (difference u' u) ∙ omega arith)
  | inl later ↦ elim (order u' u) [
    | inl plain ↦
        rw (difference_pos s' s later, difference_pos u' u plain)
          (centiseconds_pos (s' - s) (u' - u) (omega arith)
            ∙ ap (λ (t : ℕ). min (t / 10000) max_u32) (omega arith))
    | inr less ↦ elim (order s s') [
      | inl same ↦
          let e : s' - s ≡ 0 = omega arith in
          rw (difference_pos s' s later, difference_neg u' u less, e)
            (centiseconds_zero (u - u' - 1) ∙ omega arith)
      | inr more ↦
          let e : s' - s ≡ suc (s' - s - 1) = omega arith in
          rw (difference_pos s' s later, difference_neg u' u less, e)
            (centiseconds-borrow (s' - s - 1) (u - u' - 1) (omega arith)
              ∙ ap (λ (t : ℕ). min (t / 10000) max_u32) (omega arith))
    ]
  ]
]

-- On macOS the uptime is the time between the two clocks in whole hundredths of a second, at most
-- 2^32 - 1, and zero if the wall clock is behind the boot time: the borrow loses nothing and nothing
-- saturates. Both clocks have less than a million microseconds.
pub host_uptime_centiseconds-macos :
    {F : Type 0} (parse_f64 : Str → Outcome Str F) (centis : F → ℕ) (boot now : TimeVal)
    → boot.tv_usec < 1000000
    → now.tv_usec < 1000000
    → host_uptime_centiseconds parse_f64 centis (macos_clocks (ok boot) (ok now))
      ≡ ok (min ((micros now - micros boot) / 10000) max_u32)
unfolding host_uptime_centiseconds macos_uptime_centiseconds
host_uptime_centiseconds-macos parse_f64 centis boot now hb hn =
    ap ok (clocks_lem boot.tv_sec now.tv_sec boot.tv_usec now.tv_usec hb hn)

-- The answers of the system are results.
abbrev pub CalmUptime : Uptime → Type 0
CalmUptime (linux_file file) = Calm file
CalmUptime (macos_clocks boot now) = Calm boot × Calm now
CalmUptime other_unix = Unit

linux_uptime_centiseconds-Calm :
    {F : Type 0} (parse_f64 : Str → Outcome Str F) (centis : F → ℕ) (raw : Str)
    → ((s : Str) → Calm (parse_f64 s))
    → Calm (linux_uptime_centiseconds parse_f64 centis raw)
unfolding linux_uptime_centiseconds
linux_uptime_centiseconds-Calm parse_f64 centis raw p =
    Calm->>= _ _ (Calm-ok_or _ _)
      (λ first. Calm->>= _ _ (Calm-map_err _ _ (p first)) (λ secs. Calm-ok _))

pub host_uptime_centiseconds-Calm :
    {F : Type 0} (parse_f64 : Str → Outcome Str F) (centis : F → ℕ) (u : Uptime)
    → ((s : Str) → Calm (parse_f64 s))
    → CalmUptime u
    → Calm (host_uptime_centiseconds parse_f64 centis u)
unfolding host_uptime_centiseconds macos_uptime_centiseconds
host_uptime_centiseconds-Calm parse_f64 centis (linux_file file) p h =
    Calm->>= file _ h (λ raw. linux_uptime_centiseconds-Calm parse_f64 centis raw p)
host_uptime_centiseconds-Calm parse_f64 centis (macos_clocks boot now) p h =
    Calm->>= boot _ h.0 (λ boottime. Calm->>= now _ h.1 (λ t. Calm-ok _))
host_uptime_centiseconds-Calm parse_f64 centis other_unix p h = Calm-ok 0

only_v4-Calm : (addr : SocketAddr) → Calm (only_v4 addr)
only_v4-Calm (v4 addr port) = Calm-ok addr
only_v4-Calm v6 = Calm-err _

pub egress_ipv4_for-Calm :
    (bound connected : Outcome IoError (Unit {0})) (local : Outcome IoError SocketAddr)
    → Calm bound
    → Calm connected
    → Calm local
    → Calm (egress_ipv4_for bound connected local)
unfolding egress_ipv4_for
egress_ipv4_for-Calm bound connected local hb hc hl = search (calm_rules, only_v4-Calm)

centiseconds-le : (p : ℤ × ℤ) → centiseconds p ≤ max_u32
unfolding centiseconds
centiseconds-le (negsuc n, u) = omega arith
centiseconds-le (pos n, u) = omega arith

capped :
    {F : Type 0} (o : Outcome IoError Str) (parse : Str → Outcome IoError F) (centis : F → ℕ)
    {n : ℕ}
    → (do first ← o; secs ← parse first; ok (min (centis secs) max_u32)) ≡ ok n
    → n ≤ max_u32
capped o parse centis {n} h =
    let (first, e, h1) = >>=-eq-ok o _ h in
    let (secs, e1, h2) = >>=-eq-ok (parse first) _ h1 in
    let same : min (centis secs) max_u32 ≡ n = cc in omega (arith, same)

linux_uptime_centiseconds-le :
    {F : Type 0} (parse_f64 : Str → Outcome Str F) (centis : F → ℕ) (raw : Str) {n : ℕ}
    → linux_uptime_centiseconds parse_f64 centis raw ≡ ok n
    → n ≤ max_u32
unfolding linux_uptime_centiseconds
linux_uptime_centiseconds-le parse_f64 centis raw h =
    capped
      (ok_or (first_of (keep (λ w. not (is_empty w)) (split is_whitespace raw)))
        (custom invalid_data no_content))
      (λ first. map_err (λ e. custom invalid_data (bad_float e)) (parse_f64 first)) centis h

macos_uptime_centiseconds-le :
    (boot now : Outcome IoError TimeVal) {n : ℕ}
    → macos_uptime_centiseconds boot now ≡ ok n
    → n ≤ max_u32
unfolding macos_uptime_centiseconds
macos_uptime_centiseconds-le boot now {n} h =
    let (b, e, h1) = >>=-eq-ok boot _ h in
    let (t, e1, h2) = >>=-eq-ok now _ h1 in
    let same : centiseconds (borrow (difference t.tv_sec b.tv_sec) (difference t.tv_usec b.tv_usec))
        ≡ n =
      cc in
    subst (λ (m : ℕ). m ≤ max_u32) same (centiseconds-le _)

-- The uptime fits in 32 bits, whatever the system answers.
pub host_uptime_centiseconds-le :
    {F : Type 0} (parse_f64 : Str → Outcome Str F) (centis : F → ℕ) (u : Uptime) {n : ℕ}
    → host_uptime_centiseconds parse_f64 centis u ≡ ok n
    → n ≤ max_u32
unfolding host_uptime_centiseconds
host_uptime_centiseconds-le parse_f64 centis (linux_file file) h =
    let (raw, e, h1) = >>=-eq-ok file _ h in linux_uptime_centiseconds-le parse_f64 centis raw h1
host_uptime_centiseconds-le parse_f64 centis (macos_clocks boot now) h =
    macos_uptime_centiseconds-le boot now h
host_uptime_centiseconds-le parse_f64 centis other_unix {n} h =
    let same : ◌≡◌ {A = ℕ} 0 n = cc in omega (arith, same)
