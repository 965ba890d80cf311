-- ===== src/Text/Net/RoundTrip.antt =====
-- The display of an `Ipv4Addr` and its parser.
use snmptrap_rs.Prelude.{
  ℕ, ◌<◌, ◌≡◌, refl, ◌∙◌, ap, arith, Bool, true, false, List, [], ◌∷◌, ◌++◌, Option, none, some,
  All, ◌==◌, ==_iff,
}
use snmptrap_rs.Prelude.Bits.{passes_below, passes_below_at}
use snmptrap_rs.Text.Chars.{Str}
use snmptrap_rs.Text.Split.{split, split-append, split_single}
use snmptrap_rs.Text.Number.{print, print-IsDigit, IsDigit}
use snmptrap_rs.Text.Net.{Ipv4Addr, IsAddr, parse_octet, join4, four, parse_ipv4, show_ipv4}

is_it : Option ℕ → ℕ → Bool
is_it none n = false
is_it (some m) n = m == n

is_it_lem : (o : Option ℕ) (n : ℕ) → is_it o n ≡ true → o ≡ some n
unfolding is_it
is_it_lem none n h = cc
is_it_lem (some m) n h = ap some ((==_iff m n).0 h)

octets_table : passes_below (λ n. is_it (parse_octet (print n)) n) 256 ≡ true
unfolding passes_below is_it parse_octet print
octets_table = refl

parse_octet-print : (n : ℕ) → n < 256 → parse_octet (print n) ≡ some n
parse_octet-print n h =
    is_it_lem _ n (passes_below_at (λ n. is_it (parse_octet (print n)) n) 256 octets_table n h)

no_dot : (s : Str) → All IsDigit s → All (λ c. (c == b'.') ≡ false) s
no_dot [] h = tt
no_dot (c ∷ s) (hc, h) = (ground arith, no_dot s h)

split-print :
    (n : ℕ) (s : Str)
    → split (λ c. c == b'.') (print n ++ b'.' ∷ s) ≡ print n ∷ split (λ c. c == b'.') s
split-print n s =
    split-append (λ c. c == b'.') (print n) b'.' s (no_dot (print n) (print-IsDigit n)) refl

split-show_ipv4 :
    (ip : Ipv4Addr)
    → split (λ c. c == b'.') (show_ipv4 ip) ≡ print ip.a ∷ print ip.b ∷ print ip.c ∷ print ip.d ∷ []
unfolding show_ipv4
split-show_ipv4 ip =
    let last =
      split_single (λ c. c == b'.') (print ip.d) (no_dot (print ip.d) (print-IsDigit ip.d)) in
    split-print ip.a _
    ∙ ap (λ (r : List Str). print ip.a ∷ r)
        (split-print ip.b _
          ∙ ap (λ (r : List Str). print ip.b ∷ r)
              (split-print ip.c _ ∙ ap (λ (r : List Str). print ip.c ∷ r) last))

-- Every address is read back from its display.
pub parse_ipv4-show_ipv4 : (ip : Ipv4Addr) → IsAddr ip → parse_ipv4 (show_ipv4 ip) ≡ some ip
unfolding parse_ipv4 four join4
parse_ipv4-show_ipv4 ip (a, b, c, d) = rw (
  split-show_ipv4 ip,
  parse_octet-print ip.a a,
  parse_octet-print ip.b b,
  parse_octet-print ip.c c,
  parse_octet-print ip.d d,
)
