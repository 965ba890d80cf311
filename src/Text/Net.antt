-- ===== src/Text/Net.antt =====
-- `Ipv4Addr`, its parser and its display.
pub mod RoundTrip
pub mod Range
use snmptrap_rs.Prelude.{
  ℕ, ◌-◌, ◌*◌, ◌+◌, ◌<◌, true, false, ◌&&◌, ◌||◌, List, [], ◌∷◌, ◌++◌, Option, none, some, length,
  ltb, leb, ◌==◌, if◌then◌else◌, all, Bytes, is_empty,
}
use snmptrap_rs.Text.Chars.{Str}
use snmptrap_rs.Text.Split.{split}
use snmptrap_rs.Text.Number.{is_digit, print}

pub record Ipv4Addr : Type 0 where
  pub a : ℕ
  pub b : ℕ
  pub c : ℕ
  pub d : ℕ

-- `octets`
abbrev pub octets : Ipv4Addr → Bytes
octets ip = ip.a ∷ ip.b ∷ ip.c ∷ ip.d ∷ []

abbrev pub IsAddr : Ipv4Addr → Type 0
IsAddr ip = (ip.a < 256) × (ip.b < 256) × (ip.c < 256) × (ip.d < 256)

value : Str → ℕ → ℕ
value [] n = n
value (c ∷ s) n = value s (n * 10 + (c - b'0'))

-- One to three digits, no leading zero but in "0", at most 255.
parse_octet : Str → Option ℕ
unfolding value is_digit
parse_octet [] = none
parse_octet (c ∷ s) =
    if leb (length (c ∷ s)) 3
      && (all is_digit (c ∷ s)
          && ((is_empty s || (if c == b'0' then false else true)) && ltb (value (c ∷ s) 0) 256))
    then some (value (c ∷ s) 0)
    else none

join4 : Option ℕ → Option ℕ → Option ℕ → Option ℕ → Option Ipv4Addr
join4 (some a) (some b) (some c) (some d) = some (record { a = a; b = b; c = c; d = d })
join4 _ _ _ _ = none

four : List Str → Option Ipv4Addr
unfolding parse_octet join4
four (a ∷ b ∷ c ∷ d ∷ []) = join4 (parse_octet a) (parse_octet b) (parse_octet c) (parse_octet d)
four _ = none

-- `parse::<Ipv4Addr>`
unfoldable pub parse_ipv4 : Str → Option Ipv4Addr
unfolding four split
parse_ipv4 s = four (split (λ c. c == b'.') s)

-- The display of an `Ipv4Addr`.
unfoldable pub show_ipv4 : Ipv4Addr → Str
show_ipv4 ip = print ip.a ++ (b'.' ∷ (print ip.b ++ (b'.' ∷ (print ip.c ++ (b'.' ∷ print ip.d)))))
