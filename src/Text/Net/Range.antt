-- ===== src/Text/Net/Range.antt =====
-- The range of the addresses that `parse::<Ipv4Addr>` reads.
use snmptrap_rs.Prelude.{ℕ, ◌<◌, ◌≡◌, refl, arith, [], ◌∷◌, List, Option, none, some, ◌==◌, subst}
use snmptrap_rs.Text.Chars.{Str}
use snmptrap_rs.Text.Split.{split}
use snmptrap_rs.Text.Net.{Ipv4Addr, IsAddr, parse_octet, join4, four, parse_ipv4}

parse_octet_range : (s : Str) {n : ℕ} → parse_octet s ≡ some n → n < 256
unfolding parse_octet
parse_octet_range [] e = cc
parse_octet_range (c ∷ s) e = ground arith

some_inj : (p q : Ipv4Addr) → some p ≡ some q → p ≡ q
some_inj p q e = cc

join4-IsAddr :
    (a b c d : Option ℕ) {ip : Ipv4Addr}
    → ((n : ℕ) → a ≡ some n → n < 256)
    → ((n : ℕ) → b ≡ some n → n < 256)
    → ((n : ℕ) → c ≡ some n → n < 256)
    → ((n : ℕ) → d ≡ some n → n < 256)
    → join4 a b c d ≡ some ip
    → IsAddr ip
unfolding join4
join4-IsAddr (some a) (some b) (some c) (some d) ha hb hc hd e =
    subst IsAddr (some_inj _ _ e) (ha a refl, hb b refl, hc c refl, hd d refl)
join4-IsAddr none b c d ha hb hc hd e = cc
join4-IsAddr (some a) none c d ha hb hc hd e = cc
join4-IsAddr (some a) (some b) none d ha hb hc hd e = cc
join4-IsAddr (some a) (some b) (some c) none ha hb hc hd e = cc

four-IsAddr : (parts : List Str) {ip : Ipv4Addr} → four parts ≡ some ip → IsAddr ip
unfolding four
four-IsAddr [] e = cc
four-IsAddr (a ∷ []) e = cc
four-IsAddr (a ∷ b ∷ []) e = cc
four-IsAddr (a ∷ b ∷ c ∷ []) e = cc
four-IsAddr (a ∷ b ∷ c ∷ d ∷ []) e =
    join4-IsAddr (parse_octet a) (parse_octet b) (parse_octet c) (parse_octet d)
      (λ n. parse_octet_range a) (λ n. parse_octet_range b) (λ n. parse_octet_range c)
      (λ n. parse_octet_range d) e
four-IsAddr (a ∷ b ∷ c ∷ d ∷ f ∷ rest) e = cc

-- An address that is read has octets below 256.
pub parse_ipv4-IsAddr : (s : Str) {ip : Ipv4Addr} → parse_ipv4 s ≡ some ip → IsAddr ip
unfolding parse_ipv4
parse_ipv4-IsAddr s e = four-IsAddr (split (λ c. c == b'.') s) e
