-- ===== src/Varbind/Bits/Table.antt =====
-- Bits of bytes, and what `|=` with one bit does to a byte.
use snmptrap_rs.Prelude.{
  ℕ, ◌+◌, ◌-◌, ◌*◌, ◌/◌, ◌%◌, ◌^◌, ◌<◌, bit_or, ◌≡◌, refl, ◌∙◌, sym, Bool, true, false, not, ◌&&◌,
  ◌||◌, List, [], ◌∷◌, arith, Bytes, get_or, ltb, ◌==◌,
}
use snmptrap_rs.Prelude.Bits.{passes_below, passes_below_at}

-- Bit `k` of a byte, counted from its high end.
abbrev pub byte_bit : ℕ → ℕ → Bool
byte_bit b k = b / 2 ^ (7 - k) % 2 == 1

-- Bit `q` of a string of bytes; beyond the end there is none.
abbrev pub bit_at : Bytes → ℕ → Bool
bit_at out q = byte_bit (get_or out (q / 8) 0) (q % 8)

abbrev pub contains : List ℕ → ℕ → Bool
contains [] q = false
contains (p ∷ ps) q = q == p || contains ps q

abbrev same : Bool → Bool → Bool
same true b = b
same false b = not b

same_eq : (a b : Bool) → same a b ≡ true → a ≡ b
same_eq a b h = ground arith

-- The table of all bytes and pairs of bits.
abbrev entry : ℕ → ℕ → ℕ → Bool
entry b j k =
    same (byte_bit (bit_or b (2 ^ (7 - j))) k) (k == j || byte_bit b k)
    && ltb (bit_or b (2 ^ (7 - j))) 256

or_table : passes_below (λ n. entry (n / 64) (n / 8 % 8) (n % 8)) 16384 ≡ true
unfolding passes_below
or_table = refl

entry_holds : (b j k : ℕ) → b < 256 → j < 8 → k < 8 → entry b j k ≡ true
entry_holds b j k hb hj hk =
    let n = b * 64 + j * 8 + k in
    let eb : n / 64 ≡ b = omega arith in
    let ej : n / 8 % 8 ≡ j = omega arith in
    let ek : n % 8 ≡ k = omega arith in
    (λ i. entry (sym eb i) (sym ej i) (sym ek i))
    ∙ passes_below_at (λ n. entry (n / 64) (n / 8 % 8) (n % 8)) 16384 or_table n (omega arith)

and_parts : (a b : Bool) → (a && b) ≡ true → (a ≡ true) × (b ≡ true)
and_parts a b h = ground arith

pub bit_or-bit :
    (b j k : ℕ)
    → b < 256
    → j < 8
    → k < 8
    → (byte_bit (bit_or b (2 ^ (7 - j))) k ≡ (k == j || byte_bit b k))
      × (bit_or b (2 ^ (7 - j)) < 256)
bit_or-bit b j k hb hj hk =
    let (s, l) = and_parts _ _ (entry_holds b j k hb hj hk) in (same_eq _ _ s, ground arith)
