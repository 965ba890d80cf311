-- ===== src/Varbind/Bits/Laws.antt =====
-- The bytes of `parse_bits` have exactly the listed bits set.
use snmptrap_rs.Prelude.{
  ℕ, zero, suc, ◌+◌, ◌-◌, ◌/◌, ◌%◌, ◌^◌, ◌≤◌, ◌<◌, bit_or, ◌≡◌, ◌≢◌, refl, ◌∙◌, ap, sym, ◌⊎◌, inl,
  inr, Bool, true, false, ◌||◌, List, [], ◌∷◌, arith, ok, err, All, Bytes, length, length-replicate,
  replicate, get_or, is_empty, ltb, ◌==◌, if◌then◌else◌, ==_iff, ℕ_discrete,
}
use snmptrap_rs.Text.{Str, trim}
use snmptrap_rs.Errors.{BitsError, position_too_large}
use snmptrap_rs.Varbind.Bits.{
  max_bit_position, positions, maximum, or_at, set_bits, encode_bits, parse_bits,
}
use snmptrap_rs.Varbind.Bits.Table.{byte_bit, bit_at, contains, bit_or-bit}

-- `out[i] |= v` in bounds changes that byte alone.
or_at_lem :
    {E : Type 0} (out : Bytes) (i v : ℕ)
    → i < length out
    → (next : Bytes) × (or_at {E = E} out i v ≡ ok next)
      × (length next ≡ length out)
      × ((j : ℕ) → get_or next j 0 ≡ (if j == i then bit_or (get_or out j 0) v else get_or out j 0))
unfolding or_at
or_at_lem [] i v h = absurd (omega arith)
or_at_lem (b ∷ bs) zero v h = (bit_or b v ∷ bs, refl, refl, λ j. at j)
  where
    at :
        (j : ℕ)
        → get_or (bit_or b v ∷ bs) j 0
          ≡ (if j == 0 then bit_or (get_or (b ∷ bs) j 0) v else get_or (b ∷ bs) j 0)
    at zero = refl
    at (suc j) = ground arith
or_at_lem {E} (b ∷ bs) (suc i) v h =
    let (next, e, l, g) = or_at_lem {E = E} bs i v (omega arith) in
    (b ∷ next, rw e, ap suc l, λ j. at next g j)
  where
    at :
        (next : Bytes)
        → ((j : ℕ) → get_or next j 0 ≡ (if j == i then bit_or (get_or bs j 0) v else get_or bs j 0))
        → (j : ℕ)
        → get_or (b ∷ next) j 0
          ≡ (if j == suc i then bit_or (get_or (b ∷ bs) j 0) v else get_or (b ∷ bs) j 0)
    at next g zero = ground arith
    at next g (suc j) = ground (arith, g j)

-- Every byte of a string below 256, by index.
abbrev AreSmall : Bytes → Type 0
AreSmall out = (j : ℕ) → get_or out j 0 < 256

-- One round of the loop, from what `or_at` did.
module _ (p : ℕ) (out next : Bytes) (small : AreSmall out)
    (g : (j : ℕ)
      → get_or next j 0
        ≡ (if j == p / 8 then bit_or (get_or out j 0) (2 ^ (7 - p % 8)) else get_or out j 0)) where
  get_same : (j : ℕ) → j ≡ p / 8 → get_or next j 0 ≡ bit_or (get_or out j 0) (2 ^ (7 - p % 8))
  get_same j e = g j ∙ rw ((==_iff j (p / 8)).1 e)

  get_other : (j : ℕ) → j ≢ p / 8 → get_or next j 0 ≡ get_or out j 0
  get_other j ne = g j ∙ rw differs
    where
      differs : (j == p / 8) ≡ false
      differs = ground arith

  ℕ_cases : (a b : ℕ) → (a ≡ b) ⊎ (a ≢ b)
  ℕ_cases a b = elim (ℕ_discrete a b) [ yes e ↦ inl e | no n ↦ inr n ]

  AreSmall-step : AreSmall next
  AreSmall-step j = elim (ℕ_cases j (p / 8)) [
    | inl e ↦ rw (get_same j e) (bit_or-bit _ (p % 8) 0 (small j) (omega arith) (omega arith)).1
    | inr ne ↦ rw (get_other j ne) (small j)
  ]

  bit_at_step : (q : ℕ) → bit_at next q ≡ (q == p || bit_at out q)
  bit_at_step q = elim (ℕ_cases (q / 8) (p / 8)) [
    | inl e ↦
        ap (λ b. byte_bit b (q % 8)) (get_same (q / 8) e)
        ∙ (bit_or-bit _ (p % 8) (q % 8) (small (q / 8)) (omega arith) (omega arith)).0
        ∙ ap (λ t. t || bit_at out q) (tests e)
    | inr ne ↦
        ap (λ b. byte_bit b (q % 8)) (get_other (q / 8) ne)
        ∙ ap (λ t. t || bit_at out q) (sym (differs ne))
  ]
    where
      tests : q / 8 ≡ p / 8 → (q % 8 == p % 8) ≡ (q == p)
      tests e = ground arith

      differs : q / 8 ≢ p / 8 → (q == p) ≡ false
      differs ne = ground arith

in_range : (m n : ℕ) (ps : List ℕ) → m ≡ n → All (λ p. p / 8 < n) ps → All (λ p. p / 8 < m) ps
in_range m n ps e h = rw e h

set_bits-cons :
    {E : Type 0} (p : ℕ) (ps : List ℕ) (out : Bytes) {next last : Bytes}
    → or_at {E = E} out (p / 8) (2 ^ (7 - p % 8)) ≡ ok next
    → set_bits {E = E} next ps ≡ ok last
    → set_bits {E = E} out (p ∷ ps) ≡ ok last
unfolding set_bits
set_bits-cons p ps out h hs = rw (h, hs)

or_swap : (a b c : Bool) → (b || (a || c)) ≡ (a || b || c)
or_swap a b c = ground arith

set_bits_lem :
    {E : Type 0} (ps : List ℕ) (out : Bytes)
    → All (λ p. p / 8 < length out) ps
    → AreSmall out
    → (next : Bytes) × (set_bits {E = E} out ps ≡ ok next)
      × (length next ≡ length out)
      × ((q : ℕ) → bit_at next q ≡ (contains ps q || bit_at out q))
set_bits_lem [] out h small = (out, unfold set_bits in refl, refl, λ q. refl)
set_bits_lem {E} (p ∷ ps) out (hp, hs) small =
    let (next, e, l, g) = or_at_lem {E = E} out (p / 8) (2 ^ (7 - p % 8)) hp in
    let (last, e', l', g') =
      set_bits_lem {E = E} ps next (in_range _ _ ps l hs) (AreSmall-step p out next small g) in
    (
      last,
      set_bits-cons p ps out e e',
      l' ∙ l,
      λ q.
          g' q
          ∙ ap (λ t. contains ps q || t) (bit_at_step p out next small g q)
          ∙ or_swap (q == p) (contains ps q) (bit_at out q),
    )

replicate-zero : (n j : ℕ) → ◌≡◌ {A = ℕ} (get_or (replicate n 0) j 0) 0
replicate-zero zero j = refl
replicate-zero (suc n) zero = refl
replicate-zero (suc n) (suc j) = replicate-zero n j

AreSmall-replicate : (n : ℕ) → AreSmall (replicate n 0)
AreSmall-replicate n j = omega (arith, replicate-zero n j)

no_bit : (k : ℕ) → byte_bit 0 k ≡ false
no_bit k = ground arith

bit_at-replicate : (n q : ℕ) → bit_at (replicate n 0) q ≡ false
bit_at-replicate n q = ap (λ b. byte_bit b (q % 8)) (replicate-zero n (q / 8)) ∙ no_bit (q % 8)

below_maximum : (ps : List ℕ) (m : ℕ) → maximum ps ≤ m → All (λ p. p / 8 < m / 8 + 1) ps
unfolding maximum
below_maximum [] m h = tt
below_maximum (p ∷ ps) m h = (omega arith, below_maximum ps m (omega arith))

maximum-le : (ps : List ℕ) (m : ℕ) → All (λ p. p ≤ m) ps → maximum ps ≤ m
unfolding maximum
maximum-le [] m h = omega arith
maximum-le (p ∷ ps) m (hp, hs) = omega (arith, maximum-le ps m hs)

or_false : (b : Bool) → (b || false) ≡ b
or_false b = ground arith

encode_bits-cons :
    (p : ℕ) (ps : List ℕ) {out : Bytes}
    → maximum (p ∷ ps) ≤ max_bit_position
    → set_bits {E = BitsError} (replicate (maximum (p ∷ ps) / 8 + 1) 0) (p ∷ ps) ≡ ok out
    → encode_bits (p ∷ ps) ≡ ok out
unfolding encode_bits
encode_bits-cons p ps h e =
    let fits : ltb max_bit_position (maximum (p ∷ ps)) ≡ false = ground arith in rw (fits, e)

pub encode_bits_lem :
    (p : ℕ) (ps : List ℕ)
    → All (λ n. n ≤ max_bit_position) (p ∷ ps)
    → (out : Bytes) × (encode_bits (p ∷ ps) ≡ ok out)
      × (length out ≡ maximum (p ∷ ps) / 8 + 1)
      × ((q : ℕ) → bit_at out q ≡ contains (p ∷ ps) q)
encode_bits_lem p ps h =
    let m = maximum (p ∷ ps) in
    let n = m / 8 + 1 in
    let ranges = below_maximum (p ∷ ps) m (omega arith) in
    let (out, e, l, g) =
      set_bits_lem {E = BitsError} (p ∷ ps) (replicate n 0)
        (in_range _ _ (p ∷ ps) (length-replicate {A = ℕ} n 0) ranges) (AreSmall-replicate n) in
    (
      out,
      encode_bits-cons p ps (maximum-le (p ∷ ps) max_bit_position h) e,
      l ∙ length-replicate {A = ℕ} n 0,
      λ q.
          g q
          ∙ ap (λ t. contains (p ∷ ps) q || t) (bit_at-replicate n q)
          ∙ or_false (contains (p ∷ ps) q),
    )

parse_bits-encode :
    (raw : Str) (ps : List ℕ)
    → is_empty (trim raw) ≡ false
    → positions raw ≡ ok ps
    → parse_bits raw ≡ encode_bits ps
unfolding parse_bits
parse_bits-encode raw ps h e = rw (h, e)

-- A text that is not blank and whose pieces are numbers up to 65535, one at least, is parsed to
-- bytes: as many as the highest position needs, with the bits at the listed positions set, counted
-- from the high end of the first byte, and no other.
pub parse_bits-bit_at :
    (raw : Str) (p : ℕ) (ps : List ℕ)
    → is_empty (trim raw) ≡ false
    → positions raw ≡ ok (p ∷ ps)
    → All (λ n. n ≤ max_bit_position) (p ∷ ps)
    → (out : Bytes) × (parse_bits raw ≡ ok out)
      × (length out ≡ maximum (p ∷ ps) / 8 + 1)
      × ((q : ℕ) → bit_at out q ≡ contains (p ∷ ps) q)
parse_bits-bit_at raw p ps h e le =
    let (out, eo, l, g) = encode_bits_lem p ps le in (out, parse_bits-encode raw _ h e ∙ eo, l, g)

pub encode_bits_too_large :
    (p : ℕ) (ps : List ℕ)
    → max_bit_position < maximum (p ∷ ps)
    → encode_bits (p ∷ ps) ≡ err (position_too_large (maximum (p ∷ ps)))
unfolding encode_bits
encode_bits_too_large p ps h =
    let over : ltb max_bit_position (maximum (p ∷ ps)) ≡ true = ground arith in rw over

-- A position above 65535 refuses the whole text, before anything is allocated, and names the
-- highest position. The text is not blank and its pieces are numbers.
pub parse_bits_too_large :
    (raw : Str) (p : ℕ) (ps : List ℕ)
    → is_empty (trim raw) ≡ false
    → positions raw ≡ ok (p ∷ ps)
    → max_bit_position < maximum (p ∷ ps)
    → parse_bits raw ≡ err (position_too_large (maximum (p ∷ ps)))
parse_bits_too_large raw p ps h e gt = parse_bits-encode raw _ h e ∙ encode_bits_too_large p ps gt
