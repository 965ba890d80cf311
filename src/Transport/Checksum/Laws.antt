-- ===== src/Transport/Checksum/Laws.antt =====
-- The checksum is the complement of the one's complement sum.
use snmptrap_rs.Prelude.{
  ℕ, ◌+◌, ◌-◌, ◌*◌, ◌%◌, ◌^◌, ◌≤◌, ◌<◌, ◌≡◌, refl, sym, ◌∙◌, ap, [], ◌∷◌, arith, Bytes, AreBytes,
  length, ◌==◌, if◌then◌else◌,
}
use snmptrap_rs.Prelude.Words.{from_be16}
use snmptrap_rs.Transport.Checksum.{sum_words, fold_carry, ip_checksum, add_carry, ones_sum}

-- The sum of the words, without a bound.
abbrev pub total : Bytes → ℕ
total [] = 0
total (a ∷ []) = a * 256
total (a ∷ b ∷ data') = from_be16 a b + total data'

-- The representative in 0 … 65535 of a sum: 0 stands for 0 alone.
abbrev pub canonical : ℕ → ℕ
canonical n = if n == 0 then 0 else (n - 1) % 65535 + 1

pub fold_carry-canonical : (n : ℕ) → n < 2 ^ 32 → fold_carry 3 n ≡ canonical n
fold_carry-canonical n h = ground arith

pub total-le : (d : Bytes) → AreBytes d → 2 * total d ≤ 65535 * (length d + 1)
total-le [] h = omega arith
total-le (a ∷ []) h = omega arith
total-le (a ∷ b ∷ d) h = omega (arith, total-le d h.1.1)

sum_words-total : (d : Bytes) (n : ℕ) → n + total d < 2 ^ 32 → sum_words d n ≡ n + total d
sum_words-total [] n h = omega arith
sum_words-total (a ∷ []) n h = omega arith
sum_words-total (a ∷ b ∷ d) n h =
    let small : (n + from_be16 a b) % 2 ^ 32 ≡ n + from_be16 a b = omega arith in
    rw small (sum_words-total d (n + from_be16 a b) (omega arith) ∙ omega arith)

add_carry-canonical : (a n : ℕ) → a < 65536 → add_carry a (canonical n) ≡ canonical (a + n)
add_carry-canonical a n h = ground arith

pub ones_sum-canonical : (d : Bytes) → AreBytes d → ones_sum d ≡ canonical (total d)
ones_sum-canonical [] h = refl
ones_sum-canonical (a ∷ []) h = ground arith
ones_sum-canonical (a ∷ b ∷ d) h =
    ap (add_carry (from_be16 a b)) (ones_sum-canonical d h.1.1)
    ∙ add_carry-canonical (from_be16 a b) (total d) (omega arith)

pub ip_checksum-total : (d : Bytes) → total d < 2 ^ 32 → ip_checksum d ≡ 65535 - canonical (total d)
unfolding ip_checksum
ip_checksum-total d h =
    let whole : sum_words d 0 ≡ total d = sum_words-total d 0 (omega arith) ∙ omega arith in
    ap (λ n. 65535 - fold_carry 3 n % 65536) whole
    ∙ ap (λ n. 65535 - n % 65536) (fold_carry-canonical (total d) h)
    ∙ within (total d)
  where
    within : (n : ℕ) → 65535 - canonical n % 65536 ≡ 65535 - canonical n
    within n = ground arith

-- Up to 131070 bytes the sum does not wrap around.
pub total_bound : (d : Bytes) → AreBytes d → length d ≤ 131070 → total d < 2 ^ 32
total_bound d h l = omega (arith, total-le d h)

-- For up to 131070 bytes the deferred carries give the complement of the one's complement sum of the
-- 16-bit words, an odd byte at the end being padded by zero: no carry is lost, and three rounds
-- of folding are enough.
pub ip_checksum-ones_sum :
    (d : Bytes) → AreBytes d → length d ≤ 131070 → ip_checksum d ≡ 65535 - ones_sum d
ip_checksum-ones_sum d h l =
    ip_checksum-total d (total_bound d h l) ∙ ap (λ n. 65535 - n) (sym (ones_sum-canonical d h))

-- Writing the complement of the sum into a field that held zero makes the checksum of the whole
-- zero.
pub verifies :
    (before n : ℕ) → 0 < before → n ≡ before + (65535 - canonical before) → canonical n ≡ 65535
verifies before n h e = ground arith
