-- ===== src/Transport/Checksum.antt =====
-- `ip_checksum` of src/transport/raw.rs, against the one's complement sum of RFC 1071.
pub mod Laws
use snmptrap_rs.Prelude.{
  ℕ, zero, suc, ◌+◌, ◌-◌, ◌*◌, ◌/◌, ◌%◌, ◌^◌, List, [], ◌∷◌, Bytes, ltb, ◌==◌, if◌then◌else◌,
}
use snmptrap_rs.Prelude.Words.{from_be16}

-- The loop over the 16-bit words, an odd byte at the end being the high half of a word.
abbrev pub sum_words : Bytes → ℕ → ℕ
sum_words [] sum = sum
sum_words (a ∷ []) sum = (sum + a * 256) % 2 ^ 32
sum_words (a ∷ b ∷ data') sum = sum_words data' ((sum + from_be16 a b) % 2 ^ 32)

-- `while (sum >> 16) != 0`, for at most the given rounds.
abbrev pub fold_carry : ℕ → ℕ → ℕ
fold_carry zero sum = sum
fold_carry (suc rounds) sum =
    let next = fold_carry rounds (sum % 65536 + sum / 65536) in
    if sum / 65536 == 0 then sum else next

unfoldable pub ip_checksum : Bytes → ℕ
ip_checksum data' = 65535 - fold_carry 3 (sum_words data' 0) % 65536

-- One's complement addition of 16-bit words: a carry out of the top is added at the bottom.
abbrev pub add_carry : ℕ → ℕ → ℕ
add_carry a b = if ltb (a + b) 65536 then a + b else a + b - 65535

-- The one's complement sum of the words.
abbrev pub ones_sum : Bytes → ℕ
ones_sum [] = 0
ones_sum (a ∷ []) = a * 256
ones_sum (a ∷ b ∷ data') = add_carry (from_be16 a b) (ones_sum data')
