-- ===== src/Engine/Parse/Laws.antt =====
-- What `parse_user_input` accepts, and the hex text that it reads back.
use snmptrap_rs.Prelude.{
  ℕ, ◌+◌, ◌*◌, ◌/◌, ◌%◌, ◌≤◌, ◌<◌, ◌≡◌, refl, ◌∙◌, sym, subst, ◌⊎◌, inl, inr, true, [], ◌∷◌, arith,
  Outcome, ok, err, panic, ◌>>=◌, Bytes, AreBytes, length, ◌==◌, ==_iff,
}
use snmptrap_rs.Prelude.Bits.{passes_below, passes_below_at}
use snmptrap_rs.Text.{Str, as_bytes, str_len}
use snmptrap_rs.Text.Hex.{hex_char}
use snmptrap_rs.Errors.{EngineIdParseError, too_long, bad_hex}
use snmptrap_rs.Engine.Id.{EngineId, IsEngineId, min_engine_id, max_engine_id}
use snmptrap_rs.Engine.Parse.{
  decode_hex_nibble, join_nibbles, decode_pairs, cleaned, decode_id, parse_user_input,
}

nibbles_table : passes_below (λ n. join_nibbles (n / 16) (n % 16) == n) 256 ≡ true
unfolding passes_below
nibbles_table = refl

pub join_nibbles_lem : (hi lo : ℕ) → hi < 16 → lo < 16 → join_nibbles hi lo ≡ hi * 16 + lo
join_nibbles_lem hi lo h l =
    let n = hi * 16 + lo in
    let eh : n / 16 ≡ hi = omega arith in
    let el : n % 16 ≡ lo = omega arith in
    (λ i. join_nibbles (sym eh i) (sym el i))
    ∙ (==_iff _ n).0 (
        passes_below_at (λ n. join_nibbles (n / 16) (n % 16) == n) 256 nibbles_table n
          (omega arith))

pub decode_hex_nibble-lt : (b : ℕ) {n : ℕ} → decode_hex_nibble b ≡ ok n → n < 16
unfolding decode_hex_nibble
decode_hex_nibble-lt b h = ground arith

pub decode_hex_nibble-hex_char : (n : ℕ) → n < 16 → decode_hex_nibble (hex_char n) ≡ ok n
unfolding decode_hex_nibble hex_char
decode_hex_nibble-hex_char n h = ground arith

pairs_step :
    (x y : Outcome EngineIdParseError ℕ) (r : Outcome EngineIdParseError Bytes) {out : Bytes}
    → (do hi ← x; lo ← y; rest ← r; ok (join_nibbles hi lo ∷ rest)) ≡ ok out
    → (hi : ℕ) × (lo : ℕ) × (rest : Bytes) × (x ≡ ok hi)
      × (y ≡ ok lo)
      × (r ≡ ok rest)
      × (join_nibbles hi lo ∷ rest ≡ out)
pairs_step (ok hi) (ok lo) (ok rest) h = (hi, lo, rest, refl, refl, refl, cc)
pairs_step (ok hi) (ok lo) (err e) h = cc
pairs_step (ok hi) (ok lo) panic h = cc
pairs_step (ok hi) (err e) r h = cc
pairs_step (ok hi) panic r h = cc
pairs_step (err e) y r h = cc
pairs_step panic y r h = cc

-- The decoded bytes: half as many as digits.
abbrev Decoded : Bytes → Bytes → Type 0
Decoded s out = AreBytes out × (length out ≡ length s / 2)

decode_pairs-Decoded : (s out : Bytes) → decode_pairs s ≡ ok out → Decoded s out
unfolding decode_pairs
decode_pairs-Decoded [] out h = ground arith
decode_pairs-Decoded (a ∷ []) out h = ground arith
decode_pairs-Decoded (a ∷ b ∷ s) out h =
    let (hi, lo, rest, ha, hb, hr, e) =
      pairs_step (decode_hex_nibble a) (decode_hex_nibble b) (decode_pairs s) h in
    let (small, len) = decode_pairs-Decoded s rest hr in
    let bound = join_nibbles_lem hi lo (decode_hex_nibble-lt a ha) (decode_hex_nibble-lt b hb) in
    let lt_hi = decode_hex_nibble-lt a ha in
    let lt_lo = decode_hex_nibble-lt b hb in
    subst (Decoded (a ∷ b ∷ s)) e ((omega arith, small), omega arith)

decode_id_run :
    (s : Str) (d : Outcome EngineIdParseError Bytes) {eid : EngineId}
    → decode_pairs (as_bytes s) ≡ d
    → decode_id s ≡ ok eid
    → (decode_pairs (as_bytes s) ≡ ok eid.bytes)
      × (min_engine_id ≤ length eid.bytes)
      × (length eid.bytes ≤ max_engine_id)
unfolding decode_id
decode_id_run s d e h = ground arith

-- An accepted text gives an identifier of 5 to 32 octets.
pub parse_user_input-IsEngineId :
    (s : Str) (eid : EngineId) → parse_user_input s ≡ ok eid → IsEngineId eid
unfolding parse_user_input
parse_user_input-IsEngineId s eid h =
    let (e, lo, hi) = decode_id_run (cleaned s) _ refl h in
    record {
      min_len = lo;
      max_len = hi;
      octets = (decode_pairs-Decoded (as_bytes (cleaned s)) eid.bytes e).0;
    }

decode_hex_nibble-err :
    (b : ℕ) {e : EngineIdParseError} → decode_hex_nibble b ≡ err e → e ≡ bad_hex b
unfolding decode_hex_nibble
decode_hex_nibble-err b h = ground arith

pairs_err :
    (x y : Outcome EngineIdParseError ℕ) (r : Outcome EngineIdParseError Bytes)
    {e : EngineIdParseError}
    → (do hi ← x; lo ← y; rest ← r; ok (join_nibbles hi lo ∷ rest)) ≡ err e
    → (x ≡ err e) ⊎ ((y ≡ err e) ⊎ (r ≡ err e))
pairs_err (ok hi) (ok lo) (ok rest) h = cc
pairs_err (ok hi) (ok lo) (err e) h = inr (inr cc)
pairs_err (ok hi) (ok lo) panic h = cc
pairs_err (ok hi) (err e) r h = inr (inl cc)
pairs_err (ok hi) panic r h = cc
pairs_err (err e) y r h = inl cc
pairs_err panic y r h = cc

decode_pairs-err :
    (s : Bytes) (e : EngineIdParseError) → decode_pairs s ≡ err e → (b : ℕ) × (e ≡ bad_hex b)
unfolding decode_pairs
decode_pairs-err [] e h = cc
decode_pairs-err (a ∷ []) e h = cc
decode_pairs-err (a ∷ b ∷ s) e h =
    elim (pairs_err (decode_hex_nibble a) (decode_hex_nibble b) (decode_pairs s) h) [
      | inl ha ↦ (a, decode_hex_nibble-err a ha)
      | inr (inl hb) ↦ (b, decode_hex_nibble-err b hb)
      | inr (inr hs) ↦ decode_pairs-err s e hs
    ]

decode_id_too_long :
    (s : Str) (d : Outcome EngineIdParseError Bytes) (n m : ℕ)
    → decode_pairs (as_bytes s) ≡ d
    → decode_id s ≡ err (too_long n m)
    → (64 < str_len s) × (n ≡ str_len s / 2) × (m ≡ max_engine_id)
unfolding decode_id
decode_id_too_long s (ok bs) n m e h =
    let (_, len) = decode_pairs-Decoded (as_bytes s) bs e in ground arith
decode_id_too_long s (err x) n m e h =
    let (b, hb) = decode_pairs-err (as_bytes s) x e in ground arith
decode_id_too_long s panic n m e h = ground arith

-- A refusal as too long comes from the check before the decoding: there are more than 64 digits. The
-- check after the decoding refuses nothing more.
pub parse_user_input_too_long :
    (s : Str) (n m : ℕ)
    → parse_user_input s ≡ err (too_long n m)
    → (64 < str_len (cleaned s)) × (n ≡ str_len (cleaned s) / 2) × (m ≡ max_engine_id)
unfolding parse_user_input
parse_user_input_too_long s n m h = decode_id_too_long (cleaned s) _ n m refl h
