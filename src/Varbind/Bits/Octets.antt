-- ===== src/Varbind/Bits/Octets.antt =====
-- The octets that `parse_bits` of src/varbind.rs returns.
use snmptrap_rs.Prelude.{
  ℕ, zero, suc, ◌+◌, ◌-◌, ◌/◌, ◌%◌, ◌^◌, ◌≡◌, subst, arith, inl, inr, Bool-cases, List, [], ◌∷◌,
  Outcome, ok, ◌>>=◌, >>=-eq-ok, map_err, reject_if, Bytes, AreBytes, replicate, ltb, is_empty,
  bit_or,
}
use snmptrap_rs.Text.{Str, trim}
use snmptrap_rs.Errors.{BitsError, bad_positions, position_too_large}
use snmptrap_rs.Varbind.Bits.{
  max_bit_position, positions, maximum, or_at, set_bits, encode_bits, parse_bits,
}
use snmptrap_rs.Varbind.Bits.Table.{bit_or-bit}

or_at-AreBytes :
    {E : Type 0} (bs : Bytes) (i p : ℕ) {next : Bytes}
    → AreBytes bs
    → or_at {E = E} bs i (2 ^ (7 - p % 8)) ≡ ok next
    → AreBytes next
unfolding or_at
or_at-AreBytes [] i p h e = cc
or_at-AreBytes (b ∷ bs) zero p {next} (hb, hs) e =
    let same : bit_or b (2 ^ (7 - p % 8)) ∷ bs ≡ next = cc in
    subst AreBytes same ((bit_or-bit b (p % 8) 0 hb (omega arith) (omega arith)).1, hs)
or_at-AreBytes {E} (b ∷ bs) (suc i) p {next} (hb, hs) e =
    let (rest, er, eq) = >>=-eq-ok (or_at {E = E} bs i (2 ^ (7 - p % 8))) _ e in
    let same : b ∷ rest ≡ next = cc in subst AreBytes same (hb, or_at-AreBytes bs i p hs er)

set_bits-AreBytes :
    {E : Type 0} (ps : List ℕ) (out : Bytes) {last : Bytes}
    → AreBytes out
    → set_bits {E = E} out ps ≡ ok last
    → AreBytes last
unfolding set_bits
set_bits-AreBytes [] out {last} h e = let same : out ≡ last = cc in subst AreBytes same h
set_bits-AreBytes {E} (p ∷ ps) out h e =
    let (next, en, es) = >>=-eq-ok (or_at {E = E} out (p / 8) (2 ^ (7 - p % 8))) _ e in
    set_bits-AreBytes ps next (or_at-AreBytes out (p / 8) p h en) es

AreBytes-replicate : (n : ℕ) → AreBytes (replicate n 0)
AreBytes-replicate zero = tt
AreBytes-replicate (suc n) = (omega arith, AreBytes-replicate n)

encode_bits-AreBytes : (ps : List ℕ) {out : Bytes} → encode_bits ps ≡ ok out → AreBytes out
unfolding encode_bits
encode_bits-AreBytes [] {out} e = let same : ◌≡◌ {A = Bytes} [] out = cc in subst AreBytes same tt
encode_bits-AreBytes (p ∷ ps) e =
    let (done, er, es) =
      >>=-eq-ok
        (reject_if (ltb max_bit_position (maximum (p ∷ ps)))
          (position_too_large (maximum (p ∷ ps))))
        _ e in
    set_bits-AreBytes (p ∷ ps) _ (AreBytes-replicate (maximum (p ∷ ps) / 8 + 1)) es

pub parse_bits-AreBytes : (raw : Str) {out : Bytes} → parse_bits raw ≡ ok out → AreBytes out
unfolding parse_bits
parse_bits-AreBytes raw {out} e = elim (Bool-cases (is_empty (trim raw))) [
  | inl blank ↦
      let read : ◌≡◌ {A = Outcome BitsError Bytes} (ok []) (ok out) = rw blank at e in
      let same : ◌≡◌ {A = Bytes} [] out = cc in subst AreBytes same tt
  | inr full ↦
      let read : (map_err (bad_positions raw) (positions raw) >>= encode_bits) ≡ ok out =
        rw full at e in
      let (ps, er, es) = >>=-eq-ok (map_err (bad_positions raw) (positions raw)) encode_bits read in
      encode_bits-AreBytes ps es
]
