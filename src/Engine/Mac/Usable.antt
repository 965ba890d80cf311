-- ===== src/Engine/Mac/Usable.antt =====
-- The hardware addresses that `parse_mac_text` of src/engine.rs lets through.
use snmptrap_rs.Prelude.{
  ℕ, suc, ◌<◌, ◌≡◌, refl, ◌∙◌, ap, subst, inl, inr, arith, false, List, [], ◌∷◌, Option, none, some,
  Bytes, AreBytes, length, if◌then◌else◌, Bool-cases, ◌==◌, ==_iff,
}
use snmptrap_rs.Text.{Str, as_bytes, trim}
use snmptrap_rs.Text.Split.{split}
use snmptrap_rs.Engine.Parse.{decode_hex_nibble, join_nibbles}
use snmptrap_rs.Engine.Parse.Laws.{join_nibbles_lem}
use snmptrap_rs.Engine.Mac.{
  nibble, join_some, mac_byte, cons_some, mac_parts, parse_mac_text, all_zero, non_zero, usable,
}

-- Six octets, not all zero.
abbrev pub IsHardware : Bytes → Type 0
IsHardware mac = (length mac ≡ 6) × AreBytes mac × (all_zero mac ≡ false)

nibble_small : (b : ℕ) {n : ℕ} → nibble b ≡ some n → n < 16
unfolding nibble decode_hex_nibble
nibble_small b h = ground arith

join_some_small :
    (hi lo : Option ℕ) {b : ℕ}
    → ((n : ℕ) → hi ≡ some n → n < 16)
    → ((n : ℕ) → lo ≡ some n → n < 16)
    → join_some hi lo ≡ some b
    → b < 256
unfolding join_some
join_some_small (some hi) (some lo) {b} f g h =
    let e : join_nibbles hi lo ≡ b = cc in
    omega (arith, join_nibbles_lem hi lo (f hi refl) (g lo refl), f hi refl, g lo refl, e)
join_some_small none lo f g h = cc
join_some_small (some hi) none f g h = cc

mac_byte_small : (w : Bytes) {b : ℕ} → mac_byte w ≡ some b → b < 256
unfolding mac_byte
mac_byte_small (a ∷ b ∷ []) h =
    join_some_small (nibble a) (nibble b) (λ n. nibble_small a) (λ n. nibble_small b) h
mac_byte_small [] h = cc
mac_byte_small (a ∷ []) h = cc
mac_byte_small (a ∷ b ∷ c ∷ w) h = cc

cons_some-cases :
    (o : Option ℕ) (p : Option Bytes) {bs : Bytes}
    → cons_some o p ≡ some bs
    → (b : ℕ) × (rest : Bytes) × (o ≡ some b) × (p ≡ some rest) × (bs ≡ b ∷ rest)
unfolding cons_some
cons_some-cases (some b) (some rest) h = (b, rest, refl, refl, cc)
cons_some-cases none p h = cc
cons_some-cases (some b) none h = cc

mac_parts_lem :
    (ps : List Str) {bs : Bytes} → mac_parts ps ≡ some bs → (length bs ≡ length ps) × AreBytes bs
unfolding mac_parts
mac_parts_lem [] {bs} h = let e : bs ≡ [] = cc in rw e (refl, tt)
mac_parts_lem (p ∷ ps) h =
    let (b, rest, hb, hr, e) = cons_some-cases (mac_byte (as_bytes p)) (mac_parts ps) h in
    let (n, small) = mac_parts_lem ps hr in rw e (ap suc n, (mac_byte_small (as_bytes p) hb, small))

parse_mac_text_lem :
    (s : Str) {bs : Bytes} → parse_mac_text s ≡ some bs → (length bs ≡ 6) × AreBytes bs
unfolding parse_mac_text
parse_mac_text_lem s {bs} h = go (split (λ c. c == b':') s) h
  where
    go :
        (parts : List Str)
        → (if length parts == 6 then mac_parts parts else none) ≡ some bs
        → (length bs ≡ 6) × AreBytes bs
    go parts h = elim (Bool-cases (length parts == 6)) [
      | inl six ↦
          let e : mac_parts parts ≡ some bs = rw six at h in
          let (n, small) = mac_parts_lem parts e in (n ∙ (==_iff (length parts) 6).0 six, small)
      | inr other ↦ let e : ◌≡◌ {A = Option Bytes} none (some bs) = rw other at h in cc
    ]

non_zero-IsHardware :
    (o : Option Bytes) {mac : Bytes}
    → ((bs : Bytes) → o ≡ some bs → (length bs ≡ 6) × AreBytes bs)
    → non_zero o ≡ some mac
    → IsHardware mac
unfolding non_zero
non_zero-IsHardware none f h = cc
non_zero-IsHardware (some bs) {mac} f h = elim (Bool-cases (all_zero bs)) [
  | inl zero_mac ↦ let e : ◌≡◌ {A = Option Bytes} none (some mac) = rw zero_mac at h in cc
  | inr fine ↦
      let e : ◌≡◌ {A = Option Bytes} (some bs) (some mac) = rw fine at h in
      let same : bs ≡ mac = cc in
      let (n, small) = f bs refl in subst IsHardware same (n, small, fine)
]

pub usable-IsHardware : (o : Option Str) {mac : Bytes} → usable o ≡ some mac → IsHardware mac
unfolding usable
usable-IsHardware none h = cc
usable-IsHardware (some text) h =
    non_zero-IsHardware (parse_mac_text (trim text)) (λ bs. parse_mac_text_lem (trim text)) h
