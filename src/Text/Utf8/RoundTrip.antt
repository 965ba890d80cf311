-- ===== src/Text/Utf8/RoundTrip.antt =====
-- The texts that the decoder of UTF-8 reads back.
use snmptrap_rs.Prelude.{
  ℕ, ◌+◌, ◌-◌, ◌*◌, ◌/◌, ◌%◌, ◌≤◌, ◌<◌, ◌≡◌, ◌≢◌, refl, ◌∙◌, ap, ◌⊎◌, inl, inr, arith, true, [],
  ◌∷◌, ◌++◌, All, some, Bytes, leb, ◌&&◌,
}
use snmptrap_rs.Text.Chars.{Str, utf8, as_bytes}
use snmptrap_rs.Text.Utf8.{
  Pending, idle, more, emit, wait, first_byte, following, step, put, decode, from_utf8,
}
use snmptrap_rs.Text.Utf8.Laws.{decode-cons}

-- A code point that is no surrogate.
abbrev pub IsScalar : ℕ → Type 0
IsScalar c = (c < 0xD800) ⊎ ((0xE000 ≤ c) × (c < 0x110000))

decode_one :
    (a : ℕ) (rest : Bytes) {c : ℕ}
    → step idle a ≡ emit c
    → decode idle (a ∷ rest) ≡ put c (decode idle rest)
decode_one a rest e = decode-cons idle a rest ∙ rw e refl

decode_next :
    (st : Pending) (a : ℕ) (rest : Bytes) {next : Pending}
    → step st a ≡ wait next
    → decode st (a ∷ rest) ≡ decode next rest
decode_next st a rest e = decode-cons st a rest ∙ rw e refl

decode_last :
    (st : Pending) (a : ℕ) (rest : Bytes) {c : ℕ}
    → step st a ≡ emit c
    → decode st (a ∷ rest) ≡ put c (decode idle rest)
decode_last st a rest e = decode-cons st a rest ∙ rw e refl

step_more :
    (n bits lo hi x : ℕ)
    → lo ≤ 0x80 + x
    → 0x80 + x ≤ hi
    → step (more n bits lo hi) (0x80 + x) ≡ following n (bits * 64 + x)
unfolding step
step_more n bits lo hi x h k =
    let inside : (leb lo (0x80 + x) && leb (0x80 + x) hi) ≡ true = ground arith in
    let bits_eq : 0x80 + x - 0x80 ≡ x = omega arith in rw (inside, bits_eq) refl

-- The first byte, by the range it is in.
module _ (b : ℕ) where
  lead_two : 0xC2 ≤ b → b < 0xE0 → step idle b ≡ wait (more 0 (b - 0xC0) 0x80 0xBF)
  unfolding step first_byte
  lead_two h k = ground arith

  lead_three : 0xE1 ≤ b → b < 0xF0 → b ≢ 0xED → step idle b ≡ wait (more 1 (b - 0xE0) 0x80 0xBF)
  unfolding step first_byte
  lead_three h k ne = ground arith

  lead_four : 0xF1 ≤ b → b < 0xF4 → step idle b ≡ wait (more 2 (b - 0xF0) 0x80 0xBF)
  unfolding step first_byte
  lead_four h k = ground arith

  lead_e0 : b ≡ 0xE0 → step idle b ≡ wait (more 1 0 0xA0 0xBF)
  unfolding step first_byte
  lead_e0 e = ground arith

  lead_ed : b ≡ 0xED → step idle b ≡ wait (more 1 0xD 0x80 0x9F)
  unfolding step first_byte
  lead_ed e = ground arith

  lead_f0 : b ≡ 0xF0 → step idle b ≡ wait (more 2 0 0x90 0xBF)
  unfolding step first_byte
  lead_f0 e = ground arith

  lead_f4 : b ≡ 0xF4 → step idle b ≡ wait (more 2 4 0x80 0x8F)
  unfolding step first_byte
  lead_f4 e = ground arith

module _ (c : ℕ) (rest : Bytes) where
  -- The bytes that follow the first.
  tail_one :
      (bits lo hi : ℕ)
      → bits ≡ c / 0x40
      → lo ≤ 0x80 + c % 0x40
      → 0x80 + c % 0x40 ≤ hi
      → decode (more 0 bits lo hi) ((0x80 + c % 0x40) ∷ rest) ≡ put c (decode idle rest)
  tail_one bits lo hi e h k =
      decode_last _ _ rest (step_more 0 bits lo hi (c % 0x40) h k)
      ∙ ap (λ (d : ℕ). put d (decode idle rest)) (omega arith)

  tail_two :
      (bits lo hi : ℕ)
      → bits ≡ c / 0x1000
      → lo ≤ 0x80 + c / 0x40 % 0x40
      → 0x80 + c / 0x40 % 0x40 ≤ hi
      → decode (more 1 bits lo hi) ((0x80 + c / 0x40 % 0x40) ∷ (0x80 + c % 0x40) ∷ rest)
        ≡ put c (decode idle rest)
  tail_two bits lo hi e h k =
      decode_next _ _ _ (step_more 1 bits lo hi (c / 0x40 % 0x40) h k)
      ∙ tail_one _ 0x80 0xBF (omega arith) (omega arith) (omega arith)

  tail_three :
      (bits lo hi : ℕ)
      → bits ≡ c / 0x40000
      → lo ≤ 0x80 + c / 0x1000 % 0x40
      → 0x80 + c / 0x1000 % 0x40 ≤ hi
      → decode
          (more 2 bits lo hi)
          ((0x80 + c / 0x1000 % 0x40) ∷ (0x80 + c / 0x40 % 0x40) ∷ (0x80 + c % 0x40) ∷ rest)
        ≡ put c (decode idle rest)
  tail_three bits lo hi e h k =
      decode_next _ _ _ (step_more 2 bits lo hi (c / 0x1000 % 0x40) h k)
      ∙ tail_two _ 0x80 0xBF (omega arith) (omega arith) (omega arith)

  two_bytes :
      0x80 ≤ c
      → c < 0x800
      → decode idle ((0xC0 + c / 0x40) ∷ (0x80 + c % 0x40) ∷ rest) ≡ put c (decode idle rest)
  two_bytes h k =
      decode_next idle _ _ (lead_two (0xC0 + c / 0x40) (omega arith) (omega arith))
      ∙ tail_one _ 0x80 0xBF (omega arith) (omega arith) (omega arith)

  three_cases :
      IsScalar c
      → 0x800 ≤ c
      → c < 0x10000
      → (c < 0x1000)
        ⊎ ((0xD000 ≤ c) × (c < 0xD800))
        ⊎ ((0x1000 ≤ c) × ((c < 0xD000) ⊎ (0xE000 ≤ c)))
  three_cases v h k = omega arith

  three_bytes :
      IsScalar c
      → 0x800 ≤ c
      → c < 0x10000
      → decode idle ((0xE0 + c / 0x1000) ∷ (0x80 + c / 0x40 % 0x40) ∷ (0x80 + c % 0x40) ∷ rest)
        ≡ put c (decode idle rest)
  three_bytes v h k = elim (three_cases v h k) [
    | inl low ↦
        decode_next idle _ _ (lead_e0 (0xE0 + c / 0x1000) (omega arith))
        ∙ tail_two 0 0xA0 0xBF (omega arith) (omega arith) (omega arith)
    | inr (inl (d, e)) ↦
        decode_next idle _ _ (lead_ed (0xE0 + c / 0x1000) (omega arith))
        ∙ tail_two 0xD 0x80 0x9F (omega arith) (omega arith) (omega arith)
    | inr (inr (d, e)) ↦
        decode_next idle _ _
          (lead_three (0xE0 + c / 0x1000) (omega arith) (omega arith) (omega arith))
        ∙ tail_two _ 0x80 0xBF (omega arith) (omega arith) (omega arith)
  ]

  four_cases :
      0x10000 ≤ c → c < 0x110000 → (c < 0x40000) ⊎ (0x100000 ≤ c) ⊎ ((0x40000 ≤ c) × (c < 0x100000))
  four_cases h k = omega arith

  four_bytes :
      0x10000 ≤ c
      → c < 0x110000
      → decode idle (
          (0xF0 + c / 0x40000)
          ∷ (0x80 + c / 0x1000 % 0x40)
          ∷ (0x80 + c / 0x40 % 0x40)
          ∷ (0x80 + c % 0x40)
          ∷ rest)
        ≡ put c (decode idle rest)
  four_bytes h k = elim (four_cases h k) [
    | inl low ↦
        decode_next idle _ _ (lead_f0 (0xF0 + c / 0x40000) (omega arith))
        ∙ tail_three 0 0x90 0xBF (omega arith) (omega arith) (omega arith)
    | inr (inl high) ↦
        decode_next idle _ _ (lead_f4 (0xF0 + c / 0x40000) (omega arith))
        ∙ tail_three 4 0x80 0x8F (omega arith) (omega arith) (omega arith)
    | inr (inr (d, e)) ↦
        decode_next idle _ _ (lead_four (0xF0 + c / 0x40000) (omega arith) (omega arith))
        ∙ tail_three _ 0x80 0xBF (omega arith) (omega arith) (omega arith)
  ]

  utf8_cases :
      IsScalar c
      → ((c < 0x80) × (utf8 c ≡ c ∷ []))
        ⊎ ((0x80 ≤ c) × (c < 0x800) × (utf8 c ≡ (0xC0 + c / 0x40) ∷ (0x80 + c % 0x40) ∷ []))
        ⊎ ((0x800 ≤ c)
            × (c < 0x10000)
            × (utf8 c ≡ (0xE0 + c / 0x1000) ∷ (0x80 + c / 0x40 % 0x40) ∷ (0x80 + c % 0x40) ∷ []))
        ⊎ ((0x10000 ≤ c)
            × (c < 0x110000)
            × (utf8 c
                ≡ (0xF0 + c / 0x40000)
                  ∷ (0x80 + c / 0x1000 % 0x40)
                  ∷ (0x80 + c / 0x40 % 0x40)
                  ∷ (0x80 + c % 0x40)
                  ∷ []))
  unfolding utf8
  utf8_cases v = ground arith

  ascii : c < 0x80 → step idle c ≡ emit c
  unfolding step first_byte
  ascii h = ground arith

  decode-utf8 : IsScalar c → decode idle (utf8 c ++ rest) ≡ put c (decode idle rest)
  decode-utf8 v = elim (utf8_cases v) [
    | inl (h, e) ↦ rw e (decode_one c rest (ascii h))
    | inr (inl (h, k, e)) ↦ rw e (two_bytes h k)
    | inr (inr (inl (h, k, e))) ↦ rw e (three_bytes v h k)
    | inr (inr (inr (h, k, e))) ↦ rw e (four_bytes h k)
  ]

decode-as_bytes : (s : Str) → All IsScalar s → decode idle (as_bytes s) ≡ some s
unfolding as_bytes
decode-as_bytes [] h = unfold decode in refl
decode-as_bytes (c ∷ s) (hc, hs) = decode-utf8 c (as_bytes s) hc ∙ ap (put c) (decode-as_bytes s hs)

-- Every text is read back from its UTF-8 form.
pub from_utf8-as_bytes : (s : Str) → All IsScalar s → from_utf8 (as_bytes s) ≡ some s
unfolding from_utf8
from_utf8-as_bytes s h = decode-as_bytes s h
