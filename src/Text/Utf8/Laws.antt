-- ===== src/Text/Utf8/Laws.antt =====
-- What the decoder of UTF-8 returns.
use snmptrap_rs.Prelude.{
  ℕ, zero, suc, ◌+◌, ◌-◌, ◌*◌, ◌≤◌, ◌<◌, ◌≡◌, refl, sym, ◌∙◌, subst, arith, [], ◌∷◌, All, Option,
  none, some, Bytes,
}
use snmptrap_rs.Text.Chars.{Str}
use snmptrap_rs.Text.Utf8.{
  Pending, idle, more, Step, refuse, emit, wait, first_byte, step, put, decode, from_utf8,
}

-- The bits so far leave room for no more than a code point.
abbrev Bounded : Pending → Type 0
Bounded idle = Unit
Bounded (more zero bits lo hi) =
    (0x80 ≤ lo) × (lo ≤ hi) × (hi ≤ 0xBF) × (bits * 64 + (hi - 0x80) < 0x110000)
Bounded (more (suc zero) bits lo hi) =
    (0x80 ≤ lo) × (lo ≤ hi) × (hi ≤ 0xBF) × (bits * 4096 + (hi - 0x80) * 64 + 63 < 0x110000)
Bounded (more (suc (suc zero)) bits lo hi) =
    (0x80 ≤ lo) × (lo ≤ hi) × (hi ≤ 0xBF) × (bits * 262144 + (hi - 0x80) * 4096 + 4095 < 0x110000)
Bounded (more (suc (suc (suc n))) bits lo hi) = ⊥

abbrev Sound : Step → Type 0
Sound refuse = Unit
Sound (emit c) = c < 0x110000
Sound (wait st) = Bounded st

first_byte-Sound : (b : ℕ) → Sound (first_byte b)
unfolding first_byte
first_byte-Sound b = ground arith

step-Sound : (st : Pending) (b : ℕ) → Bounded st → Sound (step st b)
unfolding step
step-Sound idle b h = first_byte-Sound b
step-Sound (more zero bits lo hi) b h = ground arith
step-Sound (more (suc zero) bits lo hi) b h = ground arith
step-Sound (more (suc (suc zero)) bits lo hi) b h = ground arith
step-Sound (more (suc (suc (suc n))) bits lo hi) b h = absurd h

pub decode-cons :
    (st : Pending) (b : ℕ) (bs : Bytes)
    → decode st (b ∷ bs) ≡ elim (step st b) [
      | refuse ↦ none
      | emit c ↦ put c (decode idle bs)
      | wait next ↦ decode next bs
    ]
unfolding decode
decode-cons idle b bs = refl
decode-cons (more n bits lo hi) b bs = refl

put-All :
    (c : ℕ) (o : Option Str) {s : Str}
    → c < 0x110000
    → ((t : Str) → o ≡ some t → All (λ d. d < 0x110000) t)
    → put c o ≡ some s
    → All (λ d. d < 0x110000) s
put-All c none small rest e = cc
put-All c (some t) {s} small rest e =
    let same : c ∷ t ≡ s = cc in subst (All (λ d. d < 0x110000)) same (small, rest t refl)

decode_end : (st : Pending) (s : Str) → decode st [] ≡ some s → All (λ d. d < 0x110000) s
unfolding decode
decode_end idle s e = let same : ◌≡◌ {A = Str} [] s = cc in subst (All (λ d. d < 0x110000)) same tt
decode_end (more n bits lo hi) s e = cc

decode-All :
    (st : Pending) (bs : Bytes) (s : Str)
    → Bounded st
    → decode st bs ≡ some s
    → All (λ d. d < 0x110000) s
decode-All st [] s h e = decode_end st s e
decode-All st (b ∷ bs) s h e =
    go (λ next. decode-All next bs) (step st b) (step-Sound st b h) (sym (decode-cons st b bs) ∙ e)
  where
    go :
        ((next : Pending)
          → (t : Str) → Bounded next
          → decode next bs ≡ some t
          → All (λ d. d < 0x110000) t)
        → (x : Step) → Sound x
        → elim x [ refuse ↦ none | emit c ↦ put c (decode idle bs) | wait next ↦ decode next bs ]
          ≡ some s
        → All (λ d. d < 0x110000) s
    go ih refuse sound e = cc
    go ih (emit c) sound e = put-All c (decode idle bs) sound (λ t. ih idle t tt) e
    go ih (wait next) sound e = ih next s sound e

-- Every character that is decoded is a code point.
pub from_utf8-All : (bs : Bytes) (s : Str) → from_utf8 bs ≡ some s → All (λ d. d < 0x110000) s
unfolding from_utf8
from_utf8-All bs s e = decode-All idle bs s tt e
