-- ===== src/Text/Utf8.antt =====
-- `std::str::from_utf8`: the decoder of UTF-8 as Unicode defines it, a byte at a time.
pub mod Laws
pub mod RoundTrip
use snmptrap_rs.Prelude.{
  ℕ, zero, suc, ◌+◌, ◌-◌, ◌*◌, Bool, true, false, ◌&&◌, [], ◌∷◌, Option, none, some, Bytes, ltb,
  leb, ◌==◌, if◌then◌else◌,
}
use snmptrap_rs.Text.Chars.{Str}

-- Between two characters, or within one: how many bytes follow the next one, the bits so far, and the
-- range of the next byte.
pub data Pending : Type 0 where
  idle : Pending
  more : ℕ → ℕ → ℕ → ℕ → Pending

pub data Step : Type 0 where
  refuse : Step
  emit : ℕ → Step
  wait : Pending → Step

-- The first byte of a character, which rules out the overlong forms and the surrogates.
unfoldable pub first_byte : ℕ → Step
first_byte b =
    if ltb b 0x80
    then emit b
    else if ltb b 0xC2
    then refuse
    else if ltb b 0xE0
    then wait (more 0 (b - 0xC0) 0x80 0xBF)
    else if b == 0xE0
    then wait (more 1 0 0xA0 0xBF)
    else if b == 0xED
    then wait (more 1 0xD 0x80 0x9F)
    else if ltb b 0xF0
    then wait (more 1 (b - 0xE0) 0x80 0xBF)
    else if b == 0xF0
    then wait (more 2 0 0x90 0xBF)
    else if b == 0xF4
    then wait (more 2 4 0x80 0x8F)
    else if ltb b 0xF4
    then wait (more 2 (b - 0xF0) 0x80 0xBF)
    else refuse

abbrev pub following : ℕ → ℕ → Step
following zero c = emit c
following (suc n) c = wait (more n c 0x80 0xBF)

unfoldable pub step : Pending → ℕ → Step
unfolding first_byte
step idle b = first_byte b
step (more n bits lo hi) b =
    if leb lo b && leb b hi then following n (bits * 64 + (b - 0x80)) else refuse

abbrev pub put : ℕ → Option Str → Option Str
put c none = none
put c (some s) = some (c ∷ s)

unfoldable pub decode : Pending → Bytes → Option Str
unfolding step
decode idle [] = some []
decode (more n bits lo hi) [] = none
decode st (b ∷ bs) = elim (step st b) [
  | refuse ↦ none
  | emit c ↦ put c (decode idle bs)
  | wait next ↦ decode next bs
]

unfoldable pub from_utf8 : Bytes → Option Str
unfolding decode
from_utf8 bs = decode idle bs
