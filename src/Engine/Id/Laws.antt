-- ===== src/Engine/Id/Laws.antt =====
-- Every constructor of an engine identifier keeps to the bounds of RFC 3411.
use snmptrap_rs.Prelude.{
  ℕ, zero, suc, ◌≤◌, ◌<◌, min, ◌≡◌, [], ◌∷◌, ◌++◌, arith, All, All-append, Bytes, AreBytes, length,
  length-take, take,
}
use snmptrap_rs.Text.{Str, as_bytes, utf8}
use snmptrap_rs.Text.Net.{Ipv4Addr, IsAddr}
use snmptrap_rs.Engine.Id.{
  IsEngineId, from_ipv4, from_mac, from_text, from_octets, max_payload, push_pen_prefix, format_mac,
  format_text, format_octets,
}

take-AreBytes : (n : ℕ) (bs : Bytes) → AreBytes bs → AreBytes (take n bs)
take-AreBytes zero bs h = tt
take-AreBytes (suc n) [] h = tt
take-AreBytes (suc n) (b ∷ bs) (hb, hs) = (hb, take-AreBytes n bs hs)

-- Every character is a code point.
abbrev pub AreChars : Str → Type 0
AreChars = All (λ c. c < 0x110000)

utf8-AreBytes : (c : ℕ) → c < 0x110000 → AreBytes (utf8 c)
unfolding utf8
utf8-AreBytes c h = ground arith

pub as_bytes-AreBytes : (s : Str) → AreChars s → AreBytes (as_bytes s)
unfolding as_bytes
as_bytes-AreBytes [] h = tt
as_bytes-AreBytes (c ∷ s) (hc, hs) =
    All-append _ (utf8 c) (as_bytes s) (utf8-AreBytes c hc) (as_bytes-AreBytes s hs)

-- The prefix, a format octet and a payload of at most 27 octets.
prefixed-IsEngineId :
    (format : ℕ) (payload : Bytes)
    → format < 256
    → length payload ≤ max_payload
    → AreBytes payload
    → IsEngineId (record { bytes = push_pen_prefix [] ++ format ∷ payload })
prefixed-IsEngineId format payload hf l h = record {
  min_len = omega arith;
  max_len = omega arith;
  octets = (omega arith, (omega arith, (omega arith, (omega arith, (hf, h)))));
}

length-take-min : (bs : Bytes) → length (take (min (length bs) max_payload) bs) ≤ max_payload
length-take-min bs = omega (arith, length-take (min (length bs) max_payload) bs)

pub from_ipv4-IsEngineId : (addr : Ipv4Addr) → IsAddr addr → IsEngineId (from_ipv4 addr)
unfolding from_ipv4
from_ipv4-IsEngineId addr h = omega arith

pub from_mac-IsEngineId : (mac : Bytes) → length mac ≡ 6 → AreBytes mac → IsEngineId (from_mac mac)
unfolding from_mac
from_mac-IsEngineId mac l h = prefixed-IsEngineId format_mac mac (omega arith) (omega arith) h

pub from_text-IsEngineId : (text : Str) → AreChars text → IsEngineId (from_text text)
unfolding from_text
from_text-IsEngineId text h =
    prefixed-IsEngineId format_text _ (omega arith) (length-take-min (as_bytes text))
      (take-AreBytes _ (as_bytes text) (as_bytes-AreBytes text h))

pub from_octets-IsEngineId : (bs : Bytes) → AreBytes bs → IsEngineId (from_octets bs)
unfolding from_octets
from_octets-IsEngineId bs h =
    prefixed-IsEngineId format_octets _ (omega arith) (length-take-min bs) (take-AreBytes _ bs h)
