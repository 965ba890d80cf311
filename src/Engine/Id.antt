-- ===== src/Engine/Id.antt =====
-- `EngineId` of src/engine.rs and its constructors.
pub mod Laws
use snmptrap_rs.Prelude.{
  ℕ, ◌-◌, ◌≤◌, min, bit_or, List, [], ◌∷◌, ◌++◌, Bytes, AreBytes, length, take, get_or,
}
use snmptrap_rs.Prelude.Words.{be32}
use snmptrap_rs.Text.{Str, as_bytes}
use snmptrap_rs.Text.Net.{Ipv4Addr, octets}

abbrev pub pen_no42_org : ℕ
pen_no42_org = 61509

abbrev pub format_ipv4 : ℕ
format_ipv4 = 1

abbrev pub format_mac : ℕ
format_mac = 3

abbrev pub format_text : ℕ
format_text = 4

abbrev pub format_octets : ℕ
format_octets = 5

abbrev pub min_engine_id : ℕ
min_engine_id = 5

abbrev pub max_engine_id : ℕ
max_engine_id = 32

abbrev pub max_payload : ℕ
max_payload = max_engine_id - 5

pub record EngineId : Type 0 where
  pub bytes : Bytes

-- The enterprise number, with the high bit of the first octet set.
abbrev pub push_pen_prefix : Bytes → Bytes
push_pen_prefix buf =
    let pen_bytes = be32 pen_no42_org in
    buf
    ++ bit_or (get_or pen_bytes 0 0) 0x80
      ∷ get_or pen_bytes 1 0
      ∷ get_or pen_bytes 2 0
      ∷ get_or pen_bytes 3 0
      ∷ []

unfoldable pub from_ipv4 : Ipv4Addr → EngineId
from_ipv4 addr = record { bytes = push_pen_prefix [] ++ format_ipv4 ∷ octets addr }

unfoldable pub from_mac : Bytes → EngineId
from_mac mac = record { bytes = push_pen_prefix [] ++ format_mac ∷ mac }

unfoldable pub from_octets : Bytes → EngineId
from_octets bs = record {
  bytes = push_pen_prefix [] ++ format_octets ∷ take (min (length bs) max_payload) bs;
}

unfoldable pub from_text : Str → EngineId
from_text text =
    let bs = as_bytes text in
    record { bytes = push_pen_prefix [] ++ format_text ∷ take (min (length bs) max_payload) bs }

-- RFC 3411: 5 to 32 octets.
pub record IsEngineId (eid : EngineId) : Type 0 where
  pub min_len : min_engine_id ≤ length eid.bytes
  pub max_len : length eid.bytes ≤ max_engine_id
  pub octets : AreBytes eid.bytes
