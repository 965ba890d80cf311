-- ===== src/Engine/Resolve.antt =====
-- `resolve` of src/engine.rs. The address and the name of the host are arguments.
use snmptrap_rs.Prelude.{◌≡◌, Option, none, some, arith, Bytes, AreBytes, length}
use snmptrap_rs.Text.{Str, codes}
use snmptrap_rs.Text.Net.{Ipv4Addr, IsAddr}
use snmptrap_rs.Engine.Id.{EngineId, IsEngineId, from_ipv4, from_mac, from_text}
use snmptrap_rs.Engine.Id.Laws.{
  AreChars, from_ipv4-IsEngineId, from_mac-IsEngineId, from_text-IsEngineId,
}

name_or_default : Option Str → Str
name_or_default (some name) = name
name_or_default none = codes "snmptrap-rs"

unfoldable pub resolve : Option EngineId → Option Ipv4Addr → Option Bytes → Option Str → EngineId
unfolding name_or_default
resolve (some eid) src mac hostname = eid
resolve none (some addr) mac hostname = from_ipv4 addr
resolve none none (some mac) hostname = from_mac mac
resolve none none none hostname = from_text (name_or_default hostname)

-- A property of what is there.
abbrev pub IfSome {ℓ} : {A : Type ℓ} → (A → Type 0) → Option A → Type 0
IfSome P none = Unit
IfSome P (some a) = P a

abbrev pub IsMac : Bytes → Type 0
IsMac mac = (length mac ≡ 6) × AreBytes mac

-- Whichever source the cascade takes, the identifier has 5 to 32 octets, provided that the user's
-- has, that the address has four octets and the hardware address six, and that the host's name
-- is a text.
pub resolve-IsEngineId :
    (user : Option EngineId) (src : Option Ipv4Addr) (mac : Option Bytes) (hostname : Option Str)
    → IfSome IsEngineId user
    → IfSome IsAddr src
    → IfSome IsMac mac
    → IfSome AreChars hostname
    → IsEngineId (resolve user src mac hostname)
unfolding resolve
resolve-IsEngineId (some eid) src mac hostname hu hs hm hh = hu
resolve-IsEngineId none (some addr) mac hostname hu hs hm hh = from_ipv4-IsEngineId addr hs
resolve-IsEngineId none none (some mac) hostname hu hs hm hh = from_mac-IsEngineId mac hm.0 hm.1
resolve-IsEngineId none none none (some name) hu hs hm hh = from_text-IsEngineId name hh
resolve-IsEngineId none none none none hu hs hm hh = from_text-IsEngineId _ (omega arith)
