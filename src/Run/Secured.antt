-- ===== src/Run/Secured.antt =====
-- What a receiver makes of a run of src/lib.rs with version 3.
use snmptrap_rs.Prelude.{
  ℕ, ◌≡◌, sym, ◌∙◌, ap, subst, true, List, [], ◌∷◌, All, Option, some, Outcome, ok, Bytes, drop,
}
use snmptrap_rs.Text.{Str}
use snmptrap_rs.Errors.{Error}
use snmptrap_rs.Text.Net.{Ipv4Addr}
use snmptrap_rs.Engine.Id.{EngineId}
use snmptrap_rs.Engine.Resolve.{resolve}
use snmptrap_rs.Usm.Types.{AuthProtocol}
use snmptrap_rs.Usm.Keys.{password_to_key}
use snmptrap_rs.Cli.Types.{v3}
use snmptrap_rs.Cli.Args.{Cli, is_v3, with_level, src_addr_v4}
use snmptrap_rs.Cli.Laws.{validate-Ready}
use snmptrap_rs.V3.Receiver.{Decoder, IsAccepted}
use snmptrap_rs.Payload.Accepted.{sender_at}
use snmptrap_rs.Payload.Build.{user_id, build_v3_payload, build_payload, payload_of}
use snmptrap_rs.Run.{System, Route, spoofed, ordinary, Report, exited, stopped, went}
use snmptrap_rs.Run.Carried.{IsSentTo, IsRouteOf, IsCarried}

-- Every payload that leaves on a route.
abbrev pub Delivers : (Bytes → Type 0) → Route → Type 0
Delivers P (spoofed src packets) = All (λ p. P (drop 28 p)) packets
Delivers P (ordinary dst port payload) = P payload

packets-Delivers :
    (P : Bytes → Type 0) (src dst : Ipv4Addr) (port : ℕ) (payload : Bytes) (packets : List Bytes)
    → P payload
    → All (IsSentTo src dst port payload) packets
    → All (λ p. P (drop 28 p)) packets
packets-Delivers P src dst port payload [] holds h = tt
packets-Delivers P src dst port payload (p ∷ packets) holds ((ends, to, behind), h) =
    (subst P (sym behind) holds, packets-Delivers P src dst port payload packets holds h)

pub route-Delivers :
    (P : Bytes → Type 0) (dst : Ipv4Addr) (port : ℕ) (payload : Bytes) (route : Route)
    → P payload
    → IsRouteOf dst port payload route
    → Delivers P route
route-Delivers P dst port payload (spoofed src packets) holds h =
    packets-Delivers P src dst port payload packets holds h
route-Delivers P dst port payload (ordinary d p x) holds (hd, hp, hx) = subst P (sym hx) holds

build_payload_v3 :
    (s : System) (cli : Cli) (dst : Ipv4Addr) (port : ℕ)
    → cli.version ≡ v3
    → build_payload s.world s.crypto s.codec s.codec3 cli dst port
      ≡ build_v3_payload s.world s.crypto s.codec3 cli
unfolding build_payload
build_payload_v3 s cli dst port e =
    ap (λ v. payload_of s.world s.crypto v s.codec s.codec3 cli dst port) e

module _ (s : System) (cli : Cli) (version : cli.version ≡ v3) where
  -- The payload that a run of version 3 sends, whatever the packets.
  pub carried_payload :
      (text : Option Str) (route : Route) (end : Option (Outcome Error (Unit {0})))
      → IsCarried s cli (went text route end)
      → (wire : Bytes) × (build_v3_payload s.world s.crypto s.codec3 (with_level cli) ≡ ok wire)
        × ((P : Bytes → Type 0) → P wire → Delivers P route)
  carried_payload text route end (out, dst, port, payload, valid, resolved, built, shown, h) =
      let new : is_v3 cli.version ≡ true = ap is_v3 version in
      let (same, ready, common) = validate-Ready s.is_ipv6 cli out new valid in
      let built' : build_payload s.world s.crypto s.codec s.codec3 (with_level cli) dst port
          ≡ ok payload =
        subst (λ (o : Cli). build_payload s.world s.crypto s.codec s.codec3 o dst port ≡ ok payload)
          same built in
      (
        payload,
        sym (build_payload_v3 s (with_level cli) dst port version) ∙ built',
        λ P holds. route-Delivers P dst port payload route holds h,
      )

  -- The engine that sends: the one that the user names, or the one that is made of the host.
  abbrev pub sending : Option EngineId → EngineId
  sending user = resolve user (src_addr_v4 cli) s.world.mac s.world.hostname

  module _ (dec : Decoder) (a : AuthProtocol) (pw : Str) where
    -- Everything that a run sends is accepted by a receiver that knows the password.
    abbrev pub IsAuthentic : Report → Type 0
    IsAuthentic (exited n) = Unit
    IsAuthentic (stopped o) = Unit
    IsAuthentic (went text route end) =
        (user : Option EngineId) × (key : Bytes) × (name : Str) × (user_id
            cli.authoritative_engine_id
          ≡ ok user)
        × (cli.user_name ≡ some name)
        × (password_to_key s.crypto pw (sending user) a ≡ ok key)
        × Delivers (IsAccepted s.crypto s.codec3 dec (sender_at s.world (sending user) name) a key)
            route
