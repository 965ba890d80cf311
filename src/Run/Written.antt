-- ===== src/Run/Written.antt =====
-- What a run of src/lib.rs with version 2c sends of a trap that the arguments write out.
use snmptrap_rs.Prelude.{ℕ, ◌≤◌, ◌≡◌, sym, ◌∙◌, ap, subst, false, List, ok, map_err-eq-ok, Bytes}
use snmptrap_rs.Text.Net.{Ipv4Addr}
use snmptrap_rs.Text.Number.{max_u32}
use snmptrap_rs.Varbind.Oid.Laws.{IsOid}
use snmptrap_rs.Cli.Types.{v2c}
use snmptrap_rs.Cli.Args.{Cli, is_v3}
use snmptrap_rs.Cli.Laws.{validate-plain}
use snmptrap_rs.Pdu.{VarBinds, v2c_message}
use snmptrap_rs.Pdu.Laws.{carried}
use snmptrap_rs.Payload.Reserved.{Unreserved}
use snmptrap_rs.Payload.Written.{
  trap_args_of, v2c_trap_of, AreWritable, build_v2c_payload-trap_args_of,
}
use snmptrap_rs.Payload.Build.{build_v2c_payload, build_payload, payload_of}
use snmptrap_rs.Run.{System, command, Report, exited, stopped, went, run}
use snmptrap_rs.Run.Carried.{IsCarried, run-IsCarried}
use snmptrap_rs.Run.Secured.{Delivers, route-Delivers}

pub build_payload_v2c :
    (s : System) (cli : Cli) (dst : Ipv4Addr) (port : ℕ)
    → cli.version ≡ v2c
    → build_payload s.world s.crypto s.codec s.codec3 cli dst port
      ≡ build_v2c_payload s.world s.crypto s.codec cli
unfolding build_payload
build_payload_v2c s cli dst port e =
    ap (λ v. payload_of s.world s.crypto v s.codec s.codec3 cli dst port) e

module _ (s : System) (cli : Cli) (uptime : ℕ) (trap_oid : List ℕ) (vs : VarBinds) where
  -- The encoding of the message with what was written out.
  abbrev pub Encodes : Bytes → Type 0
  Encodes wire =
      let t = v2c_trap_of s.world cli uptime trap_oid vs in
      s.codec.encode_v2c (v2c_message s.codec t (carried t)) ≡ ok wire

  -- Everything that is sent is that encoding.
  abbrev pub IsEncoded : Report → Type 0
  IsEncoded (exited n) = Unit
  IsEncoded (stopped o) = Unit
  IsEncoded (went text route end) = Delivers Encodes route

  module _ (version : cli.version ≡ v2c) (args : cli.trap_args ≡ trap_args_of uptime trap_oid vs)
      (hu : uptime ≤ max_u32) (ho : IsOid trap_oid) (hv : AreWritable vs)
      (free : Unreserved vs) where
    carried-IsEncoded : (r : Report) → IsCarried s cli r → IsEncoded r
    carried-IsEncoded (exited n) h = tt
    carried-IsEncoded (stopped o) h = tt
    carried-IsEncoded (went text route end)
          (out, dst, port, payload, valid, resolved, built, shown, h) =
        let old : is_v3 cli.version ≡ false = ap is_v3 version in
        let (same, community, flags, common) = validate-plain s.is_ipv6 cli out old valid in
        let built' : build_payload s.world s.crypto s.codec s.codec3 cli dst port ≡ ok payload =
          subst
            (λ (o : Cli). build_payload s.world s.crypto s.codec s.codec3 o dst port ≡ ok payload)
            same built in
        let message =
          sym (
            build_v2c_payload-trap_args_of s.world s.crypto s.codec cli uptime trap_oid vs args hu
              ho hv free)
          ∙ sym (build_payload_v2c s cli dst port version)
          ∙ built' in
        route-Delivers Encodes dst port payload route (map_err-eq-ok _ _ message) h

    -- A run of version 2c, whose arguments write out an uptime, a trap's name and bindings of any
    -- number and any types but BITS, sends nothing but the encoding of the message with exactly
    -- these, a retransmission included: sysUpTime.0, snmpTrapOID.0 and the bindings in their order,
    -- under the community and the drawn request identifier. The names are valid and none is one of
    -- the two that are put in front; the numbers are in the range of their types.
    pub run-IsEncoded : IsEncoded (run s (command cli))
    run-IsEncoded = carried-IsEncoded (run s (command cli)) (run-IsCarried s cli)
