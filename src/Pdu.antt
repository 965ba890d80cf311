-- ===== src/Pdu.antt =====
-- The version 1 and version 2c traps of src/pdu.rs. The types of the SMI and SNMP libraries hold
-- what the source puts in; the BER encoder is a parameter.
pub mod Laws
use snmptrap_rs.Prelude.{ℕ, zero, suc, List, [], ◌∷◌, Outcome, ok, err, ◌>>=◌, map_err, Bytes}
use snmptrap_rs.Prelude.Int.{ℤ}
use snmptrap_rs.Text.{Str}
use snmptrap_rs.Text.Net.{Ipv4Addr, octets}
use snmptrap_rs.Errors.{Error, encode, encoder, bits_in_v1, counter64_in_v1}
use snmptrap_rs.Varbind.Value.{
  VarBindValue, integer, unsigned32, time_ticks, ip_address, object_id, octet_string, null, bits,
  counter64,
}

abbrev pub sys_uptime_oid : List ℕ
sys_uptime_oid = 1 ∷ 3 ∷ 6 ∷ 1 ∷ 2 ∷ 1 ∷ 1 ∷ 3 ∷ 0 ∷ []

abbrev pub snmp_trap_oid_oid : List ℕ
snmp_trap_oid_oid = 1 ∷ 3 ∷ 6 ∷ 1 ∷ 6 ∷ 3 ∷ 1 ∷ 1 ∷ 4 ∷ 1 ∷ 0 ∷ []

abbrev pub default_v1_enterprise_oid : List ℕ
default_v1_enterprise_oid = 1 ∷ 3 ∷ 6 ∷ 1 ∷ 4 ∷ 1 ∷ 3 ∷ 1 ∷ 1 ∷ []

abbrev pub VarBinds : Type 0
VarBinds = List (List ℕ × VarBindValue)

pub record V2cTrap : Type 0 where
  pub community : Bytes
  pub request_id : ℤ
  pub uptime_centiseconds : ℕ
  pub trap_oid : List ℕ
  pub varbinds : VarBinds

pub record V1Trap : Type 0 where
  pub community : Bytes
  pub enterprise : List ℕ
  pub agent_addr : Ipv4Addr
  pub generic : ℤ
  pub specific : ℤ
  pub uptime_centiseconds : ℕ
  pub varbinds : VarBinds

-- The values of a version 2 binding that the program builds: those under `ObjectSyntax`, and
-- `Unspecified`.
pub data V2Value : Type 0 where
  simple_integer : ℤ → V2Value
  simple_object_id : List ℕ → V2Value
  simple_string : Bytes → V2Value
  wide_unsigned : ℕ → V2Value
  wide_ticks : ℕ → V2Value
  wide_address : Bytes → V2Value
  wide_big_counter : ℕ → V2Value
  unspecified : V2Value

-- The values of a version 1 binding that the program builds.
pub data V1Value : Type 0 where
  simple_number : ℤ → V1Value
  simple_object : List ℕ → V1Value
  simple_octets : Bytes → V1Value
  simple_empty : V1Value
  wide_gauge : ℕ → V1Value
  wide_time : ℕ → V1Value
  wide_network_address : Bytes → V1Value

pub record V2VarBind : Type 0 where
  pub name : List ℕ
  pub value : V2Value

pub record V1VarBind : Type 0 where
  pub name : List ℕ
  pub value : V1Value

-- `snmp_v2::Pdu`
pub record V2Pdu : Type 0 where
  pub request_id : ℤ
  pub error_status : ℕ
  pub error_index : ℕ
  pub variable_bindings : List V2VarBind

-- `snmp_v2c::Message<Trap>`
pub record V2cMessage : Type 0 where
  pub version : ℕ
  pub community : Bytes
  pub data_pdu : V2Pdu

-- `snmp_v1::Trap`
pub record V1Pdu : Type 0 where
  pub enterprise : List ℕ
  pub agent_addr : Bytes
  pub generic_trap : ℤ
  pub specific_trap : ℤ
  pub time_stamp : ℕ
  pub variable_bindings : List V1VarBind

-- `snmp_v1::Message<Trap>`
pub record V1Message : Type 0 where
  pub version : ℕ
  pub community : Bytes
  pub data_pdu : V1Pdu

-- `rasn::ber::encode` on the two messages, with the text of its error, and the constants of the
-- SNMP library.
pub record Codec : Type 0 where
  pub encode_v2c : V2cMessage → Outcome Str Bytes
  pub encode_v1 : V1Message → Outcome Str Bytes
  pub version_v2c : ℕ
  pub version_v1 : ℕ
  pub no_error : ℕ

abbrev pub v2_value : VarBindValue → V2Value
v2_value (integer i) = simple_integer i
v2_value (unsigned32 u) = wide_unsigned u
v2_value (time_ticks t) = wide_ticks t
v2_value (ip_address ip) = wide_address (octets ip)
v2_value (object_id arcs) = simple_object_id arcs
v2_value (octet_string bytes) = simple_string bytes
v2_value null = unspecified
v2_value (bits bytes) = simple_string bytes
v2_value (counter64 n) = wide_big_counter n

abbrev pub make_v2_varbind : List ℕ → VarBindValue → Outcome Error V2VarBind
make_v2_varbind oid v = ok (record { name = oid; value = v2_value v })

abbrev pub v1_value : VarBindValue → Outcome Error V1Value
v1_value (integer i) = ok (simple_number i)
v1_value (unsigned32 u) = ok (wide_gauge u)
v1_value (time_ticks t) = ok (wide_time t)
v1_value (ip_address ip) = ok (wide_network_address (octets ip))
v1_value (object_id arcs) = ok (simple_object arcs)
v1_value (octet_string bytes) = ok (simple_octets bytes)
v1_value null = ok simple_empty
v1_value (bits bytes) = err (encode bits_in_v1)
v1_value (counter64 n) = err (encode counter64_in_v1)

abbrev pub make_v1_varbind : List ℕ → VarBindValue → Outcome Error V1VarBind
make_v1_varbind oid v = v1_value v >>= λ value. ok (record { name = oid; value = value })

-- The loop over the bindings of a version 2 trap, each pushed at the end.
unfoldable pub push_v2 : VarBinds → Outcome Error (List V2VarBind)
push_v2 [] = ok []
push_v2 ((oid, v) ∷ rest) = do bind ← make_v2_varbind oid v; binds ← push_v2 rest; ok (bind ∷ binds)

-- The loop over the bindings of a version 1 trap.
unfoldable pub push_v1 : VarBinds → Outcome Error (List V1VarBind)
push_v1 [] = ok []
push_v1 ((oid, v) ∷ rest) = do bind ← make_v1_varbind oid v; binds ← push_v1 rest; ok (bind ∷ binds)

-- The two leading bindings and those of the trap, which versions 2c and 3 build alike.
unfoldable pub v2_bindings : V2cTrap → Outcome Error (List V2VarBind)
v2_bindings t = do
  uptime ← make_v2_varbind sys_uptime_oid (time_ticks t.uptime_centiseconds)
  trap ← make_v2_varbind snmp_trap_oid_oid (object_id t.trap_oid)
  binds ← push_v2 t.varbinds
  ok (uptime ∷ trap ∷ binds)

module _ (codec : Codec) where
  unfoldable pub v2c_message : V2cTrap → List V2VarBind → V2cMessage
  v2c_message t binds = record {
    version = codec.version_v2c;
    community = t.community;
    data_pdu = record {
      request_id = t.request_id;
      error_status = codec.no_error;
      error_index = 0;
      variable_bindings = binds;
    };
  }

  unfoldable pub v1_message : V1Trap → List V1VarBind → V1Message
  v1_message t binds = record {
    version = codec.version_v1;
    community = t.community;
    data_pdu = record {
      enterprise = t.enterprise;
      agent_addr = octets t.agent_addr;
      generic_trap = t.generic;
      specific_trap = t.specific;
      time_stamp = t.uptime_centiseconds;
      variable_bindings = binds;
    };
  }

  unfoldable pub build_v2c_trap : V2cTrap → Outcome Error Bytes
  build_v2c_trap t = do
    binds ← v2_bindings t
    map_err (λ e. encode (encoder e)) (codec.encode_v2c (v2c_message t binds))

  unfoldable pub build_v1_trap : V1Trap → Outcome Error Bytes
  build_v1_trap t = do
    binds ← push_v1 t.varbinds
    map_err (λ e. encode (encoder e)) (codec.encode_v1 (v1_message t binds))
