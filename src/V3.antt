-- ===== src/V3.antt =====
-- The version 3 message of src/v3.rs. The types of the SNMP library hold what the source puts in;
-- the BER encoder and the cryptography are parameters.
pub mod Receiver
pub mod Accepted
pub mod Decrypted
pub mod Ends
use snmptrap_rs.Prelude.{
  ℕ, ◌+◌, Bool, true, false, List, [], ◌∷◌, Option, none, some, Outcome, ok, err, ◌>>=◌, ◌>>◌,
  map_err, assert, Bytes, length, replicate, ◌==◌,
}
use snmptrap_rs.Prelude.Int.{ℤ}
use snmptrap_rs.Prelude.Words.{be64}
use snmptrap_rs.Text.{Str}
use snmptrap_rs.Errors.{Error, encode, encoder}
use snmptrap_rs.Engine.Id.{EngineId}
use snmptrap_rs.Usm.Types.{AuthProtocol, PrivProtocol, auth_param_len}
use snmptrap_rs.Usm.Crypto.{Crypto}
use snmptrap_rs.Usm.Keys.{auth_sign, priv_encrypt}
use snmptrap_rs.Pdu.{V2cTrap, V2VarBind, V2Pdu, v2_bindings}

abbrev pub security_model_usm : ℕ
security_model_usm = 3

abbrev pub msg_version_v3 : ℕ
msg_version_v3 = 3

abbrev pub msg_max_size : ℕ
msg_max_size = 65507

abbrev pub flag_auth : ℕ
flag_auth = 1

abbrev pub flag_priv : ℕ
flag_priv = 2

pub data V3Security : Type 0 where
  no_auth : V3Security
  auth_only : AuthProtocol → Bytes → V3Security
  auth_and_priv : AuthProtocol → Bytes → PrivProtocol → Bytes → ℕ → V3Security

pub record V3TrapMessage : Type 0 where
  pub authoritative_engine_id : EngineId
  pub context_engine_id : EngineId
  pub context_name : Bytes
  pub user_name : Bytes
  pub engine_boots : ℕ
  pub engine_time : ℕ
  pub msg_id : ℤ
  pub security : V3Security
  pub trap : V2cTrap

-- The two flags are different bits, so that `|` adds them.
abbrev pub flag_byte : V3Security → ℕ
flag_byte no_auth = 0
flag_byte (auth_only proto key) = flag_auth
flag_byte (auth_and_priv proto key priv_proto priv_key salt) = flag_auth + flag_priv

abbrev pub auth : V3Security → Option (AuthProtocol × Bytes)
auth no_auth = none
auth (auth_only proto key) = some (proto, key)
auth (auth_and_priv proto key priv_proto priv_key salt) = some (proto, key)

-- `snmp_v3::ScopedPdu`
pub record ScopedPdu : Type 0 where
  pub engine_id : Bytes
  pub name : Bytes
  pub trap_pdu : V2Pdu

-- `snmp_v3::ScopedPduData`
pub data ScopedPduData : Type 0 where
  encrypted_pdu : Bytes → ScopedPduData
  cleartext_pdu : ScopedPdu → ScopedPduData

-- `snmp_v3::USMSecurityParameters`
pub record UsmSecurityParameters : Type 0 where
  pub authoritative_engine_id : Bytes
  pub authoritative_engine_boots : ℕ
  pub authoritative_engine_time : ℕ
  pub user_name : Bytes
  pub authentication_parameters : Bytes
  pub privacy_parameters : Bytes

-- `snmp_v3::HeaderData`
pub record HeaderData : Type 0 where
  pub message_id : ℤ
  pub max_size : ℕ
  pub flags : Bytes
  pub security_model : ℕ

-- `snmp_v3::Message`
pub record Message : Type 0 where
  pub version : ℕ
  pub global_data : HeaderData
  pub security_parameters : Bytes
  pub scoped_data : ScopedPduData

-- `rasn::ber::encode` on the three types that are encoded, with the text of its error, and a
-- constant of the SNMP library.
pub record Codec : Type 0 where
  pub encode_scoped : ScopedPdu → Outcome Str Bytes
  pub encode_params : UsmSecurityParameters → Outcome Str Bytes
  pub encode_message : Message → Outcome Str Bytes
  pub no_error : ℕ

-- `encode`: the text of the encoder's error is kept.
abbrev pub encoded : Outcome Str Bytes → Outcome Error Bytes
encoded m = map_err (λ e. encode (encoder e)) m

abbrev pub build_usm_params : V3TrapMessage → Bytes → Bytes → UsmSecurityParameters
build_usm_params m auth_params priv_params = record {
  authoritative_engine_id = m.authoritative_engine_id.bytes;
  authoritative_engine_boots = m.engine_boots;
  authoritative_engine_time = m.engine_time;
  user_name = m.user_name;
  authentication_parameters = auth_params;
  privacy_parameters = priv_params;
}

-- The length of the placeholder.
abbrev pub auth_param_len_of : V3Security → ℕ
auth_param_len_of no_auth = 0
auth_param_len_of (auth_only proto key) = auth_param_len proto
auth_param_len_of (auth_and_priv proto key priv_proto priv_key salt) = auth_param_len proto

abbrev pub header : V3TrapMessage → HeaderData
header m = record {
  message_id = m.msg_id;
  max_size = msg_max_size;
  flags = flag_byte m.security ∷ [];
  security_model = security_model_usm;
}

-- A message around security parameters that are encoded already.
abbrev pub message_with : V3TrapMessage → Bytes → ScopedPduData → Message
message_with m security_params scoped_data = record {
  version = msg_version_v3;
  global_data = header m;
  security_parameters = security_params;
  scoped_data = scoped_data;
}

module _ (c : Crypto) (codec : Codec) where
  unfoldable pub build_scoped_pdu : V3TrapMessage → Outcome Error ScopedPdu
  build_scoped_pdu m = do
    binds ← v2_bindings m.trap
    ok (record {
      engine_id = m.context_engine_id.bytes;
      name = m.context_name;
      trap_pdu = record {
        request_id = m.trap.request_id;
        error_status = codec.no_error;
        error_index = 0;
        variable_bindings = binds;
      };
    })

  -- The data of the message, and the privacy parameters.
  unfoldable pub scope :
      V3TrapMessage → V3Security → ScopedPdu → Outcome Error (ScopedPduData × Bytes)
  scope m (auth_and_priv proto key priv_proto priv_key salt) scoped_pdu = do
    plaintext ← encoded (codec.encode_scoped scoped_pdu)
    ct ← priv_encrypt c plaintext priv_key m.engine_boots m.engine_time salt priv_proto
    ok (encrypted_pdu ct, be64 salt)
  scope m no_auth scoped_pdu = ok (cleartext_pdu scoped_pdu, [])
  scope m (auth_only proto key) scoped_pdu = ok (cleartext_pdu scoped_pdu, [])

  -- One encoding of the whole message, with these authentication parameters.
  unfoldable pub encode_with : V3TrapMessage → Bytes → Bytes → ScopedPduData → Outcome Error Bytes
  encode_with m auth_params priv_params scoped_data = do
    params ← encoded (codec.encode_params (build_usm_params m auth_params priv_params))
    encoded (codec.encode_message (message_with m params scoped_data))

  -- The placeholder is replaced by the tag, and the message encoded again.
  unfoldable pub sign :
      V3TrapMessage
      → Option (AuthProtocol × Bytes)
      → Bytes
      → ScopedPduData
      → Bytes
      → Outcome Error Bytes
  sign m none priv_params scoped_data placeholder = ok placeholder
  sign m (some (proto, key)) priv_params scoped_data placeholder = do
    tag ← auth_sign c placeholder key proto
    assert (length tag == auth_param_len_of m.security)
    encode_with m tag priv_params scoped_data

  unfoldable pub build_v3_trap_message : V3TrapMessage → Outcome Error Bytes
  build_v3_trap_message m = do
    scoped_pdu ← build_scoped_pdu m
    (scoped_data, priv_params) ← scope m m.security scoped_pdu
    placeholder ← encode_with m (replicate (auth_param_len_of m.security) 0) priv_params scoped_data
    sign m (auth m.security) priv_params scoped_data placeholder
