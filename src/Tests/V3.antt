-- ===== src/Tests/V3.antt =====
-- The theorems on src/v3.rs, at a concrete message.
use snmptrap_rs.Prelude.{◌≡◌, refl, ◌⊎◌, [], ◌∷◌, ok, err, arith, Bytes, replicate}
use snmptrap_rs.Prelude.Int.{pos}
use snmptrap_rs.Text.{Str}
use snmptrap_rs.Errors.{encode, encoder}
use snmptrap_rs.Usm.Types.{sha1, aes128}
use snmptrap_rs.V3.{V3TrapMessage, auth_and_priv, build_v3_trap_message}
use snmptrap_rs.V3.Receiver.{FitKeys, scoped, IsAccepted, IsDecrypted}
use snmptrap_rs.V3.Accepted.{sender_of, build_v3_trap_message-IsAccepted}
use snmptrap_rs.V3.Decrypted.{build_v3_trap_message-IsDecrypted}
use snmptrap_rs.V3.Ends.{build_v3_trap_message_ends}
use snmptrap_rs.Tests.Toy.{crypto, lawful, codec, decoder, inverse, never_panics}

abbrev message : V3TrapMessage
message = record {
  authoritative_engine_id = record { bytes = 128 ∷ 0 ∷ 31 ∷ 136 ∷ 1 ∷ [] };
  context_engine_id = record { bytes = 128 ∷ 0 ∷ 31 ∷ 136 ∷ 1 ∷ [] };
  context_name = [];
  user_name = 117 ∷ [];
  engine_boots = 1;
  engine_time = 100;
  msg_id = pos 7;
  security = auth_and_priv sha1 (replicate 20 7) aes128 (replicate 16 9) 5;
  trap = record {
    community = [];
    request_id = pos 9;
    uptime_centiseconds = 12345;
    trap_oid = 1 ∷ 3 ∷ 6 ∷ [];
    varbinds = [];
  };
}

keys : FitKeys message.security
unfolding FitKeys
keys = (refl, omega arith)

build_v3_trap_message_ends_example :
    ((wire : Bytes) × (build_v3_trap_message crypto codec message ≡ ok wire))
    ⊎ ((e : Str) × (build_v3_trap_message crypto codec message ≡ err (encode (encoder e))))
build_v3_trap_message_ends_example =
    build_v3_trap_message_ends crypto codec message lawful never_panics keys

abbrev wire : Bytes
wire =
    3 ∷ 65507 ∷ 3 ∷ 7 ∷ 1 ∷ 3 ∷ 31 ∷ 1 ∷ 100 ∷ 5 ∷ 128 ∷ 0 ∷ 31 ∷ 136 ∷ 1 ∷ 1 ∷ 117 ∷ 12 ∷ 0 ∷ 0 ∷ 0
    ∷ 0 ∷ 0 ∷ 0 ∷ 0 ∷ 0 ∷ 0 ∷ 0 ∷ 0 ∷ 0 ∷ 0 ∷ 0 ∷ 0 ∷ 0 ∷ 0 ∷ 0 ∷ 0 ∷ 5 ∷ 5 ∷ 128 ∷ 0 ∷ 31 ∷ 136 ∷ 1
    ∷ []

built : build_v3_trap_message crypto codec message ≡ ok wire
unfolding build_v3_trap_message snmptrap_rs.V3.build_scoped_pdu snmptrap_rs.Pdu.v2_bindings
    snmptrap_rs.Pdu.push_v2 snmptrap_rs.V3.scope snmptrap_rs.Usm.Keys.priv_encrypt
    snmptrap_rs.V3.encode_with snmptrap_rs.V3.sign snmptrap_rs.Usm.Keys.auth_sign
built = refl

build_v3_trap_message-IsAccepted_example :
    IsAccepted crypto codec decoder (sender_of message) sha1 (replicate 20 7) wire
build_v3_trap_message-IsAccepted_example =
    build_v3_trap_message-IsAccepted crypto codec decoder message sha1 (replicate 20 7) wire inverse
      refl built

build_v3_trap_message-IsDecrypted_example :
    (plaintext : Bytes) × (codec.encode_scoped (scoped codec message) ≡ ok plaintext)
    × IsDecrypted crypto decoder aes128 (replicate 16 9) wire plaintext
build_v3_trap_message-IsDecrypted_example =
    build_v3_trap_message-IsDecrypted crypto codec decoder message sha1 (replicate 20 7) aes128
      (replicate 16 9) 5 wire lawful inverse refl (omega arith) built
