-- ===== src/V3/Decrypted.antt =====
-- The privacy of the version 3 message of src/v3.rs.
use snmptrap_rs.Prelude.{ℕ, ◌≤◌, ◌≡◌, sym, ◌∙◌, ap, some, ok, >>=-eq-ok, Bytes, length, take}
use snmptrap_rs.Prelude.Words.{be64}
use snmptrap_rs.Usm.Types.{AuthProtocol, PrivProtocol, key_len}
use snmptrap_rs.Usm.Crypto.{Crypto, IsLawful}
use snmptrap_rs.Usm.Keys.{priv_encrypt, make_aes_iv}
use snmptrap_rs.Usm.Keys.Laws.{priv_encrypt_ok}
use snmptrap_rs.V3.{
  auth_and_priv, V3TrapMessage, auth, ScopedPduData, encrypted_pdu, Codec, encoded,
  build_usm_params, message_with, scope, sign, build_v3_trap_message,
}
use snmptrap_rs.V3.Receiver.{
  scoped, Decoder, IsInverse, IsDecrypted, encoded-eq-ok, encode_with-eq-ok, build-eq-ok,
  sign-eq-ok,
}

-- What encryption leaves in the message.
scope-encrypted :
    (c : Crypto) (codec : Codec) (law : IsLawful c) (m : V3TrapMessage) (proto : AuthProtocol)
    (key : Bytes) (priv_proto : PrivProtocol) (priv_key : Bytes) (salt : ℕ)
    {data_part : ScopedPduData} {priv_params : Bytes}
    → key_len priv_proto ≤ length priv_key
    → scope c codec m (auth_and_priv proto key priv_proto priv_key salt) (scoped codec m)
      ≡ ok (data_part, priv_params)
    → (plaintext ct : Bytes) × (codec.encode_scoped (scoped codec m) ≡ ok plaintext)
      × (data_part ≡ encrypted_pdu ct)
      × (priv_params ≡ be64 salt)
      × (c.cfb_decrypt priv_proto
            (take (key_len priv_proto) priv_key)
            (make_aes_iv c m.engine_boots m.engine_time salt)
            ct
          ≡ some plaintext)
unfolding scope
scope-encrypted c codec law m proto key priv_proto priv_key salt fits h =
    let (plaintext, p, rest) = >>=-eq-ok (encoded (codec.encode_scoped (scoped codec m))) _ h in
    let (ct, x, d) =
      priv_encrypt_ok c law plaintext priv_key m.engine_boots m.engine_time salt priv_proto fits in
    let (ct', x', same) =
      >>=-eq-ok (priv_encrypt c plaintext priv_key m.engine_boots m.engine_time salt priv_proto) _
        rest in
    let cts : ct ≡ ct' = cc in (plaintext, ct, encoded-eq-ok _ p, cc, cc, d)

-- A message that was built with privacy is decrypted by every receiver that has the key: from the
-- boots and the time in the message and the salt in its privacy parameters it gets the encoding of
-- the scoped PDU, whose trap has the uptime, the trap's name and the user's bindings. The decoder
-- decodes what the encoder encodes, and the cryptography is lawful.
pub build_v3_trap_message-IsDecrypted :
    (c : Crypto) (codec : Codec) (dec : Decoder) (m : V3TrapMessage) (proto : AuthProtocol)
    (key : Bytes) (priv_proto : PrivProtocol) (priv_key : Bytes) (salt : ℕ) (wire : Bytes)
    → IsLawful c
    → IsInverse codec dec
    → m.security ≡ auth_and_priv proto key priv_proto priv_key salt
    → key_len priv_proto ≤ length priv_key
    → build_v3_trap_message c codec m ≡ ok wire
    → (plaintext : Bytes) × (codec.encode_scoped (scoped codec m) ≡ ok plaintext)
      × IsDecrypted c dec priv_proto priv_key wire plaintext
unfolding IsDecrypted scope
build_v3_trap_message-IsDecrypted c codec dec m proto key priv_proto priv_key salt wire law inverse
      h fits b =
    let (data_part, priv_params, placeholder, e, z, s) = build-eq-ok c codec m b in
    let s' : sign c codec m (some (proto, key)) priv_params data_part placeholder ≡ ok wire =
      ap (λ o. sign c codec m (auth o) priv_params data_part placeholder) (sym h) ∙ s in
    let e' : scope c codec m (auth_and_priv proto key priv_proto priv_key salt) (scoped codec m)
        ≡ ok (data_part, priv_params) =
      ap (λ o. scope c codec m o (scoped codec m)) (sym h) ∙ e in
    let (tag, t, l, w) = sign-eq-ok c codec m proto key priv_params placeholder data_part s' in
    let (params, wp, wm) = encode_with-eq-ok c codec m tag priv_params data_part w in
    let (plaintext, ct, p, q, r, d) =
      scope-encrypted c codec law m proto key priv_proto priv_key salt fits e' in
    (
      plaintext,
      p,
      (
        message_with m params data_part,
        build_usm_params m tag priv_params,
        ct,
        inverse.decode-encode_message _ wire wm,
        inverse.decode-encode_params _ params wp,
        q,
        rw r d,
      ),
    )
