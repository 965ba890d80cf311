-- ===== src/V3/Accepted.antt =====
-- The authentication of the version 3 message of src/v3.rs.
use snmptrap_rs.Prelude.{
  ◌≡◌, refl, sym, ◌∙◌, ap, arith, [], ◌∷◌, some, Outcome, ok, >>=-eq-ok, Bytes,
}
use snmptrap_rs.Prelude.Words.{be64}
use snmptrap_rs.Errors.{Error}
use snmptrap_rs.Usm.Keys.{priv_encrypt}
use snmptrap_rs.Usm.Types.{AuthProtocol}
use snmptrap_rs.Usm.Crypto.{Crypto}
use snmptrap_rs.V3.{
  V3Security, no_auth, auth_only, auth_and_priv, V3TrapMessage, flag_byte, auth, ScopedPdu,
  ScopedPduData, encrypted_pdu, cleartext_pdu, Codec, encoded, scope, build_usm_params,
  message_with, sign, build_v3_trap_message,
}
use snmptrap_rs.V3.Receiver.{
  scoped, Sender, fit_flags, Decoder, IsInverse, IsAccepted, encode_with-eq-ok, build-eq-ok,
  sign-eq-ok, auth_sign-eq-ok, auth_lens,
}

-- The flags of the header fit what is done with the scoped PDU.
scope-fit_flags :
    (c : Crypto) (codec : Codec) (m : V3TrapMessage) (s : V3Security) (pdu : ScopedPdu)
    (proto : AuthProtocol) (key : Bytes) {data_part : ScopedPduData} {priv_params : Bytes}
    → auth s ≡ some (proto, key)
    → scope c codec m s pdu ≡ ok (data_part, priv_params)
    → flag_byte s ≡ fit_flags data_part
unfolding scope
scope-fit_flags c codec m no_auth pdu proto key h e = cc
scope-fit_flags c codec m (auth_only p k) pdu proto key {data_part} {priv_params} h e =
    let e' : ◌≡◌ {A = Outcome Error (ScopedPduData × Bytes)} (ok (cleartext_pdu pdu, []))
        (ok (data_part, priv_params)) =
      e in
    let same : cleartext_pdu pdu ≡ data_part = cc in ap fit_flags same
scope-fit_flags c codec m (auth_and_priv p k q l salt) pdu proto key {data_part} {priv_params} h e =
    let (plaintext, x, rest) = >>=-eq-ok (encoded (codec.encode_scoped pdu)) _ e in
    let (ct, y, e'') =
      >>=-eq-ok (priv_encrypt c plaintext l m.engine_boots m.engine_time salt q) _ rest in
    let e' : ◌≡◌ {A = Outcome Error (ScopedPduData × Bytes)} (ok (encrypted_pdu ct, be64 salt))
        (ok (data_part, priv_params)) =
      e'' in
    let same : encrypted_pdu ct ≡ data_part = cc in ap fit_flags same

-- The sender that a message names.
abbrev pub sender_of : V3TrapMessage → Sender
sender_of m = record {
  engine = m.authoritative_engine_id.bytes;
  user = m.user_name;
  boots = m.engine_boots;
  time = m.engine_time;
}

-- A message that was built at a level with authentication is accepted by every receiver that has
-- the key of its sender: it is of version 3 and of the user-based security model, its flags ask for
-- authentication, for privacy exactly if the scoped data is encrypted, and for no report, and it
-- names the authoritative engine and the user with the engine's boots and time; with the tag replaced
-- by zeros it is encoded to the text that the tag is the truncated HMAC of. The decoder is one that
-- decodes what the encoder encodes.
pub build_v3_trap_message-IsAccepted :
    (c : Crypto) (codec : Codec) (dec : Decoder) (m : V3TrapMessage) (proto : AuthProtocol)
    (key wire : Bytes)
    → IsInverse codec dec
    → auth m.security ≡ some (proto, key)
    → build_v3_trap_message c codec m ≡ ok wire
    → IsAccepted c codec dec (sender_of m) proto key wire
unfolding IsAccepted
build_v3_trap_message-IsAccepted c codec dec m proto key wire inverse h b =
    let (data_part, priv_params, placeholder, e, z, s) = build-eq-ok c codec m b in
    let s' : sign c codec m (some (proto, key)) priv_params data_part placeholder ≡ ok wire =
      ap (λ o. sign c codec m o priv_params data_part placeholder) (sym h) ∙ s in
    let (tag, t, l, w) = sign-eq-ok c codec m proto key priv_params placeholder data_part s' in
    let flags = scope-fit_flags c codec m m.security (scoped codec m) proto key h e in
    let (zeros, zp, zm) = encode_with-eq-ok c codec m _ priv_params data_part z in
    let (params, wp, wm) = encode_with-eq-ok c codec m tag priv_params data_part w in
    (
      message_with m params data_part,
      build_usm_params m tag priv_params,
      zeros,
      placeholder,
      inverse.decode-encode_message _ wire wm,
      inverse.decode-encode_params _ params wp,
      (refl, refl, ap (λ n. n ∷ []) flags, omega arith),
      (refl, refl, refl, refl),
      rw l zp,
      zm,
      l ∙ auth_lens m.security proto key h,
      auth_sign-eq-ok c placeholder key proto t,
    )
