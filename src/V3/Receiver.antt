-- ===== src/V3/Receiver.antt =====
-- The receiver of a version 3 message of src/v3.rs, and the parts of a message that was built.
use snmptrap_rs.Prelude.{
  ℕ, ◌≤◌, ◌≡◌, refl, sym, ◌∙◌, ap, Bool, true, false, [], ◌∷◌, ◌++◌, Option, none, some, arith,
  Outcome, ok, err, panic, ◌>>=◌, ◌>>◌, >>=-eq-ok, assert, Bytes, length, replicate, take, ◌==◌,
  leb, if◌then◌else◌,
}
use snmptrap_rs.Prelude.Words.{be32}
use snmptrap_rs.Text.{Str}
use snmptrap_rs.Errors.{Error}
use snmptrap_rs.Usm.Types.{AuthProtocol, PrivProtocol, digest_len, key_len, auth_param_len}
use snmptrap_rs.Usm.Crypto.{Crypto}
use snmptrap_rs.Usm.Keys.{auth_sign, slice_to}
use snmptrap_rs.Pdu.Laws.{carried, v2_bindings-carried}
use snmptrap_rs.V3.{
  V3Security, no_auth, auth_only, auth_and_priv, V3TrapMessage, auth, ScopedPdu, ScopedPduData,
  encrypted_pdu, cleartext_pdu, UsmSecurityParameters, Message, Codec, encoded, build_usm_params,
  auth_param_len_of, message_with, build_scoped_pdu, scope, encode_with, sign,
  build_v3_trap_message,
}

-- Keys of the lengths that the protocols want.
unfoldable pub FitKeys : V3Security → Type 0
FitKeys no_auth = Unit
FitKeys (auth_only proto key) = length key ≡ digest_len proto
FitKeys (auth_and_priv proto key priv_proto priv_key salt) =
    (length key ≡ digest_len proto) × (key_len priv_proto ≤ length priv_key)

-- The scoped PDU that a message carries.
unfoldable pub scoped : Codec → V3TrapMessage → ScopedPdu
scoped codec m = record {
  engine_id = m.context_engine_id.bytes;
  name = m.context_name;
  trap_pdu = record {
    request_id = m.trap.request_id;
    error_status = codec.no_error;
    error_index = 0;
    variable_bindings = carried m.trap;
  };
}

-- The decoder of the receiver.
pub record Decoder : Type 0 where
  pub decode_message : Bytes → Option Message
  pub decode_params : Bytes → Option UsmSecurityParameters

-- What the encoder encodes, the decoder gives back.
pub record IsInverse (codec : Codec) (dec : Decoder) : Type 0 where
  pub decode-encode_message :
      (x : Message) (bs : Bytes) → codec.encode_message x ≡ ok bs → dec.decode_message bs ≡ some x
  pub decode-encode_params :
      (x : UsmSecurityParameters) (bs : Bytes)
      → codec.encode_params x ≡ ok bs
      → dec.decode_params bs ≡ some x

-- The security parameters with the tag replaced by as many zeros.
abbrev pub zeroed : UsmSecurityParameters → UsmSecurityParameters
zeroed p = record p { authentication_parameters = replicate (length p.authentication_parameters) 0 }

-- What a receiver knows of a sender: the engine, the user, and the engine's boots and time.
pub record Sender : Type 0 where
  pub engine : Bytes
  pub user : Bytes
  pub boots : ℕ
  pub time : ℕ

-- The flags that fit the scoped data of an authenticated trap (RFC 3412): authentication is bit 0,
-- privacy bit 1, which is set for encrypted data alone; bit 2 would ask for a report.
abbrev pub fit_flags : ScopedPduData → ℕ
fit_flags (encrypted_pdu ct) = 3
fit_flags (cleartext_pdu pdu) = 1

-- Version 3, the user-based security model (3), the flags that fit, and a maximum size that the
-- standard allows.
abbrev pub IsHeaded : Message → Type 0
IsHeaded msg =
    (msg.version ≡ 3)
    × (msg.global_data.security_model ≡ 3)
    × (msg.global_data.flags ≡ fit_flags msg.scoped_data ∷ [])
    × (484 ≤ msg.global_data.max_size)

-- The security parameters name the sender.
abbrev pub IsFrom : Sender → UsmSecurityParameters → Type 0
IsFrom sender p =
    (p.authoritative_engine_id ≡ sender.engine)
    × (p.user_name ≡ sender.user)
    × (p.authoritative_engine_boots ≡ sender.boots)
    × (p.authoritative_engine_time ≡ sender.time)

-- The receiver decodes the message and its security parameters, looks at the header and at the names
-- of the engine and of the user, whose key it has, puts zeros in place of the tag, encodes again,
-- and finds that the truncated HMAC of that is the tag.
unfoldable pub IsAccepted :
    Crypto → Codec → Decoder → Sender → AuthProtocol → Bytes → Bytes → Type 0
IsAccepted c codec dec sender proto key wire =
    (msg : Message) × (p : UsmSecurityParameters) × (params placeholder : Bytes)
    × (dec.decode_message wire ≡ some msg)
    × (dec.decode_params msg.security_parameters ≡ some p)
    × IsHeaded msg
    × IsFrom sender p
    × (codec.encode_params (zeroed p) ≡ ok params)
    × (codec.encode_message (record msg { security_parameters = params }) ≡ ok placeholder)
    × (length p.authentication_parameters ≡ auth_param_len proto)
    × (take (auth_param_len proto) (c.hmac proto key placeholder) ≡ p.authentication_parameters)

-- The receiver decodes the message and its security parameters, takes the text from the scoped
-- data, and decrypts it with the boots, the time and the privacy parameters that the message has.
unfoldable pub IsDecrypted : Crypto → Decoder → PrivProtocol → Bytes → Bytes → Bytes → Type 0
IsDecrypted c dec proto key wire plaintext =
    (msg : Message) × (p : UsmSecurityParameters) × (ct : Bytes) × (dec.decode_message wire
      ≡ some msg)
    × (dec.decode_params msg.security_parameters ≡ some p)
    × (msg.scoped_data ≡ encrypted_pdu ct)
    × (c.cfb_decrypt proto (take (key_len proto) key)
          (be32 p.authoritative_engine_boots
            ++ (be32 p.authoritative_engine_time ++ p.privacy_parameters))
          ct
        ≡ some plaintext)

pub encoded-eq-ok : (m : Outcome Str Bytes) {bs : Bytes} → encoded m ≡ ok bs → m ≡ ok bs
encoded-eq-ok (ok a) h = ap (λ o. elim o [ ok b ↦ ok b | err e ↦ panic | panic ↦ panic ]) h
encoded-eq-ok (err e) h = cc
encoded-eq-ok panic h = cc

sliced : (n : ℕ) (bs : Bytes) {tag : Bytes} → slice_to n bs ≡ ok tag → take n bs ≡ tag
sliced n bs h = kept (leb n (length bs)) h
  where
    kept :
        (b : Bool) {tag : Bytes}
        → ◌≡◌ {A = Outcome Error Bytes} (if b then ok (take n bs) else panic) (ok tag)
        → take n bs ≡ tag
    kept true h = cc
    kept false h = cc

assert_held :
    (b : Bool) (rest : Outcome Error Bytes) {w : Bytes}
    → (assert b >> rest) ≡ ok w
    → (b ≡ true) × (rest ≡ ok w)
assert_held true rest h = (refl, h)
assert_held false rest h = cc

-- A tag is the truncated HMAC.
pub auth_sign-eq-ok :
    (c : Crypto) (message key : Bytes) (proto : AuthProtocol) {tag : Bytes}
    → auth_sign c message key proto ≡ ok tag
    → take (auth_param_len proto) (c.hmac proto key message) ≡ tag
unfolding auth_sign
auth_sign-eq-ok c message key proto h =
    let (right, rest) = assert_held (length key == digest_len proto) _ h in sliced _ _ rest

module _ (c : Crypto) (codec : Codec) where
  pub build_scoped_pdu-scoped :
      (m : V3TrapMessage) → build_scoped_pdu c codec m ≡ ok (scoped codec m)
  unfolding build_scoped_pdu scoped
  build_scoped_pdu-scoped m = rw (v2_bindings-carried m.trap)

  -- An encoding that is there has its two parts.
  pub encode_with-eq-ok :
      (m : V3TrapMessage) (auth_params priv_params : Bytes) (data_part : ScopedPduData)
      {wire : Bytes}
      → encode_with c codec m auth_params priv_params data_part ≡ ok wire
      → (params : Bytes) × (codec.encode_params (build_usm_params m auth_params priv_params)
          ≡ ok params)
        × (codec.encode_message (message_with m params data_part) ≡ ok wire)
  unfolding encode_with
  encode_with-eq-ok m auth_params priv_params data_part h =
      let (params, e, f) =
        >>=-eq-ok (encoded (codec.encode_params (build_usm_params m auth_params priv_params))) _
          h in
      (params, encoded-eq-ok _ e, encoded-eq-ok _ f)

  -- What is done with the scoped data.
  abbrev pub finish : V3TrapMessage → ScopedPduData × Bytes → Outcome Error Bytes
  finish m (data_part, priv_params) = do
    placeholder ←
        encode_with c codec m (replicate (auth_param_len_of m.security) 0) priv_params data_part
    sign c codec m (auth m.security) priv_params data_part placeholder

  pub build-finish :
      (m : V3TrapMessage)
      → build_v3_trap_message c codec m
        ≡ (scope c codec m m.security (scoped codec m) >>= λ p. finish m p)
  unfolding build_v3_trap_message
  build-finish m = rw (build_scoped_pdu-scoped m)

  -- The parts of a message that was built.
  pub build-eq-ok :
      (m : V3TrapMessage) {wire : Bytes}
      → build_v3_trap_message c codec m ≡ ok wire
      → (data_part : ScopedPduData) × (priv_params placeholder : Bytes) × (scope c codec m
            m.security
            (scoped codec m)
          ≡ ok (data_part, priv_params))
        × (encode_with c codec m (replicate (auth_param_len_of m.security) 0) priv_params data_part
            ≡ ok placeholder)
        × (sign c codec m (auth m.security) priv_params data_part placeholder ≡ ok wire)
  build-eq-ok m h =
      let ((data_part, priv_params), e, f) =
        >>=-eq-ok (scope c codec m m.security (scoped codec m)) (λ p. finish m p)
          (sym (build-finish m) ∙ h) in
      let (placeholder, g, k) =
        >>=-eq-ok
          (encode_with c codec m (replicate (auth_param_len_of m.security) 0) priv_params data_part)
          _ f in
      (data_part, priv_params, placeholder, e, g, k)

  -- A tag that was put in has the placeholder's length, and is in the encoding.
  pub sign-eq-ok :
      (m : V3TrapMessage) (proto : AuthProtocol) (key priv_params placeholder : Bytes)
      (data_part : ScopedPduData) {wire : Bytes}
      → sign c codec m (some (proto, key)) priv_params data_part placeholder ≡ ok wire
      → (tag : Bytes) × (auth_sign c placeholder key proto ≡ ok tag)
        × (length tag ≡ auth_param_len_of m.security)
        × (encode_with c codec m tag priv_params data_part ≡ ok wire)
  unfolding sign
  sign-eq-ok m proto key priv_params placeholder data_part h =
      let (tag, e, f) = >>=-eq-ok (auth_sign c placeholder key proto) _ h in
      let (right, w) = assert_held (length tag == auth_param_len_of m.security) _ f in
      (tag, e, ground arith, w)

pub auth_lens :
    (s : V3Security) (proto : AuthProtocol) (key : Bytes)
    → auth s ≡ some (proto, key)
    → auth_param_len_of s ≡ auth_param_len proto
auth_lens no_auth proto key h = cc
auth_lens (auth_only p k) proto key h =
    ap (λ o. elim o [ some q ↦ auth_param_len q.0 | none ↦ 0 ]) h
auth_lens (auth_and_priv p k q l salt) proto key h =
    ap (λ o. elim o [ some q ↦ auth_param_len q.0 | none ↦ 0 ]) h
