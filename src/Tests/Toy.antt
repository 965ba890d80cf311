-- ===== src/Tests/Toy.antt =====
-- A cryptography and a codec that have the laws, for concrete runs.
use snmptrap_rs.Prelude.{
  ℕ, ◌≡◌, ◌≢◌, refl, sym, ◌∙◌, ap, [], ◌∷◌, ◌++◌, Option, none, some, Outcome, ok, err, panic,
  Bytes, length, length-replicate, take, drop, take-append, drop-append, replicate,
}
use snmptrap_rs.Prelude.Int.{ℤ, pos, negsuc}
use snmptrap_rs.Text.{Str}
use snmptrap_rs.Usm.Types.{digest_len}
use snmptrap_rs.Usm.Crypto.{Crypto, IsLawful}
use snmptrap_rs.V3.{
  ScopedPduData, encrypted_pdu, cleartext_pdu, UsmSecurityParameters, HeaderData, Message, Codec,
}
use snmptrap_rs.V3.Receiver.{Decoder, IsInverse}
use snmptrap_rs.V3.Ends.{NeverPanics}

-- Digests of zeros, and a cipher that changes nothing.
abbrev pub crypto : Crypto
crypto = record {
  hash_chunks = λ p chunks. replicate (digest_len p) 0;
  digest = λ p x. replicate (digest_len p) 0;
  hmac = λ p key x. replicate (digest_len p) 0;
  cfb_encrypt = λ p key iv x. some x;
  cfb_decrypt = λ p key iv x. some x;
}

pub lawful : IsLawful crypto
lawful = record {
  hash_chunks-digest = λ p chunks. refl;
  length-digest = λ p x. length-replicate (digest_len p) 0;
  length-hmac = λ p key x. length-replicate (digest_len p) 0;
  cfb_round_trip = λ p key iv x h k. (x, refl, refl);
}

-- A list behind its length.
abbrev put : Bytes → Bytes → Bytes
put xs rest = length xs ∷ (xs ++ rest)

abbrev flat_params : UsmSecurityParameters → Bytes
flat_params p =
    p.authoritative_engine_boots
    ∷ p.authoritative_engine_time
    ∷ put p.authoritative_engine_id
        (put p.user_name (put p.authentication_parameters p.privacy_parameters))

-- The list in front, and what is behind it.
abbrev front : Bytes → Bytes
front [] = []
front (n ∷ rest) = take n rest

abbrev behind : Bytes → Bytes
behind [] = []
behind (n ∷ rest) = drop n rest

abbrev read_params : Bytes → Option UsmSecurityParameters
read_params [] = none
read_params (b ∷ []) = none
read_params (b ∷ t ∷ rest) = some (record {
  authoritative_engine_id = front rest;
  authoritative_engine_boots = b;
  authoritative_engine_time = t;
  user_name = front (behind rest);
  authentication_parameters = front (behind (behind rest));
  privacy_parameters = behind (behind (behind rest));
})

abbrev flat_message : HeaderData → ℕ → Bytes → ℤ → ScopedPduData → Outcome Str Bytes
flat_message h version params (pos n) (encrypted_pdu ct) =
    ok (version ∷ h.max_size ∷ h.security_model ∷ n ∷ put h.flags (put params ct))
flat_message h version params (negsuc n) data_part = err []
flat_message h version params (pos n) (cleartext_pdu pdu) = err []

abbrev read_message : Bytes → Option Message
read_message (v ∷ s ∷ m ∷ n ∷ rest) = some (record {
  version = v;
  global_data = record { message_id = pos n; max_size = s; flags = front rest; security_model = m };
  security_parameters = front (behind rest);
  scoped_data = encrypted_pdu (behind (behind rest));
})
read_message [] = none
read_message (a ∷ []) = none
read_message (a ∷ b ∷ []) = none
read_message (a ∷ b ∷ c ∷ []) = none

abbrev pub codec : Codec
codec = record {
  encode_scoped = λ pdu. ok (put pdu.engine_id pdu.name);
  encode_params = λ p. ok (flat_params p);
  encode_message = λ m.
      flat_message m.global_data m.version m.security_parameters m.global_data.message_id
        m.scoped_data;
  no_error = 0;
}

abbrev pub decoder : Decoder
decoder = record { decode_message = read_message; decode_params = read_params }

read_flat_params : (p : UsmSecurityParameters) → read_params (flat_params p) ≡ some p
read_flat_params p =
    let a =
      take-append p.authoritative_engine_id
        (put p.user_name (put p.authentication_parameters p.privacy_parameters)) in
    let a' =
      drop-append p.authoritative_engine_id
        (put p.user_name (put p.authentication_parameters p.privacy_parameters)) in
    let b = take-append p.user_name (put p.authentication_parameters p.privacy_parameters) in
    let b' = drop-append p.user_name (put p.authentication_parameters p.privacy_parameters) in
    let c = take-append p.authentication_parameters p.privacy_parameters in
    let c' = drop-append p.authentication_parameters p.privacy_parameters in
    rw (a, a', b, b', c, c')

read_flat_message :
    (h : HeaderData) (version : ℕ) (params : Bytes) (ident : ℤ) (data_part : ScopedPduData)
    (bs : Bytes)
    → flat_message h version params ident data_part ≡ ok bs
    → read_message bs
      ≡ some (record {
        version = version;
        global_data = record h { message_id = ident };
        security_parameters = params;
        scoped_data = data_part;
      })
read_flat_message h version params (pos n) (encrypted_pdu ct) bs e =
    let same : version ∷ h.max_size ∷ h.security_model ∷ n ∷ put h.flags (put params ct) ≡ bs =
      cc in
    let a = take-append h.flags (put params ct) in
    let a' = drop-append h.flags (put params ct) in
    let b = take-append params ct in
    let b' = drop-append params ct in ap read_message (sym same) ∙ rw (a, a', b, b')
read_flat_message h version params (negsuc n) data_part bs e = cc
read_flat_message h version params (pos n) (cleartext_pdu pdu) bs e = cc

pub inverse : IsInverse codec decoder
inverse = record {
  decode-encode_message = λ x bs h.
      read_flat_message x.global_data x.version x.security_parameters x.global_data.message_id
        x.scoped_data bs h;
  decode-encode_params = λ x bs h.
      let same : flat_params x ≡ bs = cc in ap read_params (sym same) ∙ read_flat_params x;
}

flat_message_ends :
    (h : HeaderData) (version : ℕ) (params : Bytes) (ident : ℤ) (data_part : ScopedPduData)
    → flat_message h version params ident data_part ≢ panic
flat_message_ends h version params (pos n) (encrypted_pdu ct) e = cc
flat_message_ends h version params (pos n) (cleartext_pdu pdu) e = cc
flat_message_ends h version params (negsuc n) data_part e = cc

pub never_panics : NeverPanics codec
never_panics = (
  λ x e. cc,
  λ x e. cc,
  λ x.
      flat_message_ends x.global_data x.version x.security_parameters x.global_data.message_id
        x.scoped_data,
)
