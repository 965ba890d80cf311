-- ===== src/V3/Ends.antt =====
-- When src/v3.rs returns a message.
use snmptrap_rs.Prelude.{
  ℕ, ◌≡◌, ◌≢◌, refl, sym, ◌∙◌, ◌⊎◌, inl, inr, true, Option, none, some, arith, Outcome, ok, err,
  panic, ◌>>=◌, Bytes, length, ◌==◌,
}
use snmptrap_rs.Prelude.Words.{be64}
use snmptrap_rs.Text.{Str}
use snmptrap_rs.Errors.{Error, encode, encoder}
use snmptrap_rs.Usm.Types.{AuthProtocol, digest_len}
use snmptrap_rs.Usm.Crypto.{Crypto, IsLawful}
use snmptrap_rs.Usm.Keys.Laws.{auth_sign_ok, priv_encrypt_ok}
use snmptrap_rs.V3.{
  V3Security, no_auth, auth_only, auth_and_priv, V3TrapMessage, auth, ScopedPdu, ScopedPduData,
  encrypted_pdu, UsmSecurityParameters, Message, Codec, encoded, build_usm_params,
  auth_param_len_of, scope, encode_with, sign, build_v3_trap_message,
}
use snmptrap_rs.V3.Receiver.{FitKeys, scoped, finish, build-finish, auth_lens}

auth_key_fits :
    (s : V3Security) (proto : AuthProtocol) (key : Bytes)
    → auth s ≡ some (proto, key)
    → FitKeys s
    → length key ≡ digest_len proto
unfolding FitKeys
auth_key_fits no_auth proto key e h = cc
auth_key_fits (auth_only p k) proto key e h = cc
auth_key_fits (auth_and_priv p k q l salt) proto key e h = let same = h.0 in cc

==_true : {m n : ℕ} → m ≡ n → (m == n) ≡ true
==_true h = ground (arith, h)

-- The encoder does not panic.
abbrev pub NeverPanics : Codec → Type 0
NeverPanics codec =
    ((x : ScopedPdu) → codec.encode_scoped x ≢ panic)
    × ((x : UsmSecurityParameters) → codec.encode_params x ≢ panic)
    × ((x : Message) → codec.encode_message x ≢ panic)

-- A value, or an error of the encoder.
abbrev pub Ends : {A : Type 0} → Outcome Error A → Type 0
Ends {A} o = ((a : A) × (o ≡ ok a)) ⊎ ((e : Str) × (o ≡ err (encode (encoder e))))

Ends->>= :
    {A B : Type 0} (o : Outcome Error A) (f : A → Outcome Error B)
    → Ends o
    → ((a : A) → o ≡ ok a → Ends (f a))
    → Ends (o >>= f)
Ends->>= o f (inl (a, h)) k = rw h (k a h)
Ends->>= o f (inr (e, h)) k = inr (e, rw h)

encoded-Ends : (o : Outcome Str Bytes) → o ≢ panic → Ends (encoded o)
encoded-Ends (ok bs) h = inl (bs, refl)
encoded-Ends (err e) h = inr (e, refl)
encoded-Ends panic h = absurd (h refl)

module _ (c : Crypto) (codec : Codec) (law : IsLawful c) (never : NeverPanics codec) where
  encode_with-Ends :
      (m : V3TrapMessage) (auth_params priv_params : Bytes) (data_part : ScopedPduData)
      → Ends (encode_with c codec m auth_params priv_params data_part)
  unfolding encode_with
  encode_with-Ends m auth_params priv_params data_part =
      Ends->>= (encoded (codec.encode_params (build_usm_params m auth_params priv_params))) _
        (encoded-Ends _ (never.1 _)) (λ params h. encoded-Ends _ (never.2 _))

  scope-Ends :
      (m : V3TrapMessage) (s : V3Security) (pdu : ScopedPdu)
      → FitKeys s
      → Ends (scope c codec m s pdu)
  unfolding scope FitKeys
  scope-Ends m no_auth pdu h = inl (_, refl)
  scope-Ends m (auth_only proto key) pdu h = inl (_, refl)
  scope-Ends m (auth_and_priv proto key priv_proto priv_key salt) pdu h =
      Ends->>= (encoded (codec.encode_scoped pdu)) _ (encoded-Ends _ (never.0 _)) (λ plaintext e.
        let (ct, x, d) =
          priv_encrypt_ok c law plaintext priv_key m.engine_boots m.engine_time salt priv_proto
            h.1 in
        inl ((encrypted_pdu ct, be64 salt), rw x))

  sign-Ends :
      (m : V3TrapMessage) (priv_params placeholder : Bytes) (data_part : ScopedPduData)
      (o : Option (AuthProtocol × Bytes))
      → auth m.security ≡ o
      → FitKeys m.security
      → Ends (sign c codec m o priv_params data_part placeholder)
  unfolding sign
  sign-Ends m priv_params placeholder data_part none e h = inl (placeholder, refl)
  sign-Ends m priv_params placeholder data_part (some (proto, key)) e h =
      let (tag, x, l) =
        auth_sign_ok c law placeholder key proto (auth_key_fits m.security proto key e h) in
      let right : (length tag == auth_param_len_of m.security) ≡ true =
        ==_true (l ∙ sym (auth_lens m.security proto key e)) in
      rw (x, right) (encode_with-Ends m tag priv_params data_part)

-- With keys of the lengths that the protocols want and an encoder that does not panic, a message is
-- built, or the encoder's error returned: no assertion fails and no index is out of range. The
-- cryptography is lawful.
pub build_v3_trap_message_ends :
    (c : Crypto) (codec : Codec) (m : V3TrapMessage)
    → IsLawful c
    → NeverPanics codec
    → FitKeys m.security
    → ((wire : Bytes) × (build_v3_trap_message c codec m ≡ ok wire))
      ⊎ ((e : Str) × (build_v3_trap_message c codec m ≡ err (encode (encoder e))))
build_v3_trap_message_ends c codec m law never h = rw (build-finish c codec m) (
    Ends->>= (scope c codec m m.security (scoped codec m)) (λ p. finish c codec m p)
      (scope-Ends c codec law never m m.security (scoped codec m) h)
      (λ p e.
        Ends->>= _ (λ placeholder. sign c codec m (auth m.security) p.1 p.0 placeholder)
          (encode_with-Ends c codec law never m _ p.1 p.0)
          (λ placeholder f. sign-Ends c codec law never m p.1 placeholder p.0 _ refl h)))
