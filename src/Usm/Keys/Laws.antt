-- ===== src/Usm/Keys/Laws.antt =====
-- When keys, tags and ciphertexts come about, and their lengths.
use snmptrap_rs.Prelude.{
  ℕ, ◌≤◌, ◌<◌, ◌≡◌, refl, ◌⊎◌, inl, inr, true, false, ◌++◌, some, arith, ok, err, Bytes, length,
  length-take, take, ltb, leb, ◌==◌,
}
use snmptrap_rs.Text.{Str, str_len, as_bytes}
use snmptrap_rs.Errors.{usage, password_floor, key_too_short}
use snmptrap_rs.Engine.Id.{EngineId}
use snmptrap_rs.Usm.Types.{
  AuthProtocol, sha1, sha224, sha256, sha384, sha512, PrivProtocol, digest_len, auth_param_len,
  key_len,
}
use snmptrap_rs.Usm.Crypto.{Crypto, IsLawful}
use snmptrap_rs.Usm.Keys.{
  password_intermediate_digest, slice_to, password_to_key, priv_key_from_password, auth_sign,
  priv_encrypt, make_aes_iv, min_usm_password_len,
}

auth_param_len-le : (p : AuthProtocol) → auth_param_len p ≤ digest_len p
auth_param_len-le sha1 = omega arith
auth_param_len-le sha224 = omega arith
auth_param_len-le sha256 = omega arith
auth_param_len-le sha384 = omega arith
auth_param_len-le sha512 = omega arith

slice_to_ok : (n : ℕ) (bs : Bytes) → n ≤ length bs → slice_to n bs ≡ ok (take n bs)
slice_to_ok n bs h = let fits : leb n (length bs) ≡ true = ground arith in rw fits

floor_cases : (n : ℕ) → (n < min_usm_password_len) ⊎ (min_usm_password_len ≤ n)
floor_cases n = omega arith

key_cases : (d k : ℕ) → (d < k) ⊎ (k ≤ d)
key_cases d k = omega arith

module _ (c : Crypto) (law : IsLawful c) where
  pub password_to_key_short :
      (password : Str) (eid : EngineId) (proto : AuthProtocol)
      → str_len password < min_usm_password_len
      → password_to_key c password eid proto ≡ err (usage (password_floor (str_len password)))
  unfolding password_to_key
  password_to_key_short password eid proto h =
      let short : ltb (str_len password) min_usm_password_len ≡ true = ground arith in rw short

  pub password_to_key_ok :
      (password : Str) (eid : EngineId) (proto : AuthProtocol)
      → min_usm_password_len ≤ str_len password
      → (key : Bytes) × (password_to_key c password eid proto ≡ ok key)
        × (length key ≡ digest_len proto)
  unfolding password_to_key
  password_to_key_ok password eid proto h =
      let enough : ltb (str_len password) min_usm_password_len ≡ false = ground arith in
      (
        c.digest proto (
            password_intermediate_digest c (as_bytes password) proto
            ++ (eid.bytes ++ password_intermediate_digest c (as_bytes password) proto)),
        rw enough,
        law.length-digest proto (
            password_intermediate_digest c (as_bytes password) proto
            ++ (eid.bytes ++ password_intermediate_digest c (as_bytes password) proto)),
      )

  priv_key_too_short :
      (password : Str) (eid : EngineId) (auth_proto : AuthProtocol) (priv_proto : PrivProtocol)
      (key : Bytes)
      → password_to_key c password eid auth_proto ≡ ok key
      → length key ≡ digest_len auth_proto
      → digest_len auth_proto < key_len priv_proto
      → priv_key_from_password c password eid auth_proto priv_proto
        ≡ err (
            usage
              (key_too_short auth_proto priv_proto (digest_len auth_proto) (key_len priv_proto)))
  unfolding priv_key_from_password
  priv_key_too_short password eid auth_proto priv_proto key e l less =
      let short : ltb (digest_len auth_proto) (key_len priv_proto) ≡ true = ground arith in
      rw (e, l, short)

  priv_key_fits :
      (password : Str) (eid : EngineId) (auth_proto : AuthProtocol) (priv_proto : PrivProtocol)
      (key : Bytes)
      → password_to_key c password eid auth_proto ≡ ok key
      → length key ≡ digest_len auth_proto
      → key_len priv_proto ≤ digest_len auth_proto
      → priv_key_from_password c password eid auth_proto priv_proto
        ≡ ok (take (key_len priv_proto) key)
  unfolding priv_key_from_password
  priv_key_fits password eid auth_proto priv_proto key e l fits =
      let long : ltb (digest_len auth_proto) (key_len priv_proto) ≡ false = ground arith in
      let whole : leb (key_len priv_proto) (digest_len auth_proto) ≡ true = ground arith in
      rw (e, l, long, whole)

  abbrev pub PrivKeyCases : Str → EngineId → AuthProtocol → PrivProtocol → Type 0
  PrivKeyCases password eid auth_proto priv_proto =
      ((str_len password < min_usm_password_len)
        × (priv_key_from_password c password eid auth_proto priv_proto
            ≡ err (usage (password_floor (str_len password)))))
      ⊎ ((min_usm_password_len ≤ str_len password)
          × (digest_len auth_proto < key_len priv_proto)
          × (priv_key_from_password c password eid auth_proto priv_proto
              ≡ err (
                  usage (
                    key_too_short auth_proto priv_proto (digest_len auth_proto)
                      (key_len priv_proto)))))
      ⊎ ((min_usm_password_len ≤ str_len password)
          × (key_len priv_proto ≤ digest_len auth_proto)
          × ((key : Bytes) × (priv_key_from_password c password eid auth_proto priv_proto ≡ ok key)
              × (length key ≡ key_len priv_proto)))

  -- A privacy key is refused for a password under 8 bytes, whatever the protocols; else for a digest
  -- shorter than the key, with both lengths named; else it has the length that the cipher wants.
  pub priv_key_from_password-cases :
      (password : Str) (eid : EngineId) (auth_proto : AuthProtocol) (priv_proto : PrivProtocol)
      → PrivKeyCases password eid auth_proto priv_proto
  priv_key_from_password-cases password eid auth_proto priv_proto =
      elim (floor_cases (str_len password)) [
        | inl short ↦ inl (
          short,
          unfold priv_key_from_password in rw (password_to_key_short password eid auth_proto short),
        )
        | inr enough ↦
            let (key, e, l) = password_to_key_ok password eid auth_proto enough in
            inr (long enough key e l)
      ]
    where
      long :
          min_usm_password_len ≤ str_len password
          → (key : Bytes) → password_to_key c password eid auth_proto ≡ ok key
          → length key ≡ digest_len auth_proto
          → ((min_usm_password_len ≤ str_len password)
              × (digest_len auth_proto < key_len priv_proto)
              × (priv_key_from_password c password eid auth_proto priv_proto
                  ≡ err (
                      usage (
                        key_too_short auth_proto priv_proto
                          (digest_len auth_proto)
                          (key_len priv_proto)))))
            ⊎ ((min_usm_password_len ≤ str_len password)
                × (key_len priv_proto ≤ digest_len auth_proto)
                × ((key : Bytes) × (priv_key_from_password c password eid auth_proto priv_proto
                      ≡ ok key)
                    × (length key ≡ key_len priv_proto)))
      long enough key e l = elim (key_cases (digest_len auth_proto) (key_len priv_proto)) [
        | inl less ↦
            inl (enough, less, priv_key_too_short password eid auth_proto priv_proto key e l less)
        | inr fits ↦ inr (
          enough,
          fits,
          (
            take (key_len priv_proto) key,
            priv_key_fits password eid auth_proto priv_proto key e l fits,
            omega (arith, length-take (key_len priv_proto) key),
          ),
        )
      ]

  -- A key of the right length gives a tag of the length that the message reserves for it.
  pub auth_sign_ok :
      (message key : Bytes) (proto : AuthProtocol)
      → length key ≡ digest_len proto
      → (tag : Bytes) × (auth_sign c message key proto ≡ ok tag)
        × (length tag ≡ auth_param_len proto)
  unfolding auth_sign
  auth_sign_ok message key proto h =
      let right : (length key == digest_len proto) ≡ true = ground arith in
      (
        take (auth_param_len proto) (c.hmac proto key message),
        rw (
          right,
          slice_to_ok (auth_param_len proto) (c.hmac proto key message)
              (omega (arith, law.length-hmac proto key message, auth_param_len-le proto)),
        ),
        omega (
          arith,
          length-take (auth_param_len proto) (c.hmac proto key message),
          law.length-hmac proto key message,
          auth_param_len-le proto,
        ),
      )

  -- With a key that is long enough the text is encrypted, and whoever knows the key, the boots, the
  -- time and the salt decrypts it.
  pub priv_encrypt_ok :
      (plaintext key : Bytes) (boots time salt : ℕ) (proto : PrivProtocol)
      → key_len proto ≤ length key
      → (ct : Bytes) × (priv_encrypt c plaintext key boots time salt proto ≡ ok ct)
        × (c.cfb_decrypt proto (take (key_len proto) key) (make_aes_iv c boots time salt) ct
            ≡ some plaintext)
  unfolding priv_encrypt
  priv_encrypt_ok plaintext key boots time salt proto h =
      let (ct, e, d) =
        law.cfb_round_trip proto (take (key_len proto) key) (make_aes_iv c boots time salt)
          plaintext (omega (arith, length-take (key_len proto) key)) refl in
      let fits : leb (key_len proto) (length key) ≡ true = ground arith in (ct, rw (fits, e), d)
