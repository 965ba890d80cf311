-- ===== src/Usm/Keys.antt =====
-- Keys from passwords, signing and encryption of src/usm.rs.
pub mod Stretch
pub mod Laws
use snmptrap_rs.Prelude.{
  ℕ, zero, suc, ◌+◌, ◌-◌, min, Bool, List, [], ◌∷◌, ◌++◌, Option, none, some, Outcome, ok, err,
  panic, ◌>>=◌, ◌>>◌, reject_if, assert, expect, Bytes, length, take, ltb, leb, ◌==◌, if◌then◌else◌,
  is_empty,
}
use snmptrap_rs.Prelude.Words.{be32, be64}
use snmptrap_rs.Text.{Str, as_bytes, str_len}
use snmptrap_rs.Errors.{Error, usage, password_floor, key_too_short}
use snmptrap_rs.Engine.Id.{EngineId}
use snmptrap_rs.Usm.Types.{AuthProtocol, PrivProtocol, digest_len, auth_param_len, key_len}
use snmptrap_rs.Usm.Crypto.{Crypto}

abbrev pub min_usm_password_len : ℕ
min_usm_password_len = 8

-- One mebibyte.
pub stretch_target : ℕ
stretch_target = 1048576

-- The loop of `incremental_digest`: the chunks that the hasher is fed, for at most `rounds` rounds.
unfoldable pub feed : Bytes → ℕ → ℕ → ℕ → List Bytes
feed pw target zero written = []
feed pw target (suc rounds) written =
    let n = min (target - written) (length pw) in
    let rest = feed pw target rounds (written + n) in
    if ltb written target then take n pw ∷ rest else []

-- `bytes[..n]`, which panics beyond the end.
abbrev pub slice_to : ℕ → Bytes → Outcome Error Bytes
slice_to n bs = if leb n (length bs) then ok (take n bs) else panic

module _ (c : Crypto) where
  -- The rounds are as many as bytes are wanted: each round writes at least one.
  unfoldable pub incremental_digest : AuthProtocol → Bytes → ℕ → Bytes
  unfolding feed
  incremental_digest proto pw target = c.hash_chunks proto (feed pw target target 0)

  unfoldable pub password_intermediate_digest : Bytes → AuthProtocol → Bytes
  password_intermediate_digest pw proto =
      if is_empty pw then c.digest proto [] else incremental_digest proto pw stretch_target

  unfoldable pub password_to_key : Str → EngineId → AuthProtocol → Outcome Error Bytes
  password_to_key password engine_id proto = do
    reject_if (ltb (str_len password) min_usm_password_len)
        (usage (password_floor (str_len password)))
    let intermediate = password_intermediate_digest (as_bytes password) proto
    ok (c.digest proto (intermediate ++ (engine_id.bytes ++ intermediate)))

  unfoldable pub priv_key_from_password :
      Str → EngineId → AuthProtocol → PrivProtocol → Outcome Error Bytes
  priv_key_from_password password engine_id auth_proto priv_proto = do
    key ← password_to_key password engine_id auth_proto
    let need = key_len priv_proto
    reject_if (ltb (length key) need)
        (usage (key_too_short auth_proto priv_proto (length key) need))
    slice_to need key

  unfoldable pub auth_sign : Bytes → Bytes → AuthProtocol → Outcome Error Bytes
  auth_sign message auth_key proto = do
    assert (length auth_key == digest_len proto)
    slice_to (auth_param_len proto) (c.hmac proto auth_key message)

  -- Boots, time and salt, big-endian.
  abbrev pub make_aes_iv : ℕ → ℕ → ℕ → Bytes
  make_aes_iv engine_boots engine_time salt = be32 engine_boots ++ (be32 engine_time ++ be64 salt)

  unfoldable pub priv_encrypt : Bytes → Bytes → ℕ → ℕ → ℕ → PrivProtocol → Outcome Error Bytes
  priv_encrypt plaintext priv_key engine_boots engine_time salt proto = do
    assert (leb (key_len proto) (length priv_key))
    key ← slice_to (key_len proto) priv_key
    expect (c.cfb_encrypt proto key (make_aes_iv engine_boots engine_time salt) plaintext)
