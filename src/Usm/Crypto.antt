-- ===== src/Usm/Crypto.antt =====
-- The external cryptography that src/usm.rs calls, and what its documentation says of it.
use mathlib.Core.List.{flatten}
use snmptrap_rs.Prelude.{◌≡◌, List, Option, some, Bytes, length}
use snmptrap_rs.Usm.Types.{AuthProtocol, PrivProtocol, digest_len, key_len}

pub record Crypto : Type 0 where
  -- A hasher that is fed the chunks in turn, and then finalized.
  pub hash_chunks : AuthProtocol → List Bytes → Bytes
  -- `digest`, of one input.
  pub digest : AuthProtocol → Bytes → Bytes
  -- HMAC of a key and a message.
  pub hmac : AuthProtocol → Bytes → Bytes → Bytes
  -- AES in CFB mode, of a key, an IV and a text; `none` where the lengths are refused.
  pub cfb_encrypt : PrivProtocol → Bytes → Bytes → Bytes → Option Bytes
  pub cfb_decrypt : PrivProtocol → Bytes → Bytes → Bytes → Option Bytes

pub record IsLawful (c : Crypto) : Type 0 where
  -- Feeding a hasher in pieces gives the digest of the whole.
  pub hash_chunks-digest :
      (p : AuthProtocol) (chunks : List Bytes)
      → c.hash_chunks p chunks ≡ c.digest p (flatten chunks)
  pub length-digest : (p : AuthProtocol) (x : Bytes) → length (c.digest p x) ≡ digest_len p
  pub length-hmac : (p : AuthProtocol) (key x : Bytes) → length (c.hmac p key x) ≡ digest_len p
  -- With a key of the variant's length and an IV of 16 bytes, decryption gives the text back.
  pub cfb_round_trip :
      (p : PrivProtocol) (key iv x : Bytes)
      → length key ≡ key_len p
      → length iv ≡ 16
      → (y : Bytes) × (c.cfb_encrypt p key iv x ≡ some y) × (c.cfb_decrypt p key iv y ≡ some x)
