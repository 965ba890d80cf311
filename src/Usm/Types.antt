-- ===== src/Usm/Types.antt =====
-- The protocols of src/usm.rs.
use snmptrap_rs.Prelude.{ℕ}

pub data AuthProtocol : Type 0 where
  sha1 sha224 sha256 sha384 sha512 : AuthProtocol

pub data PrivProtocol : Type 0 where
  aes128 aes192 aes256 : PrivProtocol

-- Length of the digest in bytes, which is that of a localized key.
abbrev pub digest_len : AuthProtocol → ℕ
digest_len sha1 = 20
digest_len sha224 = 28
digest_len sha256 = 32
digest_len sha384 = 48
digest_len sha512 = 64

-- Length of the truncated tag in `authenticationParameters`.
abbrev pub auth_param_len : AuthProtocol → ℕ
auth_param_len sha1 = 12
auth_param_len sha224 = 16
auth_param_len sha256 = 24
auth_param_len sha384 = 32
auth_param_len sha512 = 48

abbrev pub key_len : PrivProtocol → ℕ
key_len aes128 = 16
key_len aes192 = 24
key_len aes256 = 32
