-- ===== src/Usm/Names.antt =====
-- The names of the protocols: `FromStr` and `Display` of src/usm.rs.
use snmptrap_rs.Prelude.{◌≡◌, ap, ◌||◌, map, Outcome, ok, err, if◌then◌else◌}
use snmptrap_rs.Text.{Str, codes, str_eq, ascii_upper}
use snmptrap_rs.Errors.{
  Error, usage, md5_rejected, des_rejected, tdes_rejected, unknown_auth, unknown_priv,
}
use snmptrap_rs.Usm.Types.{
  AuthProtocol, sha1, sha224, sha256, sha384, sha512, PrivProtocol, aes128, aes192, aes256,
}

-- `to_ascii_uppercase`
abbrev pub upper : Str → Str
upper = map ascii_upper

-- The names are compared after conversion to upper case; an unknown one is reported as written.
abbrev auth_named : Str → Str → Outcome Error AuthProtocol
auth_named s u =
    if str_eq u (codes "SHA") || (str_eq u (codes "SHA-1") || str_eq u (codes "SHA1"))
    then ok sha1
    else if str_eq u (codes "SHA-224") || str_eq u (codes "SHA224")
    then ok sha224
    else if str_eq u (codes "SHA-256") || str_eq u (codes "SHA256")
    then ok sha256
    else if str_eq u (codes "SHA-384") || str_eq u (codes "SHA384")
    then ok sha384
    else if str_eq u (codes "SHA-512") || str_eq u (codes "SHA512")
    then ok sha512
    else if str_eq u (codes "MD5") || str_eq u (codes "HMAC-MD5")
    then err (usage md5_rejected)
    else err (usage (unknown_auth s))

unfoldable pub auth_from_str : Str → Outcome Error AuthProtocol
unfolding str_eq ascii_upper
auth_from_str s = auth_named s (upper s)

abbrev priv_named : Str → Str → Outcome Error PrivProtocol
priv_named s u =
    if str_eq u (codes "AES") || (str_eq u (codes "AES-128") || str_eq u (codes "AES128"))
    then ok aes128
    else if str_eq u (codes "AES-192") || str_eq u (codes "AES192")
    then ok aes192
    else if str_eq u (codes "AES-256") || str_eq u (codes "AES256")
    then ok aes256
    else if str_eq u (codes "DES") || str_eq u (codes "DES-CBC")
    then err (usage des_rejected)
    else if str_eq u (codes "3DES") || (str_eq u (codes "3DES-CBC") || str_eq u (codes "TDES"))
    then err (usage tdes_rejected)
    else err (usage (unknown_priv s))

unfoldable pub priv_from_str : Str → Outcome Error PrivProtocol
unfolding str_eq ascii_upper
priv_from_str s = priv_named s (upper s)

-- `Display`
unfoldable pub auth_name : AuthProtocol → Str
auth_name sha1 = codes "SHA-1"
auth_name sha224 = codes "SHA-224"
auth_name sha256 = codes "SHA-256"
auth_name sha384 = codes "SHA-384"
auth_name sha512 = codes "SHA-512"

unfoldable pub priv_name : PrivProtocol → Str
priv_name aes128 = codes "AES-128"
priv_name aes192 = codes "AES-192"
priv_name aes256 = codes "AES-256"

-- A name in any mix of cases: its upper case is that of the printed name.
abbrev pub SpelledLike : Str → Str → Type 0
SpelledLike s name = upper s ≡ upper name

-- Whoever types the printed name of a protocol, in any mix of cases, gets that protocol.
pub auth_from_str-auth_name :
    (p : AuthProtocol) (s : Str) → SpelledLike s (auth_name p) → auth_from_str s ≡ ok p
unfolding auth_from_str auth_name
auth_from_str-auth_name sha1 s h = ap (auth_named s) h
auth_from_str-auth_name sha224 s h = ap (auth_named s) h
auth_from_str-auth_name sha256 s h = ap (auth_named s) h
auth_from_str-auth_name sha384 s h = ap (auth_named s) h
auth_from_str-auth_name sha512 s h = ap (auth_named s) h

-- Whoever types the printed name of a cipher, in any mix of cases, gets that cipher.
pub priv_from_str-priv_name :
    (p : PrivProtocol) (s : Str) → SpelledLike s (priv_name p) → priv_from_str s ≡ ok p
unfolding priv_from_str priv_name
priv_from_str-priv_name aes128 s h = ap (priv_named s) h
priv_from_str-priv_name aes192 s h = ap (priv_named s) h
priv_from_str-priv_name aes256 s h = ap (priv_named s) h
