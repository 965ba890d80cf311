-- ===== src/Payload/Secrets.antt =====
-- What the refusals of src/cli.rs and src/lib.rs disclose of the passwords.
pub mod Checks
pub mod Keys
pub mod Unseen
use snmptrap_rs.Prelude.{
  ℕ, ◌≤◌, ◌<◌, ◌≡◌, refl, sym, ◌∙◌, ap, ◌⊎◌, inl, inr, arith, Bool, true, false, [], ◌∷◌, Option,
  none, some, Outcome, ok, err, panic, Bytes, expect, ◌>>=◌, ◌>>◌, reject_if, leb, ok_or, length,
  length-append, ltb, ◌==◌, is_empty, is_some, if◌then◌else◌,
}
use snmptrap_rs.Text.{Str, str_len, as_bytes, utf8}
use snmptrap_rs.Errors.{
  Error, Flag, flag_A, flag_X, usage, password_floor, internal_auth, internal_priv,
}
use snmptrap_rs.Engine.Id.{EngineId}
use snmptrap_rs.Usm.Types.{AuthProtocol, PrivProtocol, digest_len, key_len}
use snmptrap_rs.Usm.Crypto.{Crypto, IsLawful}
use snmptrap_rs.Usm.Keys.{password_to_key, priv_key_from_password, min_usm_password_len}
use snmptrap_rs.Usm.Keys.Laws.{password_to_key_short, password_to_key_ok}
use snmptrap_rs.Cli.Types.{SecurityLevel, no_auth_no_priv, auth_no_priv, auth_priv}
use snmptrap_rs.Cli.Args.{
  Cli, is_v3, require_password, level_required, validate_v3_required, validate_v3_flag_scope,
  with_level, level_or_default, validate_common, validate_v3, validate,
}
use snmptrap_rs.V3.{auth_only, auth_and_priv}
use snmptrap_rs.Payload.Security.{build_v3_security}

-- Two passwords of which the same is known: both missing, or both of the same length.
abbrev pub Alike : Option Str → Option Str → Type 0
Alike none none = Unit
Alike none (some t) = ⊥
Alike (some s) none = ⊥
Alike (some s) (some t) = str_len s ≡ str_len t

-- Two results, both a success or both the same refusal.
abbrev pub SameRefusal : {A B : Type 0} → Outcome Error A → Outcome Error B → Type 0
SameRefusal (ok a) (ok b) = Unit
SameRefusal (err e) (err f) = e ≡ f
SameRefusal panic panic = Unit
SameRefusal _ _ = ⊥

pub SameRefusal-refl : {A : Type 0} (m : Outcome Error A) → SameRefusal m m
SameRefusal-refl (ok a) = tt
SameRefusal-refl (err e) = refl
SameRefusal-refl panic = tt

pub SameRefusal->>= :
    {A B C D : Type 0} (m : Outcome Error A) (n : Outcome Error B) (f : A → Outcome Error C)
    (g : B → Outcome Error D)
    → SameRefusal m n
    → ((a : A) (b : B) → SameRefusal (f a) (g b))
    → SameRefusal (m >>= f) (n >>= g)
SameRefusal->>= (ok a) (ok b) f g same next = next a b
SameRefusal->>= (err e) (err x) f g same next = same
SameRefusal->>= panic panic f g same next = tt
SameRefusal->>= (ok a) (err x) f g same next = absurd same
SameRefusal->>= (ok a) panic f g same next = absurd same
SameRefusal->>= (err e) (ok b) f g same next = absurd same
SameRefusal->>= (err e) panic f g same next = absurd same
SameRefusal->>= panic (ok b) f g same next = absurd same
SameRefusal->>= panic (err x) f g same next = absurd same

utf8_some : (c : ℕ) → 0 < length (utf8 c)
unfolding utf8
utf8_some c = ground arith

is_empty-str_len : (s : Str) → is_empty s ≡ (str_len s == 0)
unfolding as_bytes
is_empty-str_len [] = refl
is_empty-str_len (c ∷ s) =
    let positive = utf8_some c in
    let long : 0 < str_len (c ∷ s) = omega (arith, length-append (utf8 c) (as_bytes s)) in
    let not_zero : (str_len (c ∷ s) == 0) ≡ false = ground arith in sym not_zero

pub require_password-Alike :
    (pw pw' : Option Str) (flag : Flag) (level : SecurityLevel)
    → Alike pw pw'
    → require_password pw flag level ≡ require_password pw' flag level
require_password-Alike none none flag level h = refl
require_password-Alike none (some t) flag level h = absurd h
require_password-Alike (some s) none flag level h = absurd h
require_password-Alike (some s) (some t) flag level h =
    let blank : is_empty s ≡ is_empty t =
      is_empty-str_len s ∙ ap (λ (n : ℕ). n == 0) h ∙ sym (is_empty-str_len t) in
    rw (blank, h) refl

pub is_some-Alike : (pw pw' : Option Str) → Alike pw pw' → is_some pw ≡ is_some pw'
is_some-Alike none none h = refl
is_some-Alike none (some t) h = absurd h
is_some-Alike (some s) none h = absurd h
is_some-Alike (some s) (some t) h = refl

-- A command line with these passwords.
abbrev pub with_passwords : Cli → Option Str → Option Str → Cli
with_passwords cli pw q = record cli { auth_password = pw; priv_password = q }
