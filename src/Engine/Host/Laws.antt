-- ===== src/Engine/Host/Laws.antt =====
-- What the host contributes to an engine identifier.
use snmptrap_rs.Prelude.{
  ℕ, ◌<◌, ◌≡◌, ◌≢◌, refl, ap, Bool, true, false, List, [], ◌∷◌, ◌++◌, All, All-append, Option, none,
  some, Bytes, arith, ◌==◌, if◌then◌else◌,
}
use snmptrap_rs.Text.{Str, as_bytes, utf8}
use snmptrap_rs.Text.Utf8.{from_utf8}
use snmptrap_rs.Text.Utf8.Laws.{from_utf8-All}
use snmptrap_rs.Text.Utf8.RoundTrip.{IsScalar, from_utf8-as_bytes}
use snmptrap_rs.Text.Net.{Ipv4Addr, IsAddr}
use snmptrap_rs.Engine.Id.{EngineId, IsEngineId}
use snmptrap_rs.Engine.Id.Laws.{AreChars}
use snmptrap_rs.Engine.Mac.{host_mac}
use snmptrap_rs.Engine.Mac.Chosen.{host_mac-Chosen}
use snmptrap_rs.Engine.Resolve.{resolve-IsEngineId, IfSome, IsMac}
use snmptrap_rs.Engine.Host.{Answers, primary_mac, until_nul, non_empty, host_name, resolve_on}

no_directory : (h : Answers) (mac : Bytes) → host_mac h.address none ≢ some mac
unfolding host_mac
no_directory h mac e = cc

found-IsMac : (h : Answers) (names : Option (List Str)) → IfSome IsMac (host_mac h.address names)
found-IsMac h names = go names (host_mac h.address names) refl
  where
    go :
        (names : Option (List Str)) (o : Option Bytes)
        → host_mac h.address names ≡ o
        → IfSome IsMac o
    go names none e = tt
    go none (some mac) e = absurd (no_directory h mac e)
    go (some ns) (some mac) e =
        let chosen = host_mac-Chosen h.address ns mac e in (chosen.0.0, chosen.0.1)

primary_mac-IsMac : (h : Answers) → IfSome IsMac (primary_mac h)
primary_mac-IsMac h = go h.on_linux
  where
    go : (b : Bool) → IfSome IsMac (if b then host_mac h.address h.interfaces else none)
    go true = found-IsMac h h.interfaces
    go false = tt

non_empty-AreChars :
    (o : Option Str) → ((s : Str) → o ≡ some s → AreChars s) → IfSome AreChars (non_empty o)
non_empty-AreChars none f = tt
non_empty-AreChars (some []) f = tt
non_empty-AreChars (some (c ∷ s)) f = f (c ∷ s) refl

host_name-AreChars : (buf : Option Bytes) → IfSome AreChars (host_name buf)
unfolding host_name
host_name-AreChars none = tt
host_name-AreChars (some buf) =
    non_empty-AreChars (from_utf8 (until_nul buf)) (from_utf8-All (until_nul buf))

pub resolve_on-IsEngineId :
    (h : Answers) (user : Option EngineId) (src : Option Ipv4Addr)
    → IfSome IsEngineId user
    → IfSome IsAddr src
    → IsEngineId (resolve_on h user src)
resolve_on-IsEngineId h user src hu hs =
    resolve-IsEngineId user src (primary_mac h) (host_name h.name_buffer) hu hs
      (primary_mac-IsMac h) (host_name-AreChars h.name_buffer)

utf8_no_nul : (c : ℕ) → 0 < c → All (λ b. (b == 0) ≡ false) (utf8 c)
unfolding utf8
utf8_no_nul c h = ground arith

as_bytes_no_nul : (s : Str) → All (λ c. 0 < c) s → All (λ b. (b == 0) ≡ false) (as_bytes s)
unfolding as_bytes
as_bytes_no_nul [] h = tt
as_bytes_no_nul (c ∷ s) (hc, hs) =
    All-append _ (utf8 c) (as_bytes s) (utf8_no_nul c hc) (as_bytes_no_nul s hs)

until_nul-append :
    (bs rest : Bytes) → All (λ b. (b == 0) ≡ false) bs → until_nul (bs ++ (0 ∷ rest)) ≡ bs
unfolding until_nul
until_nul-append [] rest h = refl
until_nul-append (b ∷ bs) rest (hb, hs) = rw hb (ap (λ xs. b ∷ xs) (until_nul-append bs rest hs))

-- A name in UTF-8 behind which the system puts a NUL is read as it is, whatever follows.
pub host_name-as_bytes :
    (c : ℕ) (s : Str) (rest : Bytes)
    → All IsScalar (c ∷ s)
    → All (λ d. 0 < d) (c ∷ s)
    → host_name (some (as_bytes (c ∷ s) ++ (0 ∷ rest))) ≡ some (c ∷ s)
unfolding host_name
host_name-as_bytes c s rest valid positive =
    rw
      (
        until_nul-append (as_bytes (c ∷ s)) rest (as_bytes_no_nul (c ∷ s) positive),
        from_utf8-as_bytes (c ∷ s) valid,
      )
      refl
