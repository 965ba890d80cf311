-- ===== src/Engine/Host.antt =====
-- `host_mac` and `host_name` of src/engine.rs. What the system answers is given: the directory and
-- the files of the interfaces, and the buffer that `gethostname` fills, if it succeeds.
pub mod Laws
use snmptrap_rs.Prelude.{
  ℕ, Bool, true, false, List, [], ◌∷◌, Option, none, some, Bytes, ◌==◌, if◌then◌else◌,
}
use snmptrap_rs.Text.{Str}
use snmptrap_rs.Text.Utf8.{from_utf8}
use snmptrap_rs.Text.Net.{Ipv4Addr}
use snmptrap_rs.Engine.Id.{EngineId}
use snmptrap_rs.Engine.Mac.{host_mac}
use snmptrap_rs.Engine.Resolve.{resolve}

pub record Answers : Type 0 where
  pub on_linux : Bool
  pub interfaces : Option (List Str)
  pub address : Str → Option Str
  pub name_buffer : Option Bytes

-- `host_mac`, which has an implementation on Linux alone.
abbrev pub primary_mac : Answers → Option Bytes
primary_mac h = if h.on_linux then host_mac h.address h.interfaces else none

-- The bytes before the first NUL, or all of them.
unfoldable pub until_nul : Bytes → Bytes
until_nul [] = []
until_nul (b ∷ bs) = let rest = until_nul bs in if b == 0 then [] else b ∷ rest

abbrev pub non_empty : Option Str → Option Str
non_empty none = none
non_empty (some []) = none
non_empty (some (c ∷ s)) = some (c ∷ s)

unfoldable pub host_name : Option Bytes → Option Str
unfolding until_nul from_utf8
host_name none = none
host_name (some buf) = non_empty (from_utf8 (until_nul buf))

-- `resolve`, with its calls of the two.
abbrev pub resolve_on : Answers → Option EngineId → Option Ipv4Addr → EngineId
resolve_on h user src = resolve user src (primary_mac h) (host_name h.name_buffer)
