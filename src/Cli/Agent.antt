-- ===== src/Cli/Agent.antt =====
-- `resolve_agent_string` of src/cli.rs. The resolver of host names is a parameter.
pub mod Laws
use snmptrap_rs.Prelude.{
  ℕ, suc, ◌&&◌, ◌||◌, not, List, [], ◌∷◌, Option, none, some, Outcome, ok, ◌>>=◌, ◌>>◌, map_err,
  reject_if, ok_or, leb, ◌==◌, if◌then◌else◌, is_empty,
}
use snmptrap_rs.Text.{Str, codes, strip_prefix, starts_with}
use snmptrap_rs.Text.Net.{Ipv4Addr}
use snmptrap_rs.Text.Number.{parse_uint, max_u16}
use snmptrap_rs.Errors.{
  Error, usage, IoError, agent_ipv6, agent_port, agent_unresolved, agent_no_ipv4,
}
use snmptrap_rs.Cli.Args.{Cli, default_trap_port}

-- `SocketAddr`
pub data SocketAddr : Type 0 where
  v4 : Ipv4Addr → ℕ → SocketAddr
  v6 : SocketAddr

-- `matches(c).count()`
abbrev pub count : ℕ → Str → ℕ
count c [] = 0
count c (d ∷ s) = let rest = count c s in if d == c then suc rest else rest

abbrev pub part_at : ℕ → ℕ → Str → Option (Str × Str) → Option (Str × Str)
part_at c d s (some (h, p)) = some (d ∷ h, p)
part_at c d s none = if d == c then some ([], s) else none

-- `rsplit_once(c)`
abbrev pub rsplit_once : ℕ → Str → Option (Str × Str)
rsplit_once c [] = none
rsplit_once c (d ∷ s) = part_at c d s (rsplit_once c s)

abbrev pub or_all : Option Str → Str → Str
or_all none s = s
or_all (some rest) s = rest

-- The host and the port. The guard of the first arm is written out.
abbrev pub host_port : Str → Str → Option (Str × Str) → Outcome Error (Str × ℕ)
host_port agent stripped none = ok (stripped, default_trap_port)
host_port agent stripped (some (h, p)) =
    if not (is_empty h) && (count b':' h == 0)
    then (map_err (λ e. usage (agent_port agent)) (parse_uint max_u16 p) >>= λ port. ok (h, port))
    else ok (stripped, default_trap_port)

-- The first address of version 4.
abbrev pub first_v4 : List SocketAddr → Option (Ipv4Addr × ℕ)
first_v4 [] = none
first_v4 (v4 addr port ∷ rest) = some (addr, port)
first_v4 (v6 ∷ rest) = first_v4 rest

module _ (resolver : Str → ℕ → Outcome IoError (List SocketAddr)) where
  unfoldable pub resolve_stripped : Str → Str → Outcome Error (Ipv4Addr × ℕ)
  resolve_stripped agent stripped = do
    reject_if (starts_with (codes "[") stripped || leb 2 (count b':' stripped))
        (usage (agent_ipv6 agent))
    (host, port) ← host_port agent stripped (rsplit_once b':' stripped)
    addrs ← map_err (λ e. usage (agent_unresolved agent e)) (resolver host port)
    ok_or (first_v4 addrs) (usage (agent_no_ipv4 agent))

  unfoldable pub resolve_agent_string : Str → Outcome Error (Ipv4Addr × ℕ)
  unfolding strip_prefix starts_with
  resolve_agent_string agent =
      resolve_stripped agent (or_all (strip_prefix (codes "udp:") agent) agent)

  -- `resolve_agent`
  abbrev pub resolve_agent : Cli → Outcome Error (Ipv4Addr × ℕ)
  resolve_agent cli = resolve_agent_string cli.agent
