-- ===== src/Cli/Agent/Laws.antt =====
-- The forms of the agent that `resolve_agent_string` of src/cli.rs reads, and those that it refuses.
use snmptrap_rs.Prelude.{ℕ, ◌≡◌, false, List, Outcome, ◌>>=◌, map_err, ok_or, All, ◌==◌, is_empty}
use snmptrap_rs.Text.{Str, codes, starts_with}
use snmptrap_rs.Text.Net.{Ipv4Addr}
use snmptrap_rs.Errors.{Error, usage, IoError, agent_unresolved, agent_no_ipv4}
use snmptrap_rs.Cli.Agent.{SocketAddr, first_v4}

-- A name or an address of a host: not empty, without a colon, and no bracket in front.
abbrev pub IsHost : Str → Type 0
IsHost h =
    (is_empty h ≡ false) × All (λ c. (c == b':') ≡ false) h × (starts_with (codes "[") h ≡ false)

module _ (resolver : Str → ℕ → Outcome IoError (List SocketAddr)) where
  -- The first address of version 4 that the resolver has for a host and a port.
  abbrev pub looked_up : Str → Str → ℕ → Outcome Error (Ipv4Addr × ℕ)
  looked_up agent host port = do
    addrs ← map_err (λ e. usage (agent_unresolved agent e)) (resolver host port)
    ok_or (first_v4 addrs) (usage (agent_no_ipv4 agent))
