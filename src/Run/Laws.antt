-- ===== src/Run/Laws.antt =====
-- How the steps of `run` of src/lib.rs fit together: what the checks of src/cli.rs leave to the
-- payload and to the choice of the socket.
use snmptrap_rs.Prelude.{
  ℕ, ◌≡◌, sym, ◌∙◌, ap, subst, inl, inr, Bool, true, false, All, Option, none, some, ok, Bool-cases,
  take, drop,
}
use snmptrap_rs.Prelude.Calm.{Calm, Calm-ok, Calm->>=}
use snmptrap_rs.Text.{Str}
use snmptrap_rs.Text.Net.{octets, parse_ipv4}
use snmptrap_rs.Cli.Args.{Cli, is_v3, validate}
use snmptrap_rs.Cli.Total.{resolve_agent_string-Calm}
use snmptrap_rs.Cli.Laws.{Ready, Common, validate-Ready, validate-plain}
use snmptrap_rs.Payload.Calm.{IsTame, build_payload-Calm}
use snmptrap_rs.Run.{System, prepare, spoofed, ordinary, Report, exited, stopped, went}

module _ (is_ipv6 : Str → Bool) where
  -- What the checks leave: what version 3 needs, the addresses, and the rest unchanged.
  abbrev pub Checked : Cli → Cli → Type 0
  Checked cli out =
      (is_v3 out.version ≡ true → Ready out)
      × Common is_ipv6 out
      × (out.src_addr ≡ cli.src_addr)
      × (out.retries ≡ cli.retries)

  pub validate-Checked : (cli out : Cli) → validate is_ipv6 cli ≡ ok out → Checked cli out
  validate-Checked cli out h = elim (Bool-cases (is_v3 cli.version)) [
    | inl new ↦
        let (same, ready, common) = validate-Ready is_ipv6 cli out new h in
        ((λ v. ready), common, ap (λ (c : Cli). c.src_addr) same, ap (λ (c : Cli). c.retries) same)
    | inr old ↦
        let (same, community, flags, common) = validate-plain is_ipv6 cli out old h in
        (
          (λ v.
              let not_new : is_v3 out.version ≡ false =
                ap (λ (c : Cli). is_v3 c.version) same ∙ old in
              cc),
          subst (Common is_ipv6) (sym same) common,
          ap (λ (c : Cli). c.src_addr) same,
          ap (λ (c : Cli). c.retries) same,
        )
  ]

-- The surroundings answer with results and do not panic.
pub record IsCalmSystem (s : System) : Type 0 where
  pub resolves : (host : Str) (port : ℕ) → Calm (s.resolver host port)
  pub tame : IsTame s.world s.crypto s.codec s.codec3

-- No step up to the payload panics, on a command line that was checked.
pub prepare-Calm :
    (s : System)
    → IsCalmSystem s
    → (cli : Cli) → (is_v3 cli.version ≡ true → Ready cli)
    → Calm (prepare s cli)
unfolding prepare
prepare-Calm s calm cli ready =
    Calm->>= _ _ (resolve_agent_string-Calm s.resolver calm.resolves cli.agent) λ target.
      Calm->>= _ _
        (build_payload-Calm s.world s.crypto s.codec s.codec3 calm.tame cli target.0 target.1 ready)
        λ payload. Calm-ok _

-- The route is the raw socket, with the address that was given in every packet, or the ordinary
-- socket if none was.
abbrev pub IsRouted : Option Str → Report → Type 0
IsRouted given (exited n) = Unit
IsRouted given (stopped o) = Unit
IsRouted given (went text (spoofed src packets) end) =
    ((s : Str) × (given ≡ some s) × (parse_ipv4 s ≡ some src))
    × All (λ p. take 4 (drop 12 p) ≡ octets src) packets
IsRouted given (went text (ordinary dst port payload) end) = given ≡ none
