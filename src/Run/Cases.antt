-- ===== src/Run/Cases.antt =====
-- The ways that `run` of src/lib.rs can go.
use snmptrap_rs.Prelude.{ℕ, ◌≡◌, refl, Outcome, ok, err, panic, Bytes}
use snmptrap_rs.Text.{Str}
use snmptrap_rs.Text.Net.{Ipv4Addr}
use snmptrap_rs.Errors.{Error}
use snmptrap_rs.Cli.Args.{Cli, validate, src_addr_v4}
use snmptrap_rs.Cli.Total.{validate-Calm}
use snmptrap_rs.Run.{
  Parsed, command, help, misused, System, Report, exited, stopped, settle, parse_argv, prepare,
  transmit, run_command, run_parsed, run,
}

-- What holds of every refusal, of a panic if there is one, and of what follows a success.
settle-All :
    {A : Type 0} (P : Report → Type 0) (m : Outcome Error A) (f : A → Report)
    → ((e : Error) → P (stopped (err e)))
    → (m ≡ panic → P (stopped panic))
    → ((a : A) → m ≡ ok a → P (f a))
    → P (settle m f)
settle-All P (ok a) f refused panics goes = goes a refl
settle-All P (err e) f refused panics goes = refused e
settle-All P panic f refused panics goes = panics refl

module _ (s : System) (P : Report → Type 0) where
  -- What holds of the end at a parse, of every refusal, and of every send after the checks, holds of
  -- the run. A panic is asked about only before a send.
  pub run-All :
      (p : Parsed)
      → ((text : Str) → p ≡ help text → P (exited 0))
      → ((e : Error) → P (stopped (err e)))
      → ((cli out : Cli)
          → validate s.is_ipv6 cli ≡ ok out
          → prepare s out ≡ panic
          → P (stopped panic))
      → ((cli out : Cli) (dst : Ipv4Addr) (port : ℕ) (payload : Bytes)
          → p ≡ command cli
          → validate s.is_ipv6 cli ≡ ok out
          → prepare s out ≡ ok (dst, port, payload)
          → P (transmit s (src_addr_v4 out) out dst port payload))
      → P (run s p)
  unfolding run run_parsed parse_argv run_command
  run-All (help text) exits refused panics sends = exits text refl
  run-All (misused text) exits refused panics sends = refused _
  run-All (command cli) exits refused panics sends =
      settle-All P (validate s.is_ipv6 cli) _ refused
        (λ h. absurd ((validate-Calm s.is_ipv6 cli).calm h))
        λ out valid.
          settle-All P (prepare s out) _ refused (panics cli out valid)
            λ (dst, port, payload) h. sends cli out dst port payload refl valid h
