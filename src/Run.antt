-- ===== src/Run.antt =====
-- `run` of src/lib.rs, `main` of src/main.rs, and the two parses of the command line of src/cli.rs.
-- What the argument library makes of the command line, the resolver, and the answers of the kernel
-- are given.
pub mod Laws
pub mod Cases
pub mod Routed
pub mod Status
pub mod Carried
pub mod Secured
pub mod Decrypted
pub mod Written
pub mod Delivered
use snmptrap_rs.Prelude.{
  ℕ, ◌⊎◌, inl, inr, Bool, true, false, List, [], ◌++◌, map, Option, none, some, Outcome, ok, err,
  panic, ◌>>=◌, Bytes, if◌then◌else◌,
}
use snmptrap_rs.Text.{Str}
use snmptrap_rs.Text.Net.{Ipv4Addr}
use snmptrap_rs.Errors.{Error, usage, IoError, Errno, ErrorKind, command_line, exit_code}
use snmptrap_rs.Errors.Display.{report_to_stderr}
use snmptrap_rs.Usm.Crypto.{Crypto}
use snmptrap_rs.Cli.Args.{Cli, validate, src_addr_v4}
use snmptrap_rs.Cli.Agent.{SocketAddr, resolve_agent}
use snmptrap_rs.Payload.Build.{World, build_payload}
use snmptrap_rs.Debug.{print_pre_send_dump}
use snmptrap_rs.Transport.Unprivileged.{send}
use snmptrap_rs.Transport.Raw.{Host, Attempt, send_spoofed_on}
use snmptrap_rs.Transport.Raw.Laws.{reply_of}

-- What the argument library makes of the command line: the arguments, a text of help or of the
-- version, or an error.
pub data Parsed : Type 0 where
  command : Cli → Parsed
  help : Str → Parsed
  misused : Str → Parsed

-- All that the program asks of its surroundings. The answers of the kernel are those to the calls
-- that send, on whichever socket; an identification is drawn for a raw packet only.
pub record System : Type 0 where
  pub is_ipv6 : Str → Bool
  pub resolver : Str → ℕ → Outcome IoError (List SocketAddr)
  pub world : World
  pub crypto : Crypto
  pub codec : snmptrap_rs.Pdu.Codec
  pub codec3 : snmptrap_rs.V3.Codec
  pub host : Host
  pub bound : Option IoError
  pub calls : List Attempt

-- The socket that was used: the packets that went to the raw one, or the destination and the payload
-- that went to the ordinary one.
pub data Route : Type 0 where
  spoofed : Ipv4Addr → List Bytes → Route
  ordinary : Ipv4Addr → ℕ → Bytes → Route

-- How a run goes: the process exits within the parse; or it returns before a socket is asked for; or
-- it sends, after the debug text, with the result of the send if all its calls were answered.
pub data Report : Type 0 where
  exited : ℕ → Report
  stopped : Outcome Error (Unit {0}) → Report
  went : Option Str → Route → Option (Outcome Error (Unit {0})) → Report

-- Goes on with a result.
abbrev pub settle : {A : Type 0} → Outcome Error A → (A → Report) → Report
settle (ok a) f = f a
settle (err e) f = stopped (err e)
settle panic f = stopped panic

-- A process that panics exits with 101.
abbrev pub status_of : Outcome Error (Unit {0}) → ℕ
status_of (ok t) = 0
status_of (err e) = exit_code e
status_of panic = 101

unfoldable pub exit_status : Report → Option ℕ
exit_status (exited n) = some n
exit_status (stopped o) = some (status_of o)
exit_status (went text route none) = none
exit_status (went text route (some o)) = some (status_of o)

-- What the process prints on standard error: the debug text, and the report of an error. The message
-- of a panic is that of the language's runtime.
module _ (texts : Errno → ErrorKind → Str) where
  abbrev pub said : Outcome Error (Unit {0}) → Str
  said (ok t) = []
  said (err e) = report_to_stderr texts e
  said panic = []

  abbrev pub said_at_end : Option (Outcome Error (Unit {0})) → Str
  said_at_end none = []
  said_at_end (some o) = said o

  unfoldable pub stderr_of : Report → Str
  stderr_of (exited n) = []
  stderr_of (stopped o) = said o
  stderr_of (went none route end) = said_at_end end
  stderr_of (went (some text) route end) = text ++ said_at_end end

module _ (s : System) where
  unfoldable pub parse_argv : Parsed → Report ⊎ Outcome Error Cli
  parse_argv (command cli) = inr (validate s.is_ipv6 cli)
  parse_argv (help text) = inl (exited 0)
  parse_argv (misused text) = inr (err (usage (command_line text)))

  unfoldable pub parse_from_iter : Parsed → Outcome Error Cli
  parse_from_iter (command cli) = validate s.is_ipv6 cli
  parse_from_iter (help text) = err (usage (command_line text))
  parse_from_iter (misused text) = err (usage (command_line text))

  -- The destination, its port, and the payload.
  unfoldable pub prepare : Cli → Outcome Error (Ipv4Addr × ℕ × Bytes)
  prepare cli = do
    (dst, port) ← resolve_agent s.resolver cli
    payload ← build_payload s.world s.crypto s.codec s.codec3 cli dst port
    ok (dst, port, payload)

  unfoldable pub debug_text : Cli → Ipv4Addr → ℕ → Bytes → Option Str
  debug_text cli dst port payload =
      if cli.debug_print_pdu
      then some (print_pre_send_dump cli.version dst port (src_addr_v4 cli) cli.src_port payload)
      else none

  unfoldable pub transmit : Option Ipv4Addr → Cli → Ipv4Addr → ℕ → Bytes → Report
  unfolding debug_text
  transmit (some src) cli dst port payload =
      let (packets, end) =
        send_spoofed_on s.host.platform s.host dst port src cli.src_port cli.retries payload
          s.calls in
      went (debug_text cli dst port payload) (spoofed src packets) end
  transmit none cli dst port payload =
      went (debug_text cli dst port payload) (ordinary dst port payload)
        (send s.bound cli.src_port cli.retries (map reply_of s.calls))

  unfoldable pub run_command : Cli → Report
  unfolding prepare transmit
  run_command cli =
      settle (prepare cli) λ (dst, port, payload). transmit (src_addr_v4 cli) cli dst port payload

  run_parsed : Report ⊎ Outcome Error Cli → Report
  unfolding run_command
  run_parsed (inl report) = report
  run_parsed (inr parsed) = settle parsed run_command

  unfoldable pub run : Parsed → Report
  unfolding run_parsed parse_argv
  run p = run_parsed (parse_argv p)

  -- `main`
  unfoldable pub main : Parsed → Option ℕ
  unfolding run exit_status
  main p = exit_status (run p)
