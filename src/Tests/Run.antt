-- ===== src/Tests/Run.antt =====
-- The theorems on `run` of src/lib.rs and on src/main.rs, at concrete command lines and surroundings.
use snmptrap_rs.Prelude.{
  ℕ, ◌≡◌, refl, ◌⊎◌, true, List, [], ◌∷◌, map, none, some, ok, keep, arith, Outcome,
}
use snmptrap_rs.Prelude.Calm.{Calm-ok}
use snmptrap_rs.Text.{Str, codes}
use snmptrap_rs.Text.Net.{Ipv4Addr}
use snmptrap_rs.Errors.{IoError, Errno, ErrorKind}
use snmptrap_rs.Cli.Args.{Cli}
use snmptrap_rs.Cli.Agent.{SocketAddr, v4}
use snmptrap_rs.Transport.Reply.{sent, counts}
use snmptrap_rs.Transport.Live.{has_sent}
use snmptrap_rs.Transport.Raw.Laws.{reply_of}
use snmptrap_rs.Payload.Calm.{IsTame}
use snmptrap_rs.Payload.Total.{IsSound}
use snmptrap_rs.Run.{System, command, help, run, main, stderr_of}
use snmptrap_rs.Run.Laws.{IsCalmSystem, IsRouted}
use snmptrap_rs.Run.Routed.{run-IsRouted}
use snmptrap_rs.Run.Status.{EnoughAnswers, IsSettled, main-IsSettled, main-has_sent}
use snmptrap_rs.Tests.Toy.{crypto, lawful, never_panics}
use snmptrap_rs.Tests.Cli.{no_ipv6, plain}
use snmptrap_rs.Tests.Payload.{world, codec}
use snmptrap_rs.Tests.Transport.{host, attempts}

-- Every name stands for the loopback address.
abbrev pub loopback : Str → ℕ → Outcome IoError (List SocketAddr)
loopback name port = ok (v4 (record { a = 127; b = 0; c = 0; d = 1 }) port ∷ [])

abbrev pub system : System
system = record {
  is_ipv6 = no_ipv6;
  resolver = loopback;
  world = world;
  crypto = crypto;
  codec = codec;
  codec3 = snmptrap_rs.Tests.Toy.codec;
  host = host;
  bound = none;
  calls = attempts;
}

system-IsSound : IsSound world
system-IsSound = record { uptime = Calm-ok 100; egress = λ addr port. Calm-ok _ }

system-IsTame : IsTame world crypto codec snmptrap_rs.Tests.Toy.codec
system-IsTame = record {
  sound = system-IsSound;
  law = lawful;
  encodes = ((λ x. Calm-ok _), (λ x. Calm-ok _));
  encodes3 = never_panics;
}

system-IsCalmSystem : IsCalmSystem system
system-IsCalmSystem = record { resolves = λ name port. Calm-ok _; tame = system-IsTame }

two_answers : EnoughAnswers system (command plain)
unfolding keep counts snmptrap_rs.Transport.Reply.is_interrupted
two_answers = omega arith

main-IsSettled_example : IsSettled (main system (command plain))
main-IsSettled_example = main-IsSettled system system-IsCalmSystem (command plain) two_answers

run-IsRouted_example : IsRouted (some (codes "10.0.0.1")) (run system (command plain))
run-IsRouted_example = run-IsRouted system plain

-- The kernel takes the first packet.
abbrev pub answered : System
answered = record system { calls = (9, sent) ∷ [] }

succeeds : main answered (command plain) ≡ some 0
unfolding main snmptrap_rs.Cli.Args.validate snmptrap_rs.Cli.Args.validate_common
    snmptrap_rs.Text.Net.parse_ipv4 snmptrap_rs.Cli.Args.validate_v3 snmptrap_rs.Text.as_bytes
    snmptrap_rs.Text.utf8 snmptrap_rs.Cli.Agent.resolve_agent_string
    snmptrap_rs.Cli.Agent.resolve_stripped snmptrap_rs.Payload.Build.build_payload
    snmptrap_rs.Payload.Build.build_v2c_payload snmptrap_rs.Text.Number.parse_uint
    snmptrap_rs.Varbind.Oid.parse_oid snmptrap_rs.Text.Split.split snmptrap_rs.Text.trim_start
    snmptrap_rs.Payload.Arguments.parse_trailing_varbinds snmptrap_rs.Payload.Arguments.triplets
    snmptrap_rs.Payload.Arguments.refuse_reserved snmptrap_rs.Pdu.build_v2c_trap
    snmptrap_rs.Pdu.v2_bindings snmptrap_rs.Pdu.push_v2 snmptrap_rs.Pdu.v2c_message
    snmptrap_rs.Transport.Raw.send_spoofed snmptrap_rs.Transport.Raw.send_spoofed_on
succeeds = refl

main-has_sent_example :
    ((text : Str) × (command plain ≡ help text)) ⊎ (has_sent (map reply_of answered.calls) ≡ true)
main-has_sent_example = main-has_sent answered (command plain) succeeds

-- What is printed for a command line without a community.
no_texts : Errno → ErrorKind → Str
no_texts e k = []

refusal_printed :
    stderr_of no_texts (run answered (command (record plain { community = [] })))
    ≡ codes "error: community string (-c) must be non-empty for SNMPv1 and SNMPv2c\n"
unfolding stderr_of run snmptrap_rs.Cli.Args.validate snmptrap_rs.Cli.Args.validate_common
refusal_printed = refl
