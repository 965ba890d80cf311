-- ===== src/Lib.antt =====
-- A model of snmptrap-rs, a program that sends SNMP traps of versions 1, 2c and 3 over UDP, on
-- request from a forged source address.
--
-- The program reads its command line (src/cli.rs), makes the payload of the version asked for
-- (src/lib.rs, with src/varbind.rs for the bindings, src/engine.rs for the engine identifier,
-- src/usm.rs for keys, signing and encryption, src/pdu.rs and src/v3.rs for the messages), and hands
-- it to one of two transports: src/transport/raw.rs for a forged source, and
-- src/transport/unprivileged.rs else. On request src/debug.rs prints the payload before the send. The
-- uptime and the address that a trap carries by default come from src/helpers.rs. Errors are those of
-- src/error.rs, and src/main.rs turns the result of `run` into the status of the process.
--
-- Which file models which part:
--   Prelude, Text   numbers, lists, bytes, texts and the parsers of the standard library: `parse` of
--                   integers and addresses, `split`, `trim`, UTF-8, hex text
--   Errors          src/error.rs and the other error types; a message is a constructor for its format
--                   string, with what is put in; the texts (DetailText, EngineIdText, UsageText),
--                   and what is printed of an error (Display)
--   Varbind         src/varbind.rs: `parse_oid` (Oid), `parse_hex_string` (Hex), `parse_bits` (Bits),
--                   `parse_typed_value` (Value); panics (Total), texts of values (RoundTrip) and
--                   their types (Typed)
--   Engine          src/engine.rs: the constructors (Id), `parse_user_input` (Parse), `host_mac` (Mac;
--                   the order it sorts by and the interface it chooses are in child modules),
--                   `resolve` (Resolve), with `host_name` and the answers of the host (Host)
--   Usm             src/usm.rs: protocols (Types, Names), the external cryptography (Crypto), keys,
--                   signing and encryption (Keys)
--   Pdu             src/pdu.rs: `build_v1_trap` and `build_v2c_trap`
--   V3              src/v3.rs: `build_v3_trap_message`; the receiver and what it finds are in its
--                   child modules
--   Cli             src/cli.rs: the checks after the parse (Args; what passes them, in Laws and Accepts), the
--                   agent's address (Agent)
--   Helpers         src/helpers.rs: the uptime and the egress address, from the answers of the system
--   Debug           src/debug.rs: the text of the dump, its columns (Rows), and a reader (RoundTrip)
--   Payload         src/lib.rs: positional arguments (Arguments), `build_v3_security` (Security), the
--                   three payloads (Build), panics (Total, Calm), arguments that write
--                   out a trap (Written, WrittenV1), the types of what is read (Typed), the
--                   receiver of version 3 (Accepted, Decrypted), what a refusal depends on
--                   (Secrets), the surroundings that Helpers and Engine make (Host), and the
--                   fields of the message of version 3 (WellFormed)
--   Transport       src/transport: checksum (Checksum), packets (Packet), the two bounded loops
--                   (Unprivileged, Raw; the lengths in a packet, the checksum as a receiver
--                   takes it, and the number of deliveries are in child modules), their
--                   success (Live) and their end (Ends)
--   Run             `run` of src/lib.rs, `main` of src/main.rs, and what src/cli.rs makes of the parse;
--                   how the parts fit together (Laws, Cases), what is put on the wire
--                   (Carried), what it carries (Written) and a receiver makes of it (Secured,
--                   Decrypted), over which socket (Routed), which runs deliver (Delivered), and how the
--                   process ends (Status)
--   Tests           runs of the theorems at concrete inputs, and a toy cryptography and codec
--
-- A result is `ok`, `err` or `panic`, the last for an assertion, an `expect` or an index that fails.
-- A text is the list of its code points, a byte a number; the arithmetic of fixed width keeps its
-- wrap-around. The kernel is the list of its answers to `send_to`: a loop without the next answer is
-- still waiting, which is `none`. Over the ordinary socket every call has the destination and the payload
-- that `send` was given, which `transmit` of Run records in the route; the loop takes the answers alone.
-- The stretching loop of a password runs on fuel, as many rounds as bytes are wanted, which is enough
-- since each round writes at least one byte.
--
-- `run` takes its surroundings in one record: the resolver, the host, the encoders, the cryptography and
-- the kernel. Its result is a report: the process exited within the parse, or it returned before a
-- socket was asked for, or it sent, over the raw socket with the packets or over the ordinary socket.
-- The status of a process is that of its report; a panic is 101.
--
-- Parameters: the BER encoders, the hash, HMAC and AES-CFB functions, the resolver of host names, the
-- test for an IPv6 literal, the parser of floating-point numbers, the answers of the system calls
-- (uptime file, clocks, sockets, interface files, host name) and the texts of the system's errors, the
-- clock, and the random numbers. What
-- is assumed of them stands as hypotheses of the theorems (`IsLawful` of Usm.Crypto, `IsInverse` of
-- V3.Receiver, `NeverPanics` of V3.Ends, `IsCalmSystem` of Run.Laws).
--
-- Not modelled: the argument parser (a library's), the writer that the dump goes to (its result is
-- dropped), and the assertion on the length of the second encoding in
-- src/v3.rs, which only debug builds have.
pub mod Prelude
pub mod Text
pub mod Errors
pub mod Usm
pub mod Cli
pub mod Varbind
pub mod Engine
pub mod Transport
pub mod Pdu
pub mod V3
pub mod Helpers
pub mod Debug
pub mod Payload
pub mod Run
pub mod Tests
