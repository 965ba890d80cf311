-- ===== src/Transport/Raw.antt =====
-- `send_spoofed` of src/transport/raw.rs. The kernel is given by the result of opening the socket
-- and by its answers to `send_to`; the identifications drawn at random come with the answers.
pub mod Laws
pub mod Cases
pub mod Lengths
pub mod Once
pub mod Received
use snmptrap_rs.Prelude.{
  ℕ, zero, suc, ◌+◌, ◌-◌, Bool, List, [], ◌∷◌, ◌++◌, Option, none, some, Outcome, ok, err, panic,
  Bytes, length, ltb, if◌then◌else◌,
}
use snmptrap_rs.Text.Net.{Ipv4Addr}
use snmptrap_rs.Errors.{
  Error, unsupported, linux, macos, other, raw_socket_denied, payload_exceeds_mtu, routing,
  other_io, IoError, custom, ErrorKind, other_kind, host_unreachable, network_unreachable,
  addr_not_available, payload_too_long, no_raw_os_error, Errno, eperm, eacces, emsgsize,
  ehostunreach, enetunreach, eaddrnotavail, raw_os_error, kind, Platform,
}
use snmptrap_rs.Transport.Reply.{Reply, sent, failed, is_interrupted}
use snmptrap_rs.Transport.Unprivileged.{last_or_default}
use snmptrap_rs.Transport.Packet.{Kernel, build_ipv4_header, build_udp_datagram}

-- The largest payload of one datagram.
abbrev pub max_udp_payload : ℕ
max_udp_payload = 65535 - 20 - 8

-- A call of `send_to`: the identification drawn for it, and the answer.
abbrev pub Attempt : Type 0
Attempt = ℕ × Reply

abbrev pub End : Type 0
End = Option (Outcome (Option IoError) (Unit {0}))

abbrev pub add_packet : Bytes → List Bytes × End → List Bytes × End
add_packet packet (packets, end) = (packet ∷ packets, end)

-- The loop: the packets handed to the kernel, and how it ended; `none` while an answer is awaited.
module _ (packet : ℕ → Bytes) where
  unfoldable pub spoofed_loop : List Attempt → Option IoError → ℕ → List Bytes × End
  unfolding is_interrupted
  spoofed_loop calls last zero = ([], some (err last))
  spoofed_loop [] last (suc budget) = ([], none)
  spoofed_loop ((ident, sent) ∷ calls) last (suc budget) = (packet ident ∷ [], some (ok tt))
  spoofed_loop ((ident, failed e) ∷ calls) last (suc budget) =
      let again = spoofed_loop calls last (suc budget) in
      let next = spoofed_loop calls (some e) budget in
      add_packet (packet ident) (if is_interrupted (kind e) then again else next)

unfoldable pub classify_open_errno : Platform → IoError → Option Errno → Error
classify_open_errno platform e (some eperm) = raw_socket_denied platform e
classify_open_errno platform e (some eacces) = raw_socket_denied platform e
classify_open_errno platform e o = other_io e

unfoldable pub classify_raw_open : Platform → IoError → Error
unfolding classify_open_errno
classify_raw_open platform e = classify_open_errno platform e (raw_os_error e)

unfoldable pub classify_send_kind : IoError → ErrorKind → Error
classify_send_kind e host_unreachable = routing e
classify_send_kind e network_unreachable = routing e
classify_send_kind e addr_not_available = routing e
classify_send_kind e k = other_io e

unfoldable pub classify_send_errno : IoError → ℕ → Option Errno → Error
unfolding classify_send_kind
classify_send_errno e payload_len (some emsgsize) = payload_exceeds_mtu payload_len e
classify_send_errno e payload_len (some ehostunreach) = routing e
classify_send_errno e payload_len (some enetunreach) = routing e
classify_send_errno e payload_len (some eaddrnotavail) = routing e
classify_send_errno e payload_len (some eacces) = routing e
classify_send_errno e payload_len (some eperm) = routing e
classify_send_errno e payload_len o = classify_send_kind e (kind e)

unfoldable pub classify_raw_send : IoError → ℕ → Error
unfolding classify_send_errno
classify_raw_send e payload_len = classify_send_errno e payload_len (raw_os_error e)

unfoldable pub finish_spoofed : ℕ → End → Option (Outcome Error (Unit {0}))
unfolding classify_raw_send
finish_spoofed len none = none
finish_spoofed len (some (ok t)) = some (ok t)
finish_spoofed len (some (err last)) =
    some (err (classify_raw_send (last_or_default no_raw_os_error last) len))
finish_spoofed len (some panic) = some panic

-- The packet of one attempt: a fresh header and the datagram.
unfoldable pub spoofed_packet : Kernel → Ipv4Addr → Ipv4Addr → Bytes → ℕ → Bytes
spoofed_packet k src dst udp ident = build_ipv4_header k src dst (length udp) ident ++ udp

abbrev pub chosen_port : Option ℕ → ℕ → ℕ
chosen_port (some p) ephemeral = p
chosen_port none ephemeral = ephemeral

-- Where the program runs, the result of opening the socket and of asking for header inclusion, and
-- the port that is drawn if the user chose none.
pub record Host : Type 0 where
  pub platform : Platform
  pub kernel : Kernel
  pub opened : Option IoError
  pub ephemeral_port : ℕ

abbrev pub Sent : Type 0
Sent = List Bytes × Option (Outcome Error (Unit {0}))

open_then : Host → Option IoError → Sent → Sent
unfolding classify_raw_open
open_then h (some e) rest = ([], some (err (classify_raw_open h.platform e)))
open_then h none rest = rest

send_all : Host → Ipv4Addr → ℕ → Ipv4Addr → Option ℕ → ℕ → Bytes → List Attempt → Sent
unfolding spoofed_loop finish_spoofed spoofed_packet
send_all h dst dst_port src src_port retries payload attempts =
    let udp = build_udp_datagram src dst (chosen_port src_port h.ephemeral_port) dst_port payload in
    let (packets, end) =
      spoofed_loop (spoofed_packet h.kernel src dst udp) attempts none (retries + 1) in
    (packets, finish_spoofed (length payload) end)

unfoldable pub send_spoofed :
    Host → Ipv4Addr → ℕ → Ipv4Addr → Option ℕ → ℕ → Bytes → List Attempt → Sent
unfolding open_then send_all
send_spoofed h dst dst_port src src_port retries payload attempts =
    if ltb max_udp_payload (length payload)
    then (
      [],
      some (err (other_io (custom other_kind (payload_too_long (length payload) max_udp_payload)))),
    )
    else open_then h h.opened (send_all h dst dst_port src src_port retries payload attempts)

-- The stub that is built for a platform that is neither Linux nor macOS.
abbrev pub send_unsupported : Sent
send_unsupported = ([], some (err unsupported))

-- The `send_spoofed` that is built for a platform.
unfoldable pub send_spoofed_on :
    Platform → Host → Ipv4Addr → ℕ → Ipv4Addr → Option ℕ → ℕ → Bytes → List Attempt → Sent
send_spoofed_on linux h dst dst_port src src_port retries payload attempts =
    send_spoofed h dst dst_port src src_port retries payload attempts
send_spoofed_on macos h dst dst_port src src_port retries payload attempts =
    send_spoofed h dst dst_port src src_port retries payload attempts
send_spoofed_on other h dst dst_port src src_port retries payload attempts = send_unsupported

-- What holds of the two, holds of the one that is built.
pub send_spoofed_on-All :
    (P : Sent → Type 0) (platform : Platform) (h : Host) (dst : Ipv4Addr) (dst_port : ℕ)
    (src : Ipv4Addr) (src_port : Option ℕ) (retries : ℕ) (payload : Bytes) (calls : List Attempt)
    → P (send_spoofed h dst dst_port src src_port retries payload calls)
    → P send_unsupported
    → P (send_spoofed_on platform h dst dst_port src src_port retries payload calls)
unfolding send_spoofed_on
send_spoofed_on-All P linux h dst dst_port src src_port retries payload calls built stub = built
send_spoofed_on-All P macos h dst dst_port src src_port retries payload calls built stub = built
send_spoofed_on-All P other h dst dst_port src src_port retries payload calls built stub = stub
