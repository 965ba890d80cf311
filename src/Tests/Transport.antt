-- ===== src/Tests/Transport.antt =====
-- The theorems on src/transport, at concrete packets and answers.
use snmptrap_rs.Prelude.{
  ℕ, ◌-◌, ◌≡◌, refl, ◌⊎◌, true, List, [], ◌∷◌, ◌++◌, map, none, some, ok, err, arith, All, length,
  take, keep,
}
use snmptrap_rs.Text.Net.{Ipv4Addr}
use snmptrap_rs.Errors.{
  os, eperm, eacces, emsgsize, payload_exceeds_mtu, other_kind, interrupted, linux, macos,
  raw_os_error, raw_socket_denied, errno,
}
use snmptrap_rs.Errors.Display.{wire_total}
use snmptrap_rs.Transport.Raw.Lengths.{IsMeasured, send_spoofed-IsMeasured, send_spoofed_exceeds}
use snmptrap_rs.Transport.Checksum.{ip_checksum, ones_sum}
use snmptrap_rs.Transport.Checksum.Laws.{ip_checksum-ones_sum}
use snmptrap_rs.Transport.Packet.{network_order, host_order, build_udp_datagram}
use snmptrap_rs.Transport.Raw.Received.{IsReceived, send_spoofed-IsReceived}
use snmptrap_rs.Transport.Reply.{Reply, sent, failed, counts, promised}
use snmptrap_rs.Transport.Unprivileged.{send_loop, send}
use snmptrap_rs.Transport.Live.{send_delivers}
use snmptrap_rs.Transport.Unprivileged.Laws.{send_loop-promised}
use snmptrap_rs.Transport.Raw.{Host, Attempt, send_spoofed, chosen_port}
use snmptrap_rs.Transport.Raw.Once.{sent_count, delivered, send_spoofed_once}
use snmptrap_rs.Transport.Raw.Laws.{IsPacketOf, reply_of, send_spoofed-packets, send_spoofed_denied}

abbrev src : Ipv4Addr
src = record { a = 192; b = 0; c = 2; d = 1 }

abbrev dst : Ipv4Addr
dst = record { a = 198; b = 51; c = 100; d = 7 }

abbrev payload : List ℕ
payload = 48 ∷ 3 ∷ 2 ∷ []

ip_checksum-ones_sum_example : ip_checksum payload ≡ 65535 - ones_sum payload
ip_checksum-ones_sum_example = ip_checksum-ones_sum payload (omega arith) (omega arith)

-- An interrupted call, a failure, and a success.
abbrev answers : List Reply
answers = failed (os (errno 4) interrupted) ∷ failed (os eperm other_kind) ∷ sent ∷ []

send_loop-promised_example : send_loop answers none 2 ≡ promised 2 none answers
send_loop-promised_example = send_loop-promised answers none 2

abbrev pub host : Host
host = record { platform = linux; kernel = network_order; opened = none; ephemeral_port = 40000 }

-- A BSD on a little-endian machine.
abbrev bsd : Host
bsd = record host { platform = macos; kernel = host_order true }

abbrev locked : Host
locked = record host { opened = some (os eperm other_kind) }

abbrev pub attempts : List Attempt
attempts =
    (7, failed (os (errno 4) interrupted)) ∷ (8, failed (os eperm other_kind)) ∷ (9, sent) ∷ []

send_spoofed-packets_example :
    All
      (IsPacketOf src dst (build_udp_datagram src dst (chosen_port none 40000) 162 payload))
      (send_spoofed host dst 162 src none 1 payload attempts).0
send_spoofed-packets_example =
    send_spoofed-packets host dst 162 src none 1 payload attempts (omega arith) (omega arith)

-- The interrupted call does not count, the failure does.
counted_attempts :
    keep counts (map reply_of attempts) ≡ failed (os eperm other_kind) ∷ [] ++ sent ∷ []
unfolding keep counts
counted_attempts = refl

send_delivers_example :
    (send none none 1 (map reply_of attempts) ≡ some (ok tt))
    × ((send_spoofed host dst 162 src none 1 payload attempts).1 ≡ some (ok tt))
send_delivers_example =
    send_delivers host dst 162 src none 1 payload attempts (failed (os eperm other_kind) ∷ []) []
      counted_attempts (omega arith) refl (omega arith)

refused :
    (send_spoofed locked dst 162 src none 1 payload []).1
    ≡ some (err (raw_socket_denied linux (os eperm other_kind)))
unfolding send_spoofed
refused = refl

send_spoofed_denied_example :
    (locked.opened ≡ some (os eperm other_kind))
    × (linux ≡ locked.platform)
    × ((raw_os_error (os eperm other_kind) ≡ some eperm)
        ⊎ (raw_os_error (os eperm other_kind) ≡ some eacces))
send_spoofed_denied_example =
    send_spoofed_denied locked dst 162 src none 1 payload [] linux (os eperm other_kind) refused

send_spoofed-IsMeasured_example :
    All
      (IsMeasured (host_order true) payload)
      (send_spoofed bsd dst 162 src none 1 payload attempts).0
send_spoofed-IsMeasured_example = send_spoofed-IsMeasured bsd dst 162 src none 1 payload attempts

-- The packet is too large for the path.
abbrev too_large : List Attempt
too_large = (7, failed (os emsgsize other_kind)) ∷ []

too_large_reported :
    (send_spoofed host dst 162 src none 0 payload too_large).1
    ≡ some (err (payload_exceeds_mtu 3 (os emsgsize other_kind)))
unfolding send_spoofed
too_large_reported = refl

send_spoofed_exceeds_example :
    (3 ≡ length payload)
    × All (λ p. length p ≡ wire_total 3) (send_spoofed host dst 162 src none 0 payload too_large).0
send_spoofed_exceeds_example =
    send_spoofed_exceeds host dst 162 src none 0 payload too_large 3 (os emsgsize other_kind)
      too_large_reported

send_spoofed_once_example :
    sent_count (
      take
        (length (send_spoofed host dst 162 src none 1 payload attempts).0)
        (map reply_of attempts))
    ≡ delivered (send_spoofed host dst 162 src none 1 payload attempts).1
send_spoofed_once_example = send_spoofed_once host dst 162 src none 1 payload attempts

send_spoofed-IsReceived_example :
    All (IsReceived src dst) (send_spoofed host dst 162 src none 1 payload attempts).0
send_spoofed-IsReceived_example =
    send_spoofed-IsReceived host dst 162 src none 1 payload attempts (omega arith) (omega arith)
      (omega arith)
