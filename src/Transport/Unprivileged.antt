-- ===== src/Transport/Unprivileged.antt =====
-- src/transport/unprivileged.rs. The kernel is given by its answers, one for each call.
pub mod Laws
use snmptrap_rs.Prelude.{
  ℕ, zero, suc, ◌+◌, Bool, true, false, ◌&&◌, List, [], ◌∷◌, Option, none, some, Outcome, ok, err,
  ltb, if◌then◌else◌,
}
use snmptrap_rs.Errors.{
  Error, usage, routing, other_io, IoError, custom, ErrorKind, host_unreachable,
  network_unreachable, addr_not_available, other_kind, no_os_error, IoMessage, Errno, eacces,
  eaddrinuse, raw_os_error, kind, port_privileged, port_in_use,
}
use snmptrap_rs.Transport.Reply.{Reply, sent, failed, is_interrupted}

-- The loop `while budget > 0`: the answer that ends it, with the last error on failure; `none` while
-- the next answer is awaited.
unfoldable pub send_loop :
    List Reply → Option IoError → ℕ → Option (Outcome (Option IoError) (Unit {0}))
unfolding is_interrupted
send_loop rs last zero = some (err last)
send_loop [] last (suc budget) = none
send_loop (sent ∷ rs) last (suc budget) = some (ok tt)
send_loop (failed e ∷ rs) last (suc budget) =
    let again = send_loop rs last (suc budget) in
    let next = send_loop rs (some e) budget in if is_interrupted (kind e) then again else next

unfoldable pub below_1024 : Option ℕ → Bool
below_1024 none = false
below_1024 (some p) = ltb p 1024

unfoldable pub classify_bind_errno : IoError → Option ℕ → Option Errno → Error
unfolding below_1024
classify_bind_errno e src_port (some eacces) =
    if below_1024 src_port then usage (port_privileged src_port e) else other_io e
classify_bind_errno e src_port (some eaddrinuse) = usage (port_in_use src_port e)
classify_bind_errno e src_port o = other_io e

unfoldable pub classify_bind_io : IoError → Option ℕ → Error
unfolding classify_bind_errno
classify_bind_io e src_port = classify_bind_errno e src_port (raw_os_error e)

unfoldable pub map_send_kind : IoError → ErrorKind → Error
map_send_kind e host_unreachable = routing e
map_send_kind e network_unreachable = routing e
map_send_kind e addr_not_available = routing e
map_send_kind e k = other_io e

unfoldable pub map_send_io : IoError → Error
unfolding map_send_kind
map_send_io e = map_send_kind e (kind e)

-- `last_err.unwrap_or_else(…)`
abbrev pub last_or_default : IoMessage → Option IoError → IoError
last_or_default message (some e) = e
last_or_default message none = custom other_kind message

unfoldable pub finish_send :
    Option (Outcome (Option IoError) (Unit {0})) → Option (Outcome Error (Unit {0}))
unfolding map_send_io
finish_send none = none
finish_send (some (ok t)) = some (ok t)
finish_send (some (err last)) = some (err (map_send_io (last_or_default no_os_error last)))
finish_send (some Outcome.panic) = some Outcome.panic

-- `send`, given the result of `bind` and the answers to `send_to`.
unfoldable pub send : Option IoError → Option ℕ → ℕ → List Reply → Option (Outcome Error (Unit {0}))
unfolding send_loop classify_bind_io finish_send
send (some e) src_port retries replies = some (err (classify_bind_io e src_port))
send none src_port retries replies = finish_send (send_loop replies none (retries + 1))
