-- ===== src/Transport/Ends.antt =====
-- The end of both transports of src/transport.
use snmptrap_rs.Prelude.{
  ℕ, ◌+◌, ◌<◌, ◌≡◌, refl, ◌∙◌, ap, inl, inr, arith, List, map, Option, none, some, Outcome, ok, err,
  panic, Bytes, length, keep,
}
use snmptrap_rs.Text.Net.{Ipv4Addr}
use snmptrap_rs.Errors.{Error, IoError}
use snmptrap_rs.Transport.Reply.{Reply, counts}
use snmptrap_rs.Transport.Unprivileged.{finish_send, send}
use snmptrap_rs.Transport.Unprivileged.Laws.{send_loop_ends}
use snmptrap_rs.Transport.Raw.{Host, Attempt, finish_spoofed, send_spoofed}
use snmptrap_rs.Transport.Raw.Laws.{reply_of}
use snmptrap_rs.Transport.Raw.Cases.{send_spoofed-cases}

-- A result is there.
abbrev pub HasEnded : Option (Outcome Error (Unit {0})) → Type 0
HasEnded o = (v : Outcome Error (Unit {0})) × (o ≡ some v)

finish_send-HasEnded : (v : Outcome (Option IoError) (Unit {0})) → HasEnded (finish_send (some v))
unfolding finish_send
finish_send-HasEnded (ok t) = (_, refl)
finish_send-HasEnded (err e) = (_, refl)
finish_send-HasEnded panic = (_, refl)

finish_spoofed-HasEnded :
    (n : ℕ) (v : Outcome (Option IoError) (Unit {0})) → HasEnded (finish_spoofed n (some v))
unfolding finish_spoofed
finish_spoofed-HasEnded n (ok t) = (_, refl)
finish_spoofed-HasEnded n (err e) = (_, refl)
finish_spoofed-HasEnded n panic = (_, refl)

pub send-HasEnded :
    (bound : Option IoError) (src_port : Option ℕ) (retries : ℕ) (rs : List Reply)
    → retries < length (keep counts rs)
    → HasEnded (send bound src_port retries rs)
unfolding send
send-HasEnded (some e) src_port retries rs enough = (_, refl)
send-HasEnded none src_port retries rs enough =
    let (v, e) = send_loop_ends rs none (retries + 1) (omega arith) in
    let (u, f) = finish_send-HasEnded v in (u, ap finish_send e ∙ f)

pub send_spoofed-HasEnded :
    (h : Host) (dst : Ipv4Addr) (dst_port : ℕ) (src : Ipv4Addr) (src_port : Option ℕ) (retries : ℕ)
    (payload : Bytes) (calls : List Attempt)
    → retries < length (keep counts (map reply_of calls))
    → HasEnded (send_spoofed h dst dst_port src src_port retries payload calls).1
send_spoofed-HasEnded h dst dst_port src src_port retries payload calls enough =
    elim (send_spoofed-cases h dst dst_port src src_port retries payload calls) [
      | inl (x, f) ↦ (err x, f)
      | inr f ↦
          let (v, e) = send_loop_ends (map reply_of calls) none (retries + 1) (omega arith) in
          let (u, g) = finish_spoofed-HasEnded (length payload) v in
          (u, f ∙ ap (finish_spoofed (length payload)) e ∙ g)
    ]
