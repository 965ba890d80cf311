-- ===== src/Transport/Live.antt =====
-- When a send of src/transport succeeds, over either socket.
use snmptrap_rs.Prelude.{
  ℕ, zero, suc, ◌+◌, ◌≤◌, ◌<◌, ◌≡◌, ◌≢◌, refl, sym, ◌∙◌, ap, arith, Bool, true, false, List, [],
  ◌∷◌, ◌++◌, map, Option, none, some, Outcome, ok, err, panic, Bytes, length, take, keep, inl, inr,
}
use snmptrap_rs.Text.Net.{Ipv4Addr}
use snmptrap_rs.Errors.{IoError}
use snmptrap_rs.Transport.Reply.{Reply, sent, failed, counts, verdict, promised}
use snmptrap_rs.Transport.Unprivileged.{send_loop, finish_send, send}
use snmptrap_rs.Transport.Unprivileged.Laws.{send_loop-promised}
use snmptrap_rs.Transport.Raw.{Host, Attempt, max_udp_payload, finish_spoofed, send_spoofed}
use snmptrap_rs.Transport.Raw.Laws.{reply_of, send_spoofed-promised}
use snmptrap_rs.Transport.Raw.Cases.{send_spoofed-cases}

-- Whether the kernel took one of the calls.
unfoldable pub has_sent : List Reply → Bool
has_sent [] = false
has_sent (sent ∷ rs) = true
has_sent (failed e ∷ rs) = has_sent rs

pub send_loop_sent :
    (rs : List Reply) (last : Option IoError) (budget : ℕ)
    → send_loop rs last budget ≡ some (ok tt)
    → has_sent rs ≡ true
unfolding send_loop has_sent
send_loop_sent rs last zero h = cc
send_loop_sent [] last (suc budget) h = cc
send_loop_sent (sent ∷ rs) last (suc budget) h = refl
send_loop_sent (failed e ∷ rs) last (suc budget) h =
    ground (arith, send_loop_sent rs last (suc budget), send_loop_sent rs (some e) budget)

verdict_sent :
    (fs rest : List Reply) (last : Option IoError) (n : ℕ)
    → length fs < n
    → verdict last (take n (fs ++ sent ∷ rest)) ≡ ok tt
unfolding verdict
verdict_sent fs rest last zero h = absurd (omega arith)
verdict_sent [] rest last (suc n) h = refl
verdict_sent (sent ∷ fs) rest last (suc n) h = refl
verdict_sent (failed e ∷ fs) rest last (suc n) h = verdict_sent fs rest (some e) n (omega arith)

pub promised_sent :
    (rs fs rest : List Reply) (last : Option IoError) (n : ℕ)
    → keep counts rs ≡ fs ++ sent ∷ rest
    → length fs < n
    → promised n last rs ≡ some (ok tt)
unfolding promised
promised_sent rs fs rest last n e h = rw (e, verdict_sent fs rest last n h)

pub send_taken :
    (bound : Option IoError) (src_port : Option ℕ) (retries : ℕ) (rs before after : List Reply)
    → bound ≡ none
    → keep counts rs ≡ before ++ sent ∷ after
    → length before ≤ retries
    → send bound src_port retries rs ≡ some (ok tt)
unfolding send finish_send
send_taken (some e) src_port retries rs before after unbound h le = cc
send_taken none src_port retries rs before after unbound h le = ap finish_send (
    send_loop-promised rs none (retries + 1)
    ∙ promised_sent rs before after none (retries + 1) h (omega arith))

-- Both transports deliver: once the socket is open, and the payload fits in a datagram if the source
-- is forged, a call that the kernel takes among the first `retries + 1` that are not interrupted
-- makes the send succeed, whatever it answered before.
pub send_delivers :
    (h : Host) (dst : Ipv4Addr) (dst_port : ℕ) (src : Ipv4Addr) (src_port : Option ℕ) (retries : ℕ)
    (payload : Bytes) (calls : List Attempt) (before after : List Reply)
    → keep counts (map reply_of calls) ≡ before ++ sent ∷ after
    → length before ≤ retries
    → h.opened ≡ none
    → length payload ≤ max_udp_payload
    → (send none src_port retries (map reply_of calls) ≡ some (ok tt))
      × ((send_spoofed h dst dst_port src src_port retries payload calls).1 ≡ some (ok tt))
send_delivers h dst dst_port src src_port retries payload calls before after e le opened fits =
    let done = promised_sent (map reply_of calls) before after none (retries + 1) e (omega arith) in
    (
      send_taken none src_port retries (map reply_of calls) before after refl e le,
      send_spoofed-promised h dst dst_port src src_port retries payload calls fits opened
          ∙ unfold finish_spoofed in ap (finish_spoofed (length payload)) done,
    )

finish_send_ok :
    (o : Option (Outcome (Option IoError) (Unit {0})))
    → finish_send o ≡ some (ok tt)
    → o ≡ some (ok tt)
unfolding finish_send
finish_send_ok none h = cc
finish_send_ok (some (ok t)) h = refl
finish_send_ok (some (err e)) h = cc
finish_send_ok (some panic) h = cc

finish_spoofed_ok :
    (n : ℕ) (o : Option (Outcome (Option IoError) (Unit {0})))
    → finish_spoofed n o ≡ some (ok tt)
    → o ≡ some (ok tt)
unfolding finish_spoofed
finish_spoofed_ok n none h = cc
finish_spoofed_ok n (some (ok t)) h = refl
finish_spoofed_ok n (some (err e)) h = cc
finish_spoofed_ok n (some panic) h = cc

-- The ordinary transport reports success only if the kernel took a call.
pub send_sent :
    (bound : Option IoError) (src_port : Option ℕ) (retries : ℕ) (rs : List Reply)
    → send bound src_port retries rs ≡ some (ok tt)
    → has_sent rs ≡ true
unfolding send
send_sent (some e) src_port retries rs h = cc
send_sent none src_port retries rs h = send_loop_sent rs none (retries + 1) (finish_send_ok _ h)

-- So does the transport with a forged source.
pub send_spoofed_sent :
    (h : Host) (dst : Ipv4Addr) (dst_port : ℕ) (src : Ipv4Addr) (src_port : Option ℕ) (retries : ℕ)
    (payload : Bytes) (calls : List Attempt)
    → (send_spoofed h dst dst_port src src_port retries payload calls).1 ≡ some (ok tt)
    → has_sent (map reply_of calls) ≡ true
send_spoofed_sent h dst dst_port src src_port retries payload calls e =
    elim (send_spoofed-cases h dst dst_port src src_port retries payload calls) [
      | inl (x, f) ↦ cc
      | inr f ↦
          send_loop_sent (map reply_of calls) none (retries + 1)
            (finish_spoofed_ok (length payload) _ (sym f ∙ e))
    ]

send_loop-ne-panic :
    (rs : List Reply) (last : Option IoError) (budget : ℕ) → send_loop rs last budget ≢ some panic
unfolding send_loop
send_loop-ne-panic rs last zero h = cc
send_loop-ne-panic [] last (suc budget) h = cc
send_loop-ne-panic (sent ∷ rs) last (suc budget) h = cc
send_loop-ne-panic (failed e ∷ rs) last (suc budget) h =
    ground (arith, send_loop-ne-panic rs last (suc budget), send_loop-ne-panic rs (some e) budget)

finish_send-ne-panic :
    (o : Option (Outcome (Option IoError) (Unit {0}))) → o ≢ some panic → finish_send o ≢ some panic
unfolding finish_send
finish_send-ne-panic none n h = cc
finish_send-ne-panic (some (ok t)) n h = cc
finish_send-ne-panic (some (err e)) n h = cc
finish_send-ne-panic (some panic) n h = n refl

finish_spoofed-ne-panic :
    (k : ℕ) (o : Option (Outcome (Option IoError) (Unit {0})))
    → o ≢ some panic
    → finish_spoofed k o ≢ some panic
unfolding finish_spoofed
finish_spoofed-ne-panic k none n h = cc
finish_spoofed-ne-panic k (some (ok t)) n h = cc
finish_spoofed-ne-panic k (some (err e)) n h = cc
finish_spoofed-ne-panic k (some panic) n h = n refl

pub send-ne-panic :
    (bound : Option IoError) (src_port : Option ℕ) (retries : ℕ) (rs : List Reply)
    → send bound src_port retries rs ≢ some panic
unfolding send
send-ne-panic (some e) src_port retries rs h = cc
send-ne-panic none src_port retries rs h =
    finish_send-ne-panic _ (send_loop-ne-panic rs none (retries + 1)) h

pub send_spoofed-ne-panic :
    (h : Host) (dst : Ipv4Addr) (dst_port : ℕ) (src : Ipv4Addr) (src_port : Option ℕ) (retries : ℕ)
    (payload : Bytes) (calls : List Attempt)
    → (send_spoofed h dst dst_port src src_port retries payload calls).1 ≢ some panic
send_spoofed-ne-panic h dst dst_port src src_port retries payload calls e =
    elim (send_spoofed-cases h dst dst_port src src_port retries payload calls) [
      | inl (x, f) ↦ cc
      | inr f ↦
          finish_spoofed-ne-panic (length payload) _
            (send_loop-ne-panic (map reply_of calls) none (retries + 1)) (sym f ∙ e)
    ]
