-- ===== src/Transport/Raw/Once.antt =====
-- How often src/transport/raw.rs delivers the datagram.
use snmptrap_rs.Prelude.{
  ℕ, zero, suc, ◌+◌, ◌≡◌, refl, ◌∙◌, inl, inr, List, [], ◌∷◌, map, Option, none, some, Outcome, ok,
  err, panic, Bytes, length, take, ltb, Bool-cases,
}
use snmptrap_rs.Text.Net.{Ipv4Addr}
use snmptrap_rs.Errors.{IoError, kind}
use snmptrap_rs.Transport.Reply.{Reply, sent, failed, is_interrupted}
use snmptrap_rs.Transport.Raw.{
  Host, Attempt, End, spoofed_loop, finish_spoofed, max_udp_payload, open_then, send_all,
  send_spoofed,
}
use snmptrap_rs.Transport.Raw.Laws.{reply_of}

-- How many of the answers are a success.
abbrev pub sent_count : List Reply → ℕ
sent_count [] = 0
sent_count (sent ∷ rs) = suc (sent_count rs)
sent_count (failed e ∷ rs) = sent_count rs

-- One for a success, and none for anything else.
abbrev pub delivered : {E : Type 0} → Option (Outcome E (Unit {0})) → ℕ
delivered none = 0
delivered (some (ok t)) = 1
delivered (some (err e)) = 0
delivered (some panic) = 0

module _ (packet : ℕ → Bytes) where
  -- The calls that were made are as many as the packets.
  spoofed_loop_count :
      (calls : List Attempt) (last : Option IoError) (budget : ℕ)
      → sent_count (take (length (spoofed_loop packet calls last budget).0) (map reply_of calls))
        ≡ delivered (spoofed_loop packet calls last budget).1
  unfolding spoofed_loop
  spoofed_loop_count calls last zero = refl
  spoofed_loop_count [] last (suc budget) = refl
  spoofed_loop_count ((ident, sent) ∷ calls) last (suc budget) = refl
  spoofed_loop_count ((ident, failed e) ∷ calls) last (suc budget) =
      elim (Bool-cases (is_interrupted (kind e))) [
        | inl h ↦ rw h (spoofed_loop_count calls last (suc budget))
        | inr h ↦ rw h (spoofed_loop_count calls (some e) budget)
      ]

delivered-finish_spoofed :
    (len : ℕ) (end : End) → delivered end ≡ delivered (finish_spoofed len end)
unfolding finish_spoofed
delivered-finish_spoofed len none = refl
delivered-finish_spoofed len (some (ok t)) = refl
delivered-finish_spoofed len (some (err e)) = refl
delivered-finish_spoofed len (some panic) = refl

module _ (h : Host) (dst : Ipv4Addr) (dst_port : ℕ) (src : Ipv4Addr) (src_port : Option ℕ)
    (retries : ℕ) (payload : Bytes) (calls : List Attempt) where
  opened_count :
      (o : Option IoError)
      → sent_count (
          take
            (length (open_then h o (send_all h dst dst_port src src_port retries payload calls)).0)
            (map reply_of calls))
        ≡ delivered (open_then h o (send_all h dst dst_port src src_port retries payload calls)).1
  unfolding open_then send_all
  opened_count (some e) = refl
  opened_count none =
      spoofed_loop_count _ calls none (retries + 1)
      ∙ delivered-finish_spoofed (length payload) (spoofed_loop _ calls none (retries + 1)).1

  -- The kernel takes the datagram at most once, and it does so exactly if the send is reported as a
  -- success: of the calls that were made, one for each packet, one is answered with a success if the
  -- result is one, and none if it is an error or is still awaited. After a success there is no
  -- retransmission.
  pub send_spoofed_once :
      sent_count (
        take
          (length (send_spoofed h dst dst_port src src_port retries payload calls).0)
          (map reply_of calls))
      ≡ delivered (send_spoofed h dst dst_port src src_port retries payload calls).1
  unfolding send_spoofed
  send_spoofed_once = elim (Bool-cases (ltb max_udp_payload (length payload))) [
    | inl big ↦ rw big refl
    | inr fits ↦ rw fits (opened_count h.opened)
  ]
