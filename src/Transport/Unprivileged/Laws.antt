-- ===== src/Transport/Unprivileged/Laws.antt =====
-- The retry loop keeps its promise, and ends once enough answers came.
use snmptrap_rs.Prelude.{
  ℕ, zero, suc, ◌≤◌, ◌≡◌, refl, sym, ◌∙◌, inl, inr, true, false, List, [], ◌∷◌, Option, none, some,
  arith, Outcome, length, take, length-take, keep, ◌==◌, Bool-cases,
}
use snmptrap_rs.Errors.{IoError, kind}
use snmptrap_rs.Transport.Reply.{
  Reply, sent, failed, is_interrupted, counts, verdict, is_sent, promised,
}
use snmptrap_rs.Transport.Unprivileged.{send_loop}

counts_interrupted : (e : IoError) → is_interrupted (kind e) ≡ true → counts (failed e) ≡ false
unfolding counts
counts_interrupted e h = rw h

counts_failed : (e : IoError) → is_interrupted (kind e) ≡ false → counts (failed e) ≡ true
unfolding counts
counts_failed e h = rw h

suc_eq : (a b : ℕ) → (suc a == suc b) ≡ (a == b)
suc_eq a b = ground arith

promised_interrupted :
    (e : IoError) (rs : List Reply) (last : Option IoError) (budget : ℕ)
    → counts (failed e) ≡ false
    → promised budget last (failed e ∷ rs) ≡ promised budget last rs
unfolding promised
promised_interrupted e rs last budget h = rw h

promised_failed :
    (e : IoError) (rs : List Reply) (last : Option IoError) (budget : ℕ)
    → counts (failed e) ≡ true
    → promised (suc budget) last (failed e ∷ rs) ≡ promised budget (some e) rs
unfolding promised
promised_failed e rs last budget h = rw (h, suc_eq)

send_loop_interrupted :
    (e : IoError) (rs : List Reply) (last : Option IoError) (budget : ℕ)
    → is_interrupted (kind e) ≡ true
    → send_loop (failed e ∷ rs) last (suc budget) ≡ send_loop rs last (suc budget)
unfolding send_loop
send_loop_interrupted e rs last budget h = rw h

send_loop_failed :
    (e : IoError) (rs : List Reply) (last : Option IoError) (budget : ℕ)
    → is_interrupted (kind e) ≡ false
    → send_loop (failed e ∷ rs) last (suc budget) ≡ send_loop rs (some e) budget
unfolding send_loop
send_loop_failed e rs last budget h = rw h

zero_eq_suc : (n : ℕ) → (0 == suc n) ≡ false
zero_eq_suc n = ground arith

promised_waiting : (last : Option IoError) (budget : ℕ) → promised (suc budget) last [] ≡ none
unfolding promised
promised_waiting last budget = rw zero_eq_suc

-- The loop does what is promised of `budget` attempts, whatever the kernel answers: interrupted
-- calls are repeated without being counted, the first success ends it, and after `budget` failures
-- it reports the last.
pub send_loop-promised :
    (rs : List Reply) (last : Option IoError) (budget : ℕ)
    → send_loop rs last budget ≡ promised budget last rs
send_loop-promised rs last zero = unfold send_loop promised in refl
send_loop-promised [] last (suc budget) =
    unfold send_loop in refl ∙ sym (promised_waiting last budget)
send_loop-promised (sent ∷ rs) last (suc budget) = unfold send_loop promised in refl
send_loop-promised (failed e ∷ rs) last (suc budget) = elim (Bool-cases (is_interrupted (kind e))) [
  | inl h ↦
      send_loop_interrupted e rs last budget h
      ∙ send_loop-promised rs last (suc budget)
      ∙ sym (promised_interrupted e rs last (suc budget) (counts_interrupted e h))
  | inr h ↦
      send_loop_failed e rs last budget h
      ∙ send_loop-promised rs (some e) budget
      ∙ sym (promised_failed e rs last budget (counts_failed e h))
]

-- Once as many answers came as there are attempts, not counting interrupted calls, the loop has
-- ended. It can only run on while calls are interrupted.
pub send_loop_ends :
    (rs : List Reply) (last : Option IoError) (budget : ℕ)
    → budget ≤ length (keep counts rs)
    → (v : Outcome (Option IoError) (Unit {0})) × (send_loop rs last budget ≡ some v)
send_loop_ends rs last budget h =
    let w = take budget (keep counts rs) in
    let full : (length w == budget) ≡ true = enough in
    elim (Bool-cases (is_sent (verdict last w))) [
      | inl e ↦ (verdict last w, send_loop-promised rs last budget ∙ unfold promised in rw e)
      | inr e ↦
          (verdict last w, send_loop-promised rs last budget ∙ unfold promised in rw (e, full))
    ]
  where
    enough : (length (take budget (keep counts rs)) == budget) ≡ true
    enough = ground (arith, length-take budget (keep counts rs))
