-- ===== src/Transport/Reply.antt =====
-- What the kernel answers to `send_to`, and what a bounded retry should make of the answers.
use snmptrap_rs.Prelude.{
  ℕ, Bool, true, false, List, [], ◌∷◌, Option, none, some, Outcome, ok, err, length, take, keep,
  ◌==◌, if◌then◌else◌,
}
use snmptrap_rs.Errors.{IoError, ErrorKind, kind, interrupted}

pub data Reply : Type 0 where
  sent : Reply
  failed : IoError → Reply

unfoldable pub is_interrupted : ErrorKind → Bool
is_interrupted interrupted = true
is_interrupted k = false

-- Whether the answer counts as an attempt: a call that a signal interrupts does not.
unfoldable pub counts : Reply → Bool
unfolding is_interrupted
counts sent = true
counts (failed e) = if is_interrupted (kind e) then false else true

-- The verdict on the attempts in the window: sent if one was, else the last failure.
unfoldable pub verdict : Option IoError → List Reply → Outcome (Option IoError) (Unit {0})
verdict last [] = err last
verdict last (sent ∷ rs) = ok tt
verdict last (failed e ∷ rs) = verdict (some e) rs

abbrev pub is_sent : Outcome (Option IoError) (Unit {0}) → Bool
is_sent (ok t) = true
is_sent v = false

-- What is promised of a loop of `budget` attempts: it looks at the first `budget` answers that count
-- and at no more, and is still waiting while there are fewer and none of them is a success.
unfoldable pub promised :
    ℕ → Option IoError → List Reply → Option (Outcome (Option IoError) (Unit {0}))
unfolding verdict counts keep
promised budget last rs =
    let window = take budget (keep counts rs) in
    let v = verdict last window in
    if is_sent v then some v else if length window == budget then some v else none
