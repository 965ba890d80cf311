-- ===== src/Usm/Keys/Stretch.antt =====
-- What the hasher is fed: the password over and over, cut at one mebibyte.
use mathlib.Core.List.{flatten}
use snmptrap_rs.Prelude.{
  ℕ, zero, suc, ◌+◌, ◌-◌, ◌*◌, ◌%◌, ◌≤◌, ◌<◌, min, ◌≡◌, refl, sym, ◌∙◌, ap, ◌⊎◌, inl, inr, true, [],
  ◌∷◌, ◌++◌, append_assoc, arith, Bytes, length, length-append, take, get_or, ltb,
}
use snmptrap_rs.Usm.Types.{AuthProtocol}
use snmptrap_rs.Usm.Crypto.{Crypto, IsLawful}
use snmptrap_rs.Usm.Keys.{feed, incremental_digest}

-- `n` bytes from position `i` on of the endless repetition of the password.
unfoldable pub cyclic : Bytes → ℕ → ℕ → Bytes
cyclic pw i zero = []
cyclic pw i (suc n) = get_or pw (i % length pw) 0 ∷ cyclic pw (suc i) n

mod_of : (q n r : ℕ) → r < n → (q * n + r) % n ≡ r
mod_of q n r h = grind arith

get_or-append : (pre : Bytes) (b : ℕ) (suf : Bytes) → get_or (pre ++ b ∷ suf) (length pre) 0 ≡ b
get_or-append [] b suf = refl
get_or-append (x ∷ pre) b suf = get_or-append pre b suf

-- A stretch that ends with the password is a piece of the repetition.
take-cyclic :
    (pw pre suf : Bytes) (q i k m : ℕ)
    → pre ++ suf ≡ pw
    → i ≡ q * length pw + length pre
    → k ≤ length suf
    → take k suf ++ cyclic pw (i + k) m ≡ cyclic pw i (k + m)
take-cyclic pw pre suf q i zero m e ei h = λ j. cyclic pw (plus j) (sum j)
  where
    plus : i + 0 ≡ i
    plus = omega arith

    sum : m ≡ 0 + m
    sum = omega arith
take-cyclic pw pre [] q i (suc k) m e ei h = absurd (omega arith)
take-cyclic pw pre (b ∷ suf) q i (suc k) m e ei h =
    (λ j. head j ∷ (take k suf ++ cyclic pw (shift j) m))
    ∙ ap (λ (t : Bytes). get_or pw (i % length pw) 0 ∷ t)
        (take-cyclic pw (pre ++ b ∷ []) suf q (suc i) k m (append_assoc pre (b ∷ []) suf ∙ e)
          (omega (arith, length-append pre (b ∷ []))) (omega arith))
    ∙ unfold cyclic in refl ∙ ap (cyclic pw i) total
  where
    lengths : length pw ≡ length pre + suc (length suf)
    lengths = ap length (sym e) ∙ length-append pre (b ∷ suf)

    index : i % length pw ≡ length pre
    index = ap (λ n. n % length pw) ei ∙ mod_of q (length pw) (length pre) (omega (arith, lengths))

    head : b ≡ get_or pw (i % length pw) 0
    head = sym (
        ap (λ n. get_or pw n 0) index
        ∙ ap (λ (t : Bytes). get_or t (length pre) 0) (sym e)
        ∙ get_or-append pre b suf)

    shift : i + suc k ≡ suc i + k
    shift = omega arith

    total : suc (k + m) ≡ suc k + m
    total = omega arith

feed_done : (pw : Bytes) (target rounds w : ℕ) → target ≤ w → feed pw target rounds w ≡ []
unfolding feed
feed_done pw target zero w h = refl
feed_done pw target (suc rounds) w h = ground arith

feed_round :
    (pw : Bytes) (target rounds w n : ℕ)
    → w < target
    → min (target - w) (length pw) ≡ n
    → feed pw target (suc rounds) w ≡ take n pw ∷ feed pw target rounds (w + n)
unfolding feed
feed_round pw target rounds w n h e =
    let go_on : ltb w target ≡ true = ground arith in rw (go_on, e)

step_cases : (a b : ℕ) → (b ≤ a) ⊎ (a < b)
step_cases a b = omega arith

ends_or_not : (w target : ℕ) → (target ≤ w) ⊎ (w < target)
ends_or_not w target = omega arith

cyclic_len : (pw : Bytes) (w m n : ℕ) → m ≡ n → cyclic pw w m ≡ cyclic pw w n
cyclic_len pw w m n e = ap (cyclic pw w) e

cyclic_none : (pw : Bytes) (w n : ℕ) → n ≡ 0 → [] ≡ cyclic pw w n
unfolding cyclic
cyclic_none pw w n e = rw e

flatten_done :
    (pw : Bytes) (target rounds w : ℕ)
    → target ≤ w
    → flatten (feed pw target rounds w) ≡ cyclic pw w (target - w)
unfolding flatten
flatten_done pw target rounds w h =
    ap flatten (feed_done pw target rounds w h) ∙ cyclic_none pw w (target - w) (omega arith)

-- From a whole number of passwords on, the chunks spell the repetition up to the target.
flatten-feed :
    (pw : Bytes) (target rounds w q : ℕ)
    → 0 < length pw
    → w ≡ q * length pw
    → target - w ≤ rounds
    → flatten (feed pw target rounds w) ≡ cyclic pw w (target - w)
unfolding flatten
flatten-feed pw target zero w q pos e h = flatten_done pw target zero w (omega arith)
flatten-feed pw target (suc rounds) w q pos e h = elim (ends_or_not w target) [
  | inl done ↦ flatten_done pw target (suc rounds) w done
  | inr more ↦ elim (step_cases (target - w) (length pw)) [
    | inl whole ↦
        ap flatten (feed_round pw target rounds w (length pw) more (omega arith))
        ∙ ap (λ (t : Bytes). take (length pw) pw ++ t)
            (flatten-feed pw target rounds (w + length pw) (suc q) pos (grind arith) (omega arith))
        ∙ take-cyclic pw [] pw q w (length pw) (target - (w + length pw)) refl (omega arith)
            (omega arith)
        ∙ cyclic_len pw w (length pw + (target - (w + length pw))) (target - w) (omega arith)
    | inr part ↦
        ap flatten (feed_round pw target rounds w (target - w) more (omega arith))
        ∙ ap (λ (t : Bytes). take (target - w) pw ++ t)
            (flatten_done pw target rounds (w + (target - w)) (omega arith)
              ∙ cyclic_len pw (w + (target - w)) (target - (w + (target - w))) 0 (omega arith))
        ∙ take-cyclic pw [] pw q w (target - w) 0 refl (omega arith) (omega arith)
        ∙ cyclic_len pw w (target - w + 0) (target - w) (omega arith)
  ]
]

-- Feeding a password of at least one byte round by round is hashing the first `target` bytes of its
-- endless repetition; the loop ends within `target` rounds.
pub incremental_digest-cyclic :
    (c : Crypto)
    → IsLawful c
    → (proto : AuthProtocol) (pw : Bytes) (target : ℕ) → 0 < length pw
    → incremental_digest c proto pw target ≡ c.digest proto (cyclic pw 0 target)
unfolding incremental_digest
incremental_digest-cyclic c law proto pw target pos =
    law.hash_chunks-digest proto (feed pw target target 0)
    ∙ ap (c.digest proto) (
        flatten-feed pw target target 0 0 pos (omega arith) (omega arith)
        ∙ cyclic_len pw 0 (target - 0) target (omega arith))
