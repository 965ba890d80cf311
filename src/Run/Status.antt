-- ===== src/Run/Status.antt =====
-- How a run of the program ends: src/lib.rs `run` and src/main.rs.
use snmptrap_rs.Prelude.{
  ℕ, ◌<◌, ◌≡◌, ◌≢◌, refl, ap, subst, ◌⊎◌, inl, inr, true, map, Option, none, some, Outcome, ok, err,
  panic, Bytes, keep, length,
}
use snmptrap_rs.Text.{Str}
use snmptrap_rs.Text.Net.{Ipv4Addr}
use snmptrap_rs.Errors.{
  Error, usage, raw_socket_denied, unsupported, payload_exceeds_mtu, routing, encode, other_io,
  exit_code,
}
use snmptrap_rs.Cli.Args.{Cli, src_addr_v4}
use snmptrap_rs.Transport.Reply.{counts}
use snmptrap_rs.Transport.Raw.{Sent, send_spoofed_on-All}
use snmptrap_rs.Transport.Raw.Laws.{reply_of}
use snmptrap_rs.Transport.Ends.{HasEnded, send-HasEnded, send_spoofed-HasEnded}
use snmptrap_rs.Transport.Live.{
  has_sent, send_sent, send_spoofed_sent, send-ne-panic, send_spoofed-ne-panic,
}
use snmptrap_rs.Run.{
  Parsed, command, help, misused, System, Route, spoofed, went, status_of, exit_status, debug_text,
  transmit, main,
}
use snmptrap_rs.Run.Cases.{run-All}
use snmptrap_rs.Run.Laws.{validate-Checked, IsCalmSystem, prepare-Calm}

-- The answers of the kernel that count cover every attempt of a command line.
abbrev pub EnoughAnswers : System → Parsed → Type 0
EnoughAnswers s (command cli) = cli.retries < length (keep counts (map reply_of s.calls))
EnoughAnswers s (help text) = Unit
EnoughAnswers s (misused text) = Unit

exit_code-cases : (e : Error) → (exit_code e ≡ 1) ⊎ (exit_code e ≡ 2)
unfolding exit_code
exit_code-cases (usage m) = inr refl
exit_code-cases (raw_socket_denied p e) = inl refl
exit_code-cases unsupported = inl refl
exit_code-cases (payload_exceeds_mtu n e) = inl refl
exit_code-cases (routing e) = inl refl
exit_code-cases (encode m) = inl refl
exit_code-cases (other_io e) = inl refl

error_fails : (e : Error) → ◌≢◌ {A = Option ℕ} (some (exit_code e)) (some 0)
error_fails e h = elim (exit_code-cases e) [ inl f ↦ cc | inr f ↦ cc ]

-- An exit with the status of a success, of a failure, or of a misuse.
abbrev pub IsSettled : Option ℕ → Type 0
IsSettled o = (o ≡ some 0) ⊎ (o ≡ some 1) ⊎ (o ≡ some 2)

status_of-IsSettled : (o : Outcome Error (Unit {0})) → o ≢ panic → IsSettled (some (status_of o))
status_of-IsSettled (ok t) h = inl refl
status_of-IsSettled (err e) h = elim (exit_code-cases e) [
  | inl f ↦ inr (inl (ap some f))
  | inr f ↦ inr (inr (ap some f))
]
status_of-IsSettled panic h = absurd (h refl)

went-IsSettled :
    (text : Option Str) (route : Route) (o : Option (Outcome Error (Unit {0})))
    → HasEnded o
    → o ≢ some panic
    → IsSettled (exit_status (went text route o))
unfolding exit_status
went-IsSettled text route none (v, e) h = cc
went-IsSettled text route (some v) ended h = status_of-IsSettled v (λ e. h (ap some e))

module _ (s : System) where
  transmit-IsSettled :
      (src : Option Ipv4Addr) (cli : Cli) (dst : Ipv4Addr) (port : ℕ) (payload : Bytes)
      → cli.retries < length (keep counts (map reply_of s.calls))
      → IsSettled (exit_status (transmit s src cli dst port payload))
  unfolding transmit
  transmit-IsSettled none cli dst port payload enough =
      went-IsSettled _ _ _
        (send-HasEnded s.bound cli.src_port cli.retries (map reply_of s.calls) enough)
        (send-ne-panic s.bound cli.src_port cli.retries (map reply_of s.calls))
  transmit-IsSettled (some src) cli dst port payload enough =
      let text = debug_text s cli dst port payload in
      send_spoofed_on-All (λ (x : Sent). IsSettled (exit_status (went text (spoofed src x.0) x.1)))
        s.host.platform s.host dst port src cli.src_port cli.retries payload s.calls
        (went-IsSettled _ _ _
          (send_spoofed-HasEnded s.host dst port src cli.src_port cli.retries payload s.calls
            enough)
          (send_spoofed-ne-panic s.host dst port src cli.src_port cli.retries payload s.calls))
        (went-IsSettled _ _ _ (err unsupported, refl) (λ h. cc))

  -- The program ends with the status 0, 1 or 2, and does not panic, whatever the command line: if the
  -- resolver, the host and the encoders answer without a panic, the cryptography is lawful, and
  -- `retries + 1` calls that send were answered, not counting the interrupted ones.
  pub main-IsSettled : IsCalmSystem s → (p : Parsed) → EnoughAnswers s p → IsSettled (main s p)
  unfolding main exit_status
  main-IsSettled calm p enough =
      run-All s (λ r. IsSettled (exit_status r)) p (λ t h. inl refl)
        (λ e. status_of-IsSettled (err e) (λ h. cc))
        (λ cli out valid h.
          let (ready, common, addr, retries) = validate-Checked s.is_ipv6 cli out valid in
          absurd ((prepare-Calm s calm out ready).calm h))
        (λ cli out dst port payload same valid prepared.
          let (ready, common, addr, retries) = validate-Checked s.is_ipv6 cli out valid in
          let given : cli.retries < length (keep counts (map reply_of s.calls)) =
            subst (EnoughAnswers s) same enough in
          transmit-IsSettled (src_addr_v4 out) out dst port payload (rw retries given))

  went-has_sent :
      (text : Option Str) (route : Route) (o : Option (Outcome Error (Unit {0})))
      → exit_status (went text route o) ≡ some 0
      → o ≡ some (ok tt)
  unfolding exit_status exit_code
  went-has_sent text route none h = cc
  went-has_sent text route (some (ok t)) h = refl
  went-has_sent text route (some (err e)) h = absurd (error_fails e h)
  went-has_sent text route (some panic) h = cc

  stub_status :
      (text : Option Str) (route : Route)
      → exit_status (went text route (some (err unsupported))) ≡ some 0
      → ◌≡◌ {A = Option ℕ} (some (exit_code unsupported)) (some 0)
  unfolding exit_status
  stub_status text route h = h

  transmit-has_sent :
      (src : Option Ipv4Addr) (cli : Cli) (dst : Ipv4Addr) (port : ℕ) (payload : Bytes)
      → exit_status (transmit s src cli dst port payload) ≡ some 0
      → has_sent (map reply_of s.calls) ≡ true
  unfolding transmit
  transmit-has_sent none cli dst port payload =
      λ h. send_sent s.bound cli.src_port cli.retries (map reply_of s.calls) (went-has_sent _ _ _ h)
  transmit-has_sent (some src) cli dst port payload =
      let text = debug_text s cli dst port payload in
      send_spoofed_on-All
        (λ (x : Sent).
          exit_status (went text (spoofed src x.0) x.1) ≡ some 0
          → has_sent (map reply_of s.calls) ≡ true)
        s.host.platform s.host dst port src cli.src_port cli.retries payload s.calls
        (λ h.
          send_spoofed_sent s.host dst port src cli.src_port cli.retries payload s.calls
            (went-has_sent _ _ _ h))
        (λ h. absurd (error_fails unsupported (stub_status _ _ h)))

  -- The program exits with the status of a success only if the kernel took one of its packets, or if
  -- it was asked for help or for its version.
  pub main-has_sent :
      (p : Parsed)
      → main s p ≡ some 0
      → ((text : Str) × (p ≡ help text)) ⊎ (has_sent (map reply_of s.calls) ≡ true)
  unfolding main exit_status
  main-has_sent p =
      run-All s
        (λ r.
          exit_status r ≡ some 0
          → ((text : Str) × (p ≡ help text)) ⊎ (has_sent (map reply_of s.calls) ≡ true))
        p (λ text asked h. inl (text, asked)) (λ e h. absurd (error_fails e h))
        (λ c out valid p h. cc)
        (λ c out dst port payload same valid prepared h.
          inr (transmit-has_sent (src_addr_v4 out) out dst port payload h))
