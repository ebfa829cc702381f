-- ===== src/Lifecycle/Reconnect/Attempts.antt =====
-- The attempts of src/internal/lifecycle/health/reconnect.go one after the other.
use unet.Base.{
  ℕ, ◌+◌, ◌≡◌, refl, ap, ◌∙◌, Bool, true, false, ◌&&◌, ◌⊎◌, inl, inr, List, [], ◌∷◌, Option, none,
  some, if◌then◌else◌, Text, Bool-cases, Option-cases, u64,
}
use unet.Base.Float.{Float64}
use unet.Lifecycle.Reconnect.{
  phase_failed, ReconnectState, zero_state, Remote, base_delay, jitter, schedule_next, fail,
  execute,
}

abbrev is_none : Option Text → Bool
is_none none = true
is_none (some _) = false

-- Every step succeeds.
unfoldable pub is_up : Remote → Bool
is_up r =
    is_none r.session
    && is_none r.docker
    && is_none r.listing
    && r.has_net_pause
    && r.has_amnezia_awg
    && r.has_caddy

module _ (large : ℕ → ℕ) (fl : Float64) where
  -- A failure after the beginning of an attempt: it counts, and the next one is due.
  pub record IsFailure (drawn now : ℕ) (s t : ReconnectState) : Type 0 where
    pub counted : t.attempt_count ≡ s.attempt_count + 1
    pub phase : t.phase ≡ phase_failed
    pub delay : t.current_delay ≡ jitter large fl drawn (base_delay large (s.attempt_count + 1))
    pub due : t.next_attempt_at ≡ u64 (now + t.current_delay)

  abbrev Ends : ℕ → Remote → ReconnectState → Type 0
  Ends now r s =
      ((is_up r ≡ true)
        × ((execute large fl now r s).0 ≡ zero_state)
        × ((execute large fl now r s).2 ≡ true))
      ⊎ ((is_up r ≡ false)
          × IsFailure r.drawn now s (execute large fl now r s).0
          × ((execute large fl now r s).2 ≡ false))

  fail-IsFailure :
      (message : Text) (drawn now : ℕ) (s t : ReconnectState)
      → t.attempt_count ≡ s.attempt_count + 1
      → IsFailure drawn now s (fail large fl message drawn now t)
  unfolding fail schedule_next
  fail-IsFailure message drawn now s t e = record {
    counted = e;
    phase = refl;
    delay = ap (λ n. jitter large fl drawn (base_delay large n)) e;
    due = refl;
  }

  execute-Ends : (now : ℕ) (r : Remote) (s : ReconnectState) → Ends now r s
  unfolding execute is_up
  execute-Ends now r s = elim (Option-cases r.session) [
    | inr (m, e) ↦ inr (
      simp (e, is_up) refl,
      simp (e, execute) (fail-IsFailure _ r.drawn now s _ refl),
      simp (e, execute) refl,
    )
    | inl e ↦ elim (Option-cases r.docker) [
      | inr (m, f) ↦ inr (
        simp (e, f, is_up) refl,
        simp (e, f, execute) (fail-IsFailure _ r.drawn now s _ refl),
        simp (e, f, execute) refl,
      )
      | inl f ↦ elim (Option-cases r.listing) [
        | inr (m, g) ↦ inr (
          simp (e, f, g, is_up) refl,
          simp (e, f, g, execute) (fail-IsFailure _ r.drawn now s _ refl),
          simp (e, f, g, execute) refl,
        )
        | inl g ↦ elim (Bool-cases r.has_net_pause) [
          | inr a ↦ inr (
            simp (e, f, g, a, is_up) refl,
            simp (e, f, g, a, execute) (fail-IsFailure _ r.drawn now s _ refl),
            simp (e, f, g, a, execute) refl,
          )
          | inl a ↦ elim (Bool-cases r.has_amnezia_awg) [
            | inr b ↦ inr (
              simp (e, f, g, a, b, is_up) refl,
              simp (e, f, g, a, b, execute) (fail-IsFailure _ r.drawn now s _ refl),
              simp (e, f, g, a, b, execute) refl,
            )
            | inl b ↦ elim (Bool-cases r.has_caddy) [
              | inr c ↦ inr (
                simp (e, f, g, a, b, c, is_up) refl,
                simp (e, f, g, a, b, c, execute) (fail-IsFailure _ r.drawn now s _ refl),
                simp (e, f, g, a, b, c, execute) refl,
              )
              | inl c ↦ inl (
                simp (e, f, g, a, b, c, is_up) refl,
                simp (e, f, g, a, b, c, execute) refl,
                simp (e, f, g, a, b, c, execute) refl,
              )
            ]
          ]
        ]
      ]
    ]
  ]

  -- After `n` failures since the last success: the count, and the delay that it calls for, with the
  -- jitter of the number that was drawn last.
  pub record IsAfter (n drawn : ℕ) (s : ReconnectState) : Type 0 where
    pub counted : s.attempt_count ≡ n
    pub waiting :
        ((n ≡ 0) × (s ≡ zero_state))
        ⊎ ((s.phase ≡ phase_failed)
            × (s.current_delay ≡ jitter large fl drawn (base_delay large n)))

  unfoldable pub run_attempts : List (ℕ × Remote) → ReconnectState → ReconnectState
  run_attempts [] s = s
  run_attempts ((now, r) ∷ rs) s = run_attempts rs (execute large fl now r s).0

  -- The failures at the end of a history.
  unfoldable pub failures : ℕ → List (ℕ × Remote) → ℕ
  failures n [] = n
  failures n ((now, r) ∷ rs) = failures (if is_up r then 0 else n + 1) rs

  -- The number that the last attempt of a history draws if it fails.
  unfoldable pub last_drawn : ℕ → List (ℕ × Remote) → ℕ
  last_drawn drawn [] = drawn
  last_drawn drawn ((now, r) ∷ rs) = last_drawn r.drawn rs

  execute-IsAfter :
      (now : ℕ) (r : Remote) (s : ReconnectState) (n drawn : ℕ)
      → IsAfter n drawn s
      → IsAfter (if is_up r then 0 else n + 1) r.drawn (execute large fl now r s).0
  execute-IsAfter now r s n drawn h = elim (execute-Ends now r s) [
    | inl (u, e, _) ↦ rw (u, e) (record { counted = refl; waiting = inl (refl, refl) })
    | inr (u, f, _) ↦
        let count : s.attempt_count + 1 ≡ n + 1 = ap (λ k. k + 1) h.counted in
        rw u (record {
          counted = f.counted ∙ count;
          waiting =
              inr (f.phase, f.delay ∙ ap (λ k. jitter large fl r.drawn (base_delay large k)) count);
        })
  ]

  run_attempts-IsAfter_from :
      (rs : List (ℕ × Remote)) (s : ReconnectState) (n drawn : ℕ)
      → IsAfter n drawn s
      → IsAfter (failures n rs) (last_drawn drawn rs) (run_attempts rs s)
  unfolding failures last_drawn run_attempts
  run_attempts-IsAfter_from [] s n drawn h = h
  run_attempts-IsAfter_from ((now, r) ∷ rs) s n drawn h =
      run_attempts-IsAfter_from rs (execute large fl now r s).0 (if is_up r then 0 else n + 1)
        r.drawn (execute-IsAfter now r s n drawn h)

  -- After any attempts from the zero state, the count is the number of failures since the last
  -- success; if there are any, the phase is failed and the delay is what that count calls for,
  -- with the jitter of the number that the last attempt drew; and if there are none, the state is
  -- the zero state.
  pub run_attempts-IsAfter :
      (rs : List (ℕ × Remote))
      → IsAfter (failures 0 rs) (last_drawn 0 rs) (run_attempts rs zero_state)
  run_attempts-IsAfter rs =
      run_attempts-IsAfter_from rs zero_state 0 0
        (record { counted = refl; waiting = inl (refl, refl) })
