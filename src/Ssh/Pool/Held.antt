-- ===== src/Ssh/Pool/Held.antt =====
-- What the steps of `Session` in src/internal/ssh/pool.go keep of the sessions that are open.
use unet.Base.{
  ℕ, suc, ◌==◌, ◌≡◌, refl, sym, ap, ◌∙◌, subst, inl, inr, Bool, true, false, not, List, [], ◌∷◌,
  Option, none, some, if◌then◌else◌, Bool-cases, Option-cases, arith, All, keep,
}
use unet.Ssh.Pool.{
  Answers, Pool, Result, Error, remove_one, ensure_client, close_client, new_session, close_session,
  reconnect, acquire, validate, connected,
}

abbrev pub of_client : Option ℕ → List ℕ
of_client none = []
of_client (some k) = k ∷ []

unfoldable pub has : ℕ → List ℕ → Bool
has s [] = false
has s (j ∷ js) = if j == s then true else has s js

-- An open session is in the list, and on the connection of the pool.
abbrev pub IsHeld : List ℕ → Option ℕ → ℕ × ℕ → Type 0
IsHeld live client (s, k) = (has s live ≡ true) × (client ≡ some k)

pub All-keep :
    {P Q : ℕ × ℕ → Type 0} (f : ℕ × ℕ → Bool)
    → ((o : ℕ × ℕ) → f o ≡ true → P o → Q o)
    → (os : List (ℕ × ℕ)) → All P os
    → All Q (keep f os)
All-keep f g [] h = tt
All-keep f g (o ∷ os) (h, hs) = elim (Bool-cases (f o)) [
  | inl e ↦ rw e (g o e h, All-keep f g os hs)
  | inr e ↦ rw e (All-keep f g os hs)
]

All-map :
    {P Q : ℕ × ℕ → Type 0} → ((o : ℕ × ℕ) → P o → Q o) → (os : List (ℕ × ℕ)) → All P os → All Q os
All-map g [] h = tt
All-map g (o ∷ os) (h, hs) = (g o h, All-map g os hs)

pub All-none : (client : Option ℕ) (os : List (ℕ × ℕ)) → All (IsHeld [] client) os → os ≡ []
unfolding has
All-none client [] h = refl
All-none client (o ∷ os) (h, hs) = absurd (let q = h.0 in cc q)

pub has-other :
    (s k : ℕ) (live : List ℕ) → not (s == k) ≡ true → has s (k ∷ live) ≡ true → has s live ≡ true
unfolding has
has-other s k live n h = ground arith

pub has-remove_one :
    (s k : ℕ) (live : List ℕ)
    → not (s == k) ≡ true
    → has s live ≡ true
    → has s (remove_one k live) ≡ true
unfolding has remove_one
has-remove_one s k [] n h = cc h
has-remove_one s k (j ∷ js) n h = ground (arith, has-remove_one s k js n)

has-head : (s : ℕ) (live : List ℕ) → has s (s ∷ live) ≡ true
unfolding has
has-head s live = ground arith

has-tail : (s k : ℕ) (live : List ℕ) → has s live ≡ true → has s (k ∷ live) ≡ true
unfolding has
has-tail s k live h = ground arith

-- The pool `p` tracks what `before` does, and every open session is among those of `live`.
pub record Has (before : Pool) (live : List ℕ) (p : Pool) : Type 0 where
  pub tracked : p.sessions ≡ before.sessions
  pub phase : p.closed ≡ before.closed
  pub held : All (IsHeld live p.client) p.opened
  pub wired : p.connections ≡ of_client p.client

-- What a call that makes a session may leave: one more session open, or none.
abbrev pub Leaves : Pool → Pool × Result → Type 0
Leaves before (q, Result.ok s) = Has before (s ∷ before.sessions) q
Leaves before (q, Result.err e) = Has before before.sessions q

remove_one-head : (k : ℕ) (ks : List ℕ) → remove_one k (k ∷ ks) ≡ ks
unfolding remove_one
remove_one-head k ks = ground arith

module _ (before : Pool) (live : List ℕ) where
  ensure_client-Has :
      (b : Bool) (p : Pool) → Has before live p → Has before live (ensure_client b p).0
  unfolding ensure_client
  ensure_client-Has b p h = elim (Option-cases p.client) [
    | inr (k, e) ↦ simp (e, ensure_client) h
    | inl e ↦ ensured b e
  ]
    where
      ensured : (b : Bool) → p.client ≡ none → Has before live (ensure_client b p).0
      ensured true e =
          simp (e, ensure_client)
            record {
              tracked = h.tracked;
              phase = h.phase;
              held = All-map (λ o x. absurd (let q = sym e ∙ x.1 in cc q)) p.opened h.held;
              wired = ap (◌∷◌ p.next_id) (h.wired ∙ ap of_client e);
            }
      ensured false e = simp (e, ensure_client) h

  pub close_client-Has : (p : Pool) → Has before live p → Has before live (close_client p)
  unfolding close_client
  close_client-Has p h = elim (Option-cases p.client) [
    | inl e ↦ simp (e, close_client) h
    | inr (k, e) ↦
        simp (e, close_client)
          record {
            tracked = h.tracked;
            phase = h.phase;
            held =
                All-keep (λ o. not (o.1 == k))
                  (λ o f x. absurd (let q = sym e ∙ x.1 in ground (arith, q))) p.opened h.held;
            wired = ap (remove_one k) (h.wired ∙ ap of_client e) ∙ remove_one-head k [];
          }
  ]

  close_session-Has :
      (s : ℕ) (p : Pool) → Has before (s ∷ live) p → Has before live (close_session s p)
  unfolding close_session
  close_session-Has s p h = record {
    tracked = h.tracked;
    phase = h.phase;
    held =
        All-keep (λ o. not (o.0 == s)) (λ o f x. (has-other o.0 s live f x.0, x.1)) p.opened h.held;
    wired = h.wired;
  }

module _ (before : Pool) where
  abbrev base : List ℕ
  base = before.sessions

  new_session-Leaves : (b : Bool) (p : Pool) → Has before base p → Leaves before (new_session b p)
  unfolding new_session
  new_session-Leaves b p h = elim (Option-cases p.client) [
    | inl e ↦
        (let q : new_session b p ≡ (p, Result.err Error.new_session_failed) =
            simp (e, new_session) refl in
          subst (Leaves before) (sym q) h)
    | inr (k, e) ↦ opened b k e
  ]
    where
      opened : (b : Bool) (k : ℕ) → p.client ≡ some k → Leaves before (new_session b p)
      opened false k e =
          (let q : new_session false p ≡ (p, Result.err Error.new_session_failed) =
              simp (e, new_session) refl in
            subst (Leaves before) (sym q) h)
      opened true k e =
          let q : new_session true p ≡ (
            record p { opened = (p.next_id, k) ∷ p.opened; next_id = suc p.next_id },
            Result.ok p.next_id,
          ) =
            simp (e, new_session) refl in
          subst (Leaves before) (sym q) (record {
            tracked = h.tracked;
            phase = h.phase;
            held = (
              (has-head p.next_id base, e),
              All-map (λ o x. (has-tail o.0 p.next_id base x.0, x.1)) p.opened h.held,
            );
            wired = h.wired;
          })

  reconnect-Leaves : (d b : Bool) (p : Pool) → Has before base p → Leaves before (reconnect d b p)
  unfolding reconnect
  reconnect-Leaves d b p h =
      let kept =
        ensure_client-Has before base d (close_client p) (close_client-Has before base p h) in
      elim (Bool-cases ((ensure_client d (close_client p)).1)) [
        | inl e ↦
            rw (e, reconnect) (new_session-Leaves b ((ensure_client d (close_client p)).0) kept)
        | inr e ↦ rw (e, reconnect) kept
      ]

  pub acquire-Leaves : (a : Answers) (p : Pool) → Has before base p → Leaves before (acquire a p)
  unfolding acquire
  acquire-Leaves a p h =
      let kept = ensure_client-Has before base a.dial_first p h in
      elim (Bool-cases ((ensure_client a.dial_first p).1)) [
        | inr e ↦ rw (e, acquire) kept
        | inl e ↦ elim (Bool-cases a.open_first) [
          | inl o ↦
              rw (e, o, acquire) (new_session-Leaves true ((ensure_client a.dial_first p).0) kept)
          | inr o ↦
              rw (e, o, acquire)
                (reconnect-Leaves a.dial_again a.open_again ((ensure_client a.dial_first p).0) kept)
        ]
      ]

  revalidated-Leaves :
      (b : Bool) (q : Pool) (r : Result)
      → Leaves before (q, r)
      → Leaves before (elim r [
        | Result.err e ↦ (q, Result.err e)
        | Result.ok s ↦
            if b then (q, Result.ok s) else (close_session s q, Result.err Error.validation_failed)
      ])
  revalidated-Leaves b q (Result.err e) h = h
  revalidated-Leaves true q (Result.ok s) h = h
  revalidated-Leaves false q (Result.ok s) h = close_session-Has before base s q h

  validate-Leaves :
      (a : Answers) (s : ℕ) (p : Pool) → Has before (s ∷ base) p → Leaves before (validate a s p)
  unfolding validate
  validate-Leaves a s p h = elim (Bool-cases a.keepalive) [
    | inl e ↦ rw (e, validate) h
    | inr e ↦
        let (q, r) = reconnect a.dial_last a.open_last (close_session s p) in
        rw (e, validate)
          (revalidated-Leaves a.keepalive_last q r (
            reconnect-Leaves a.dial_last a.open_last (close_session s p)
              (close_session-Has before base s p h)))
  ]

  pub connected-Leaves :
      (a : Answers) (o : Pool × Result) → Leaves before o → Leaves before (connected a o)
  unfolding connected
  connected-Leaves a (p, Result.ok s) h = validate-Leaves a s p h
  connected-Leaves a (p, Result.err e) h = h
