-- ===== src/Ssh/Pool/Leaks.antt =====
-- Neither sessions nor connections leak from a pool, on any path of its methods.
use unet.Base.{
  ℕ, ◌==◌, ◌+◌, ◌≤◌, ◌<◌, ◌≡◌, refl, sym, ap, ◌∙◌, subst, inl, inr, true, false, not, ◌&&◌, List,
  [], ◌∷◌, Option, none, ltb, leb, length, Bool-cases, Option-cases, arith, All, keep,
}
use unet.Ssh.Pool.{
  Answers, Pool, Result, Error, new_pool, remove_one, close_client, close_session, acquire, track,
  connected, session, put, close_all, close, sweep, Call, session_call, put_call, close_call, tick,
  session_ends, idle_timeout, run_call, run_calls, max_sessions_per_host,
}
use unet.Ssh.Pool.Held.{
  of_client, IsHeld, All-keep, All-none, has-other, has-remove_one, Has, Leaves, close_client-Has,
  acquire-Leaves, connected-Leaves,
}

-- No session is open but one that the pool tracks and on its own connection, and no other connection
-- is. No more than three sessions are tracked, and of a closed pool nothing is open.
pub record IsSound (p : Pool) : Type 0 where
  pub no_leak : All (IsHeld p.sessions p.client) p.opened
  pub one_connection : p.connections ≡ of_client p.client
  pub bounded : length p.sessions ≤ max_sessions_per_host
  pub ended : p.closed ≡ true → (p.sessions ≡ []) × (p.client ≡ none) × (p.opened ≡ [])

Has-self : (p : Pool) → IsSound p → Has p p.sessions p
Has-self p h = record { tracked = refl; phase = refl; held = h.no_leak; wired = h.one_connection }

-- What `Session` does to a pool and returns, error by error.
pub data Returned (p : Pool) : Pool × Result → Type 0 where
  given :
      (q : Pool) (s : ℕ)
      → p.closed ≡ false
      → length p.sessions < max_sessions_per_host
      → q.closed ≡ false
      → q.sessions ≡ s ∷ p.sessions
      → All (IsHeld (s ∷ p.sessions) q.client) q.opened
      → q.connections ≡ of_client q.client
      → Returned p (q, Result.ok s)
  refused_closed : p.closed ≡ true → Returned p (p, Result.err Error.pool_closed)
  refused_full :
      length p.sessions ≡ max_sessions_per_host → Returned p (p, Result.err Error.pool_exhausted)
  failed :
      (q : Pool) (e : Error)
      → p.closed ≡ false
      → q.closed ≡ false
      → q.sessions ≡ p.sessions
      → All (IsHeld p.sessions q.client) q.opened
      → q.connections ≡ of_client q.client
      → Returned p (q, Result.err e)

track-Returned :
    (now : ℕ) (p : Pool) (o : Pool × Result)
    → p.closed ≡ false
    → length p.sessions < max_sessions_per_host
    → Leaves p o
    → Returned p (track now o)
unfolding track
track-Returned now p (q, Result.ok s) c l h =
    given _ s c l (h.phase ∙ c) (ap (◌∷◌ s) h.tracked) h.held h.wired
track-Returned now p (q, Result.err e) c l h = failed q e c (h.phase ∙ c) h.tracked h.held h.wired

-- Closing all that is tracked leaves nothing open.
close_all-opened :
    (client : Option ℕ) (ss : List ℕ) (p : Pool)
    → All (IsHeld ss client) p.opened
    → close_all ss p ≡ record p { opened = [] }
unfolding close_all close_session
close_all-opened client [] p h = ap (λ l. record p { opened = l }) (All-none client p.opened h)
close_all-opened client (s ∷ ss) p h =
    close_all-opened client ss (close_session s p)
      (All-keep (λ o. not (o.0 == s)) (λ o f x. (has-other o.0 s ss f x.0, x.1)) p.opened h)

session-closed :
    (a : Answers) (now : ℕ) (p : Pool)
    → p.closed ≡ true
    → session a now p ≡ (p, Result.err Error.pool_closed)
unfolding session
session-closed a now p c = simp (c, session)

session-full :
    (a : Answers) (now : ℕ) (p : Pool)
    → p.closed ≡ false
    → leb max_sessions_per_host (length p.sessions) ≡ true
    → session a now p ≡ (p, Result.err Error.pool_exhausted)
unfolding session
session-full a now p c l = simp (c, l, session)

session-tried :
    (a : Answers) (now : ℕ) (p : Pool)
    → p.closed ≡ false
    → leb max_sessions_per_host (length p.sessions) ≡ false
    → session a now p ≡ track now (connected a (acquire a p))
unfolding session
session-tried a now p c l = simp (c, l, session)

close-shut :
    (p : Pool)
    → p.closed ≡ false
    → close p ≡ close_client (record (close_all p.sessions p) { closed = true; sessions = [] })
unfolding close
close-shut p c = simp (c, close)

close-open :
    (p : Pool)
    → p.closed ≡ false
    → All (IsHeld p.sessions p.client) p.opened
    → close p ≡ close_client (record p { opened = []; closed = true; sessions = [] })
close-open p c o =
    close-shut p c
    ∙ ap (λ (q : Pool). close_client (record q { closed = true; sessions = [] }))
        (close_all-opened p.client p.sessions p o)

close-closed : (p : Pool) → p.closed ≡ true → close p ≡ p
unfolding close
close-closed p c = simp (c, close)

-- From a sound pool, Session either hands out one session, which the pool then tracks with those
-- before, and this only if the pool is open and fewer than three are in use; or it refuses,
-- leaving the pool untouched, because the pool is closed or three sessions are in use; or the
-- network failed, and then no session has been added, and none that was opened on the way is
-- still open. One connection at most is open in every case.
pub session-Returned : (a : Answers) (now : ℕ) (p : Pool) → IsSound p → Returned p (session a now p)
unfolding session
session-Returned a now p h = elim (Bool-cases p.closed) [
  | inl c ↦ subst (λ o. Returned p o) (sym (session-closed a now p c)) (refused_closed c)
  | inr c ↦ elim (Bool-cases (leb max_sessions_per_host (length p.sessions))) [
    | inl l ↦
        subst (λ o. Returned p o) (sym (session-full a now p c l))
          (refused_full (let b = h.bounded in ground arith))
    | inr l ↦
        subst (λ o. Returned p o) (sym (session-tried a now p c l))
          (track-Returned now p (connected a (acquire a p)) c (ground arith)
            (connected-Leaves p a (acquire a p) (acquire-Leaves p a p (Has-self p h))))
  ]
]

Returned-IsSound : (p : Pool) (o : Pool × Result) → IsSound p → Returned p o → IsSound o.0
Returned-IsSound p o h (given q s c l c' t held w) = record {
  no_leak = subst (λ ss. All (IsHeld ss q.client) q.opened) (sym t) held;
  one_connection = w;
  bounded = subst (λ ss. length ss ≤ max_sessions_per_host) (sym t) (ground arith);
  ended = λ e. absurd (cc (e, c'));
}
Returned-IsSound p o h (refused_closed c) = h
Returned-IsSound p o h (refused_full l) = h
Returned-IsSound p o h (failed q e c c' t held w) = record {
  no_leak = subst (λ ss. All (IsHeld ss q.client) q.opened) (sym t) held;
  one_connection = w;
  bounded = subst (λ ss. length ss ≤ max_sessions_per_host) (sym t) h.bounded;
  ended = λ e'. absurd (cc (e', c'));
}

length-remove_one : (k : ℕ) (ks : List ℕ) → length (remove_one k ks) ≤ length ks
unfolding remove_one
length-remove_one k [] = ground arith
length-remove_one k (j ∷ js) = ground (arith, length-remove_one k js)

length-zero : (ks : List ℕ) → (length ks == 0) ≡ true → ks ≡ []
length-zero [] h = refl
length-zero (k ∷ ks) h = absurd (ground arith)

put-IsSound : (s : ℕ) (p : Pool) → IsSound p → IsSound (put s p)
unfolding put close_session remove_one
put-IsSound s p h = record {
  no_leak =
      All-keep (λ o. not (o.0 == s)) (λ o f x. (has-remove_one o.0 s p.sessions f x.0, x.1))
        p.opened h.no_leak;
  one_connection = h.one_connection;
  bounded = (let b = h.bounded in let l = length-remove_one s p.sessions in omega arith);
  ended = λ e. (
    ap (remove_one s) (h.ended e).0,
    (h.ended e).1,
    ap (keep (λ (o : ℕ × ℕ). not (o.0 == s))) (h.ended e).2,
  );
}

close_session-IsSound : (s : ℕ) (p : Pool) → IsSound p → IsSound (close_session s p)
unfolding close_session
close_session-IsSound s p h = record {
  no_leak = All-keep (λ o. not (o.0 == s)) (λ o f x. x) p.opened h.no_leak;
  one_connection = h.one_connection;
  bounded = h.bounded;
  ended =
      λ e. ((h.ended e).0, (h.ended e).1, ap (keep (λ (o : ℕ × ℕ). not (o.0 == s))) (h.ended e).2);
}

close_client-none : (p : Pool) → (close_client p).client ≡ none
unfolding close_client
close_client-none p = elim (Option-cases p.client) [
  | inl e ↦ rw (e, close_client) e
  | inr (k, e) ↦ rw (e, close_client) refl
]

-- Dropping the connection of a pool that nobody uses.
close_client-IsSound :
    (p : Pool)
    → p.sessions ≡ []
    → All (IsHeld [] p.client) p.opened
    → p.connections ≡ of_client p.client
    → IsSound (close_client p)
close_client-IsSound p e o w =
    let h = close_client-Has p [] p record { tracked = refl; phase = refl; held = o; wired = w } in
    record {
      no_leak =
          subst (λ ss. All (IsHeld ss (close_client p).client) (close_client p).opened)
            (sym (h.tracked ∙ e)) h.held;
      one_connection = h.wired;
      bounded =
          subst (λ ss. length ss ≤ max_sessions_per_host) (sym (h.tracked ∙ e)) (ground arith);
      ended = λ _. (
        h.tracked ∙ e,
        close_client-none p,
        All-none (close_client p).client (close_client p).opened h.held,
      );
    }

close-IsSound : (p : Pool) → IsSound p → IsSound (close p)
unfolding close
close-IsSound p h = elim (Bool-cases p.closed) [
  | inl c ↦ subst (λ q. IsSound q) (sym (close-closed p c)) h
  | inr c ↦
      subst (λ q. IsSound q) (sym (close-open p c h.no_leak))
        (close_client-IsSound (record p { opened = []; closed = true; sessions = [] }) refl tt
          h.one_connection)
]

sweep-IsSound : (now : ℕ) (p : Pool) → IsSound p → IsSound (sweep now p)
unfolding sweep
sweep-IsSound now p h = elim (Option-cases p.client) [
  | inl e ↦ rw (e, sweep) h
  | inr (k, e) ↦
      elim (Bool-cases
        (not p.closed && (length p.sessions == 0) && ltb (p.last_used + idle_timeout) now)) [
          | inr b ↦ rw (e, b, sweep) h
          | inl b ↦
              let empty = length-zero p.sessions (ground arith) in
              rw (e, b, sweep)
                (close_client-IsSound p empty
                  (subst (λ ss. All (IsHeld ss p.client) p.opened) empty h.no_leak)
                  h.one_connection)
        ]
]

new_pool-IsSound : (now : ℕ) → IsSound (new_pool now)
unfolding new_pool
new_pool-IsSound now = record {
  no_leak = tt;
  one_connection = refl;
  bounded = ground arith;
  ended = λ _. (refl, refl, refl);
}

run_call-IsSound : (c : Call) (p : Pool) → IsSound p → IsSound (run_call c p)
unfolding run_call
run_call-IsSound (session_call a now) p h =
    Returned-IsSound p (session a now p) h (session-Returned a now p h)
run_call-IsSound (put_call s) p h = put-IsSound s p h
run_call-IsSound close_call p h = close-IsSound p h
run_call-IsSound (tick now) p h = sweep-IsSound now p h
run_call-IsSound (session_ends s) p h = close_session-IsSound s p h

run_from : (cs : List Call) (p : Pool) → IsSound p → IsSound (run_calls cs p)
unfolding run_calls
run_from [] p h = h
run_from (c ∷ cs) p h = run_from cs (run_call c p) (run_call-IsSound c p h)

-- After any sequence of calls on a new pool, ticks of its sweeper and ends of sessions, whatever
-- the network answered: every session that is open is one that the pool tracks, and is open on
-- the pool's connection; three sessions at most are tracked; no connection is open but the pool's
-- own; and if the pool is closed, it tracks nothing and nothing is open at all.
pub run_calls-IsSound : (cs : List Call) (now : ℕ) → IsSound (run_calls cs (new_pool now))
run_calls-IsSound cs now = run_from cs (new_pool now) (new_pool-IsSound now)
