-- ===== src/Logstream/Hub/Notifications.antt =====
-- Notifications that `Run` takes late.
use native.Mathlib.Nat.{add-zero, zero-add, le_refl}
use unet.Base.{
  subst, ℕ, suc, ◌+◌, ◌-◌, ◌^◌, ◌≤◌, ◌<◌, ◌≡◌, refl, ap, List, [], ◌∷◌, ◌++◌, Option, some, arith,
  length, drop, Text, u64, max, length-append, drop-length, drop-drop,
}
use unet.Base.Int.{ℤ}
use unet.Logstream.Ring.{LogRecord, Ring, capacity_of, new_ring, write_all, since}
use unet.Logstream.Ring.History.{stamp, number, length-number}
use unet.Logstream.Ring.Replay.{since-write_all}
use unet.Logstream.Hub.{Subscriber, Hub, run_once, turns}
use unet.Logstream.Hub.Delivery.{
  IsOpen, newest, wanted, served, fanout-served, newest_append, wanted-ch, served-IsOpen,
}

number-append :
    (n : ℕ) (xs ys : List LogRecord)
    → number n (xs ++ ys) ≡ number n xs ++ number (n + length xs) ys
unfolding number
number-append n [] ys = rw (add-zero n) refl
number-append n (x ∷ xs) ys =
    let e : n + 1 + length xs ≡ n + suc (length xs) = omega arith in
    ap (◌∷◌ (stamp x (n + 1))) (rw (number-append (n + 1) xs ys, e) refl)

module _ (marshal : LogRecord → Option Text) where
  -- One turn with a single open subscriber.
  run_once-served :
      (h : Hub) (s : Subscriber) (seq : ℕ) (rest : List ℕ) (recs : List LogRecord)
      → IsOpen s
      → h.subscribers ≡ s ∷ []
      → h.notify_ch ≡ seq ∷ rest
      → since h.ring (u64 (seq + (2 ^ 64 - 1))) ≡ some recs
      → run_once marshal h
        ≡ some (record h { subscribers = served marshal s recs ∷ []; notify_ch = rest })
  unfolding run_once
  run_once-served h s seq rest recs o subs queue e =
      rw (queue, run_once)
        (rw
          (fanout-served marshal (record h { notify_ch = rest }) seq recs (rw subs (o, tt)) e, subs)
          refl)

module _ (capacity : ℤ) (recs : List LogRecord) (x y : LogRecord) where
  abbrev pub n : ℕ
  n = length recs

  -- The log after two more writes.
  abbrev pub full : Ring
  full = write_all (new_ring capacity) (recs ++ x ∷ y ∷ [])

  abbrev pub first : LogRecord
  first = stamp x (n + 1)

  abbrev pub second : LogRecord
  second = stamp y (n + 2)

  number_all : number 0 (recs ++ x ∷ y ∷ []) ≡ number 0 recs ++ first ∷ second ∷ []
  unfolding number
  number_all =
      let e : n + 1 + 1 ≡ n + 2 = omega arith in
      rw (number-append 0 recs (x ∷ y ∷ []), zero-add n, e) refl

  drop-first : drop n (number 0 recs ++ first ∷ second ∷ []) ≡ first ∷ second ∷ []
  drop-first =
      let rest = first ∷ second ∷ [] in
      subst (λ k. drop k (number 0 recs ++ rest) ≡ rest) (length-number 0 recs)
        (drop-length (number 0 recs) rest)

  module _ (room : 2 ≤ capacity_of capacity) (small : n + 2 < 2 ^ 63) where
    since_at :
        (k : ℕ)
        → n ≤ k
        → k < 2 ^ 63
        → since full k ≡ some (drop k (number 0 recs ++ first ∷ second ∷ []))
    since_at k lo hi =
        let total = length-append recs (x ∷ y ∷ []) in
        let e : max k (length (recs ++ x ∷ y ∷ []) - capacity_of capacity) ≡ k =
          omega (arith, total) in
        rw
          (since-write_all capacity (recs ++ x ∷ y ∷ []) k (omega (arith, total)) hi, e, number_all)
          refl

    since-first : since full (u64 (n + 1 + (2 ^ 64 - 1))) ≡ some (first ∷ second ∷ [])
    since-first =
        let e : u64 (n + 1 + (2 ^ 64 - 1)) ≡ n = omega arith in
        rw (e, since_at n (le_refl n) (omega arith), drop-first) refl

    since-second : since full (u64 (n + 2 + (2 ^ 64 - 1))) ≡ some (second ∷ [])
    since-second =
        let e : u64 (n + 2 + (2 ^ 64 - 1)) ≡ n + 1 = omega arith in
        rw
          (
            e,
            since_at (n + 1) (omega arith) (omega arith),
            ← drop-drop n 1 (number 0 recs ++ first ∷ second ∷ []),
            drop-first,
          )
          refl

    module _ (marshal : LogRecord → Option Text) where
      -- Two writes to a ring with room for two are notified before Run takes either: the one open
      -- subscriber is offered the second record twice.
      pub turns_duplicate :
          (h : Hub) (s : Subscriber)
          → IsOpen s
          → h.ring ≡ full
          → h.subscribers ≡ s ∷ []
          → h.notify_ch ≡ (n + 1) ∷ (n + 2) ∷ []
          → turns marshal 2 h
            ≡ some (record h {
              subscribers =
                  record s {
                    ch = newest s.capacity (
                        s.ch
                        ++ wanted marshal s (first ∷ second ∷ [])
                        ++ wanted marshal s (second ∷ []));
                  }
                  ∷ [];
              notify_ch = [];
            })
      unfolding turns run_once
      turns_duplicate h s o ring subs queue =
          let s' = served marshal s (first ∷ second ∷ []) in
          let h' = record h { subscribers = s' ∷ []; notify_ch = (n + 2) ∷ [] } in
          let turn₁ =
            run_once-served marshal h s (n + 1) ((n + 2) ∷ []) (first ∷ second ∷ []) o subs queue
              (rw ring since-first) in
          let turn₂ =
            run_once-served marshal h' s' (n + 2) [] (second ∷ [])
              (served-IsOpen marshal s (first ∷ second ∷ []) o) refl refl (rw ring since-second) in
          rw (turn₁, turns, turn₂, turns)
            (rw
              (
                wanted-ch marshal s _ (second ∷ []),
                newest_append s.capacity (s.ch ++ wanted marshal s (first ∷ second ∷ []))
                    (wanted marshal s (second ∷ [])),
              )
              refl)
