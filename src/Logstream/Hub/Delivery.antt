-- ===== src/Logstream/Hub/Delivery.antt =====
-- What reaches a subscriber.
use mathlib.Core.List.{append-nil, append_assoc}
use native.Mathlib.Decide.{dec_lt}
use unet.Base.{
  if◌then◌else◌, inl, inr, Bool-cases, Option-cases, All, lt→ltb, le→ltb, ℕ, ◌+◌, ◌-◌, ◌^◌, ◌≤◌,
  ◌<◌, ◌≡◌, refl, sym, ap, true, false, List, [], ◌∷◌, ◌++◌, map, Option, none, some, arith, length,
  drop, Text, u64, length-append, length-drop, drop-drop, drop-append_left,
}
use unet.Logstream.Ring.{LogRecord, since}
use unet.Logstream.Hub.{Subscriber, Hub, matches, send, offer, fan, fanout, offer_all, replay}

-- The last `n` of a list.
abbrev pub newest {ℓ} : {A : Type ℓ} → ℕ → List A → List A
newest n q = drop (length q - n) q

-- An open channel that holds no more than it may.
pub record IsOpen (s : Subscriber) : Type 0 where
  pub live : s.closed ≡ false
  pub roomy : 0 < s.capacity
  pub bounded : length s.ch ≤ s.capacity

pub newest_append {ℓ} :
    {A : Type ℓ} (n : ℕ) (q r : List A) → newest n (newest n q ++ r) ≡ newest n (q ++ r)
newest_append n q r =
    let k = length q - n in
    let cut : k ≤ length q = omega arith in
    let joined = drop-append_left k q r cut in
    let e : k + (length (drop k (q ++ r)) - n) ≡ length (q ++ r) - n =
      omega (arith, length-drop k (q ++ r), length-append q r) in
    rw (← joined, drop-drop k (length (drop k (q ++ r)) - n) (q ++ r), e) refl

-- A send to an open subscriber always succeeds, and slides the window of the newest events.
pub send-newest :
    (s : Subscriber) (event : Text)
    → IsOpen s
    → send s event ≡ (record s { ch = newest s.capacity (s.ch ++ event ∷ []) }, true)
unfolding send
send-newest s event o = elim (dec_lt (length s.ch) s.capacity) [
  | yes p ↦
      let e : length (s.ch ++ event ∷ []) - s.capacity ≡ 0 =
        omega (arith, length-append s.ch (event ∷ [])) in
      rw (o.live, lt→ltb _ _ p, e) refl
  | no p ↦
      let e : length (s.ch ++ event ∷ []) - s.capacity ≡ 1 =
        omega (arith, length-append s.ch (event ∷ [])) in
      rw
        (
          o.live,
          le→ltb (length s.ch) s.capacity (omega arith),
          lt→ltb (length (drop 1 s.ch)) s.capacity (omega (arith, length-drop 1 s.ch)),
          e,
          drop-append_left 1 s.ch (event ∷ []) (omega arith),
        )
        refl
]

newest_all : (s : Subscriber) → IsOpen s → record s { ch = newest s.capacity (s.ch ++ []) } ≡ s
newest_all s o = let e : length s.ch - s.capacity ≡ 0 = omega arith in rw (append-nil s.ch, e) refl

module _ (marshal : LogRecord → Option Text) where
  -- The event that a subscriber wants of a record, if any.
  pick : Subscriber → LogRecord → List Text
  pick s rec = elim (marshal rec) [
    | none ↦ []
    | some event ↦ if matches s rec then event ∷ [] else []
  ]

  -- The events that a subscriber wants of some records.
  unfoldable pub wanted : Subscriber → List LogRecord → List Text
  unfolding pick
  wanted s [] = []
  wanted s (rec ∷ recs) = pick s rec ++ wanted s recs

  pub wanted-ch :
      (s : Subscriber) (q : List Text) (recs : List LogRecord)
      → wanted (record s { ch = q }) recs ≡ wanted s recs
  unfolding wanted matches
  wanted-ch s q [] = refl
  wanted-ch s q (rec ∷ recs) = ap (◌++◌ (pick s rec)) (wanted-ch s q recs)

  -- A subscriber's channel after it was offered records: the newest of what it held and wanted.
  abbrev pub served : Subscriber → List LogRecord → Subscriber
  served s recs = record s { ch = newest s.capacity (s.ch ++ wanted s recs) }

  -- What one record adds.
  offer-served :
      (rec : LogRecord) (s : Subscriber) → IsOpen s → offer marshal rec s ≡ served s (rec ∷ [])
  unfolding offer wanted
  offer-served rec s o = elim (Option-cases (marshal rec)) [
    | inl e ↦ rw (e, offer, pick) (sym (newest_all s o))
    | inr (event, e) ↦ elim (Bool-cases (matches s rec)) [
      | inl m ↦ rw (e, m, send-newest s event o, offer, pick) refl
      | inr m ↦ rw (e, m, offer, pick) (sym (newest_all s o))
    ]
  ]

  pub served-IsOpen : (s : Subscriber) (recs : List LogRecord) → IsOpen s → IsOpen (served s recs)
  served-IsOpen s recs o =
      let all = s.ch ++ wanted s recs in
      record {
        live = o.live;
        roomy = o.roomy;
        bounded = omega (arith, length-drop (length all - s.capacity) all);
      }

  wanted-cons :
      (s : Subscriber) (rec : LogRecord) (recs : List LogRecord)
      → wanted s (rec ∷ recs) ≡ wanted s (rec ∷ []) ++ wanted s recs
  unfolding wanted
  wanted-cons s rec recs = rw (append-nil (pick s rec)) refl

  pub offer_all-served :
      (recs : List LogRecord) (s : Subscriber) → IsOpen s → offer_all marshal recs s ≡ served s recs
  unfolding offer_all
  offer_all-served [] s o = unfold wanted in sym (newest_all s o)
  offer_all-served (rec ∷ recs) s o =
      rw
        (
          offer-served rec s o,
          offer_all-served recs (served s (rec ∷ [])) (served-IsOpen s (rec ∷ []) o),
          wanted-ch s _ recs,
          newest_append s.capacity (s.ch ++ wanted s (rec ∷ [])) (wanted s recs),
          wanted-cons s rec recs,
          append_assoc s.ch (wanted s (rec ∷ [])) (wanted s recs),
        )
        refl

  -- The two loops of `fanout` serve each subscriber as the loop of `Replay` would.
  fan-offer_all :
      (recs : List LogRecord) (subs : List Subscriber)
      → fan marshal recs subs ≡ map (offer_all marshal recs) subs
  unfolding fan offer_all
  fan-offer_all [] [] = refl
  fan-offer_all [] (s ∷ subs) = ap (◌∷◌ s) (fan-offer_all [] subs)
  fan-offer_all (rec ∷ recs) subs =
      rw (fan-offer_all recs (map (offer marshal rec) subs)) (map_twice subs)
    where
      map_twice :
          (ts : List Subscriber)
          → map (offer_all marshal recs) (map (offer marshal rec) ts)
            ≡ map (offer_all marshal (rec ∷ recs)) ts
      map_twice [] = refl
      map_twice (t ∷ ts) = ap (◌∷◌ (offer_all marshal (rec ∷ recs) t)) (map_twice ts)

  map-served :
      (recs : List LogRecord) (subs : List Subscriber)
      → All IsOpen subs
      → map (offer_all marshal recs) subs ≡ map (λ s. served s recs) subs
  map-served recs [] o = refl
  map-served recs (s ∷ subs) o = rw (offer_all-served recs s o.0, map-served recs subs o.1) refl

  -- If every subscriber's channel is open and within its capacity, a fan-out leaves in each the
  -- newest events of what it held, followed by the records from `seq` on that the subscriber's
  -- filters let through, in the order of the log. Nothing else of the hub changes.
  pub fanout-served :
      (h : Hub) (seq : ℕ) (recs : List LogRecord)
      → All IsOpen h.subscribers
      → since h.ring (u64 (seq + (2 ^ 64 - 1))) ≡ some recs
      → fanout marshal h seq
        ≡ some (record h { subscribers = map (λ s. served s recs) h.subscribers })
  unfolding fanout
  fanout-served h seq recs o e =
      rw (e, fan-offer_all recs h.subscribers, map-served recs h.subscribers o, fanout) refl

  -- A replay to an open subscriber appends, in order, the wanted records after the number that
  -- the client has seen, and the channel keeps the newest.
  pub replay-served :
      (h : Hub) (s : Subscriber) (after : ℕ) (recs : List LogRecord)
      → IsOpen s
      → since h.ring after ≡ some recs
      → replay marshal h s after ≡ some (served s recs)
  unfolding replay
  replay-served h s after recs o e = rw (e, offer_all-served recs s o, replay) refl
