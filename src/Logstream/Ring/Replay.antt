-- ===== src/Logstream/Ring/Replay.antt =====
-- `Since`, the replay after a sequence number, and `Len`.
use native.Mathlib.Decide.{dec_lt}
use unet.Base.{
  sym, ◌∙◌, ap, min, ℕ, zero, suc, ◌+◌, ◌-◌, ◌^◌, ◌≤◌, ◌<◌, max, ◌≡◌, refl, List, [], ◌∷◌, some,
  arith, length, keep, drop, lt_i64, Bool, subst, drop-eq-cons, drop_all, get_elem?_lt, length-drop,
  drop-drop,
}
use unet.Base.Int.{ℤ}
use unet.Logstream.Ring.{
  LogRecord, Ring, capacity_of, new_ring, snapshot, since_from, since, len, write_all,
}
use unet.Logstream.Ring.History.{
  Tracks, number, snapshot-drop, length-number, new_ring-write_all-Tracks, cap-write_all,
}

abbrev newer : ℕ → LogRecord → Bool
newer after rec = lt_i64 after rec.seq

since_from-keep :
    (r : Ring) (h : List LogRecord) (after : ℕ)
    → Tracks r h
    → (k i : ℕ) → i + k ≡ length h
    → length h ≤ i + r.cap
    → since_from r after i k ≡ some (keep (newer after) (drop i h))
unfolding since_from
since_from-keep r h after t zero i e c = rw (drop_all i h (omega arith)) refl
since_from-keep r h after t (suc k) i e c =
    let (x, found) = get_elem?_lt h i (omega arith) in
    rw (
      t.window i (omega arith) c,
      found,
      since_from-keep r h after t k (i + 1) (omega arith) (omega arith),
      drop-eq-cons h i x found,
    )

-- `Since` filters what a snapshot shows.
since-keep :
    (r : Ring) (h : List LogRecord) (after : ℕ)
    → Tracks r h
    → since r after ≡ some (keep (newer after) (drop (length h - r.cap) h))
unfolding since
since-keep r h after t = ground (
  arith,
  t.counted,
  drop_all (length h - r.cap) h,
  since_from-keep r h after t r.cap (length h - r.cap),
  since_from-keep r h after t (length h) 0,
)

drop-number :
    (i n : ℕ) (recs : List LogRecord) → drop i (number n recs) ≡ number (n + i) (drop i recs)
unfolding number
drop-number zero n recs = ground arith
drop-number (suc i) n [] = refl
drop-number (suc i) n (rec ∷ recs) =
    subst (λ j. drop i (number (n + 1) recs) ≡ number j (drop i recs)) (omega arith)
      (drop-number i (n + 1) recs)

-- Of consecutive numbers the ones above `k` are a suffix.
keep-number :
    (k n : ℕ) (recs : List LogRecord)
    → k < 2 ^ 63
    → n + length recs < 2 ^ 63
    → keep (newer k) (number n recs) ≡ drop (k - n) (number n recs)
unfolding number
keep-number k n [] hk hn = rw (drop_all {A = LogRecord} (k - n) [] (omega arith)) refl
keep-number k n (rec ∷ recs) hk hn = elim (dec_lt n k) [
  | yes p ↦
      let e : k - n ≡ suc (k - (n + 1)) = omega arith in
      rw e (ground (arith, keep-number k (n + 1) recs hk (omega arith)))
  | no p ↦
      let e : k - n ≡ 0 = omega arith in
      let e' : k - (n + 1) ≡ 0 = omega arith in
      rw e (ground (arith, e', keep-number k (n + 1) recs hk (omega arith)))
]

keep_window :
    (k : ℕ) (recs : List LogRecord)
    → length recs < 2 ^ 63
    → k < 2 ^ 63
    → (old : ℕ) → old ≤ length recs
    → keep (newer k) (drop old (number 0 recs)) ≡ drop (max k old) (number 0 recs)
keep_window k recs small hk old fits =
    let left = drop-number old 0 recs in
    let e : old + (k - (0 + old)) ≡ max k old = omega arith in
    rw
      (
        left,
        keep-number k (0 + old) (drop old recs) hk (omega (arith, length-drop old recs)),
        ← left,
        drop-drop old (k - (0 + old)) (number 0 recs),
        e,
      )
      refl

len-min : (r : Ring) → r.total < 2 ^ 63 → r.cap < 2 ^ 63 → len r ≡ min r.total r.cap
unfolding len
len-min r a b = ground arith

-- After fewer than 2^63 writes, a client that has seen everything up to number `k`, below 2^63,
-- gets, in order, every later record that the ring still holds, and no other.
pub since-write_all :
    (capacity : ℤ) (recs : List LogRecord) (k : ℕ)
    → length recs < 2 ^ 63
    → k < 2 ^ 63
    → since (write_all (new_ring capacity) recs) k
      ≡ some (drop (max k (length recs - capacity_of capacity)) (number 0 recs))
unfolding new_ring
since-write_all capacity recs k small hk =
    let old = length recs - capacity_of capacity in
    let r = write_all (new_ring capacity) recs in
    let h = number 0 recs in
    let t = new_ring-write_all-Tracks capacity recs small in
    rw (since-keep r h k t, length-number 0 recs, cap-write_all (new_ring capacity) recs)
      (ap some (keep_window k recs small hk old (omega arith)))

-- After fewer than 2^63 writes to a new ring of fewer than 2^63 slots, Len is the number of
-- records that a snapshot shows.
pub len-snapshot :
    (capacity : ℤ) (recs s : List LogRecord)
    → length recs < 2 ^ 63
    → capacity_of capacity < 2 ^ 63
    → snapshot (write_all (new_ring capacity) recs) ≡ some s
    → len (write_all (new_ring capacity) recs) ≡ length s
unfolding new_ring
len-snapshot capacity recs s small hc e =
    let r = write_all (new_ring capacity) recs in
    let h = number 0 recs in
    let t = new_ring-write_all-Tracks capacity recs small in
    let shown : some (drop (length h - r.cap) h) ≡ some s = sym (snapshot-drop r h t) ∙ e in
    let shown' : drop (length h - r.cap) h ≡ s = cc shown in
    omega (
      arith,
      len-min r,
      t.counted,
      ap length shown',
      length-drop (length h - r.cap) h,
      length-number 0 recs,
      cap-write_all (new_ring capacity) recs,
    )
