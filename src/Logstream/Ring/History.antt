-- ===== src/Logstream/Ring/History.antt =====
-- The ring against the history of all that was written: it holds the newest records, in order.
use unet.Base.{
  ℕ, zero, suc, ◌+◌, ◌-◌, ◌%◌, ◌^◌, ◌≤◌, ◌<◌, ◌≡◌, refl, ap, ◌≢◌, List, [], ◌∷◌, ◌++◌, some, arith,
  length, get_elem?, set, drop, length-append, length-set, get_elem?-set_self, get_elem?-set_ne,
  get_elem?-append_left, get_elem?-append_end, length-replicate, u64, subst, drop-eq-cons, drop_all,
  get_elem?_lt,
}
use mathlib.Core.List.{append-nil, append_assoc}
use native.Mathlib.Decide.{dec_lt}
use unet.Base.Int.{ℤ, pos, negsuc}
use unet.Logstream.Ring.{
  LogRecord, Ring, capacity_of, new_ring, write, collect, snapshot, write_all,
}

-- `n` records were written, and the last `cap` of them stand in their slots.
pub record Tracks (r : Ring) (h : List LogRecord) : Type 0 where
  pub size : length r.records ≡ r.cap
  pub positive : 0 < r.cap
  pub counted : r.total ≡ length h
  pub indexed : r.write_idx ≡ length h
  pub numbered : r.seq ≡ length h
  pub window :
      (i : ℕ)
      → i < length h
      → length h ≤ i + r.cap
      → get_elem? r.records (i % r.cap) ≡ get_elem? h i

-- The record as `write` stores it.
abbrev pub stamp : LogRecord → ℕ → LogRecord
stamp rec n = record rec { seq = n }

capacity_of_pos : (c : ℤ) → 0 < capacity_of c
capacity_of_pos (pos zero) = omega arith
capacity_of_pos (pos (suc n)) = omega arith
capacity_of_pos (negsuc n) = omega arith

pub new_ring-Tracks : (c : ℤ) → Tracks (new_ring c) []
unfolding new_ring
new_ring-Tracks c = record {
  size = length-replicate (capacity_of c) _;
  positive = capacity_of_pos c;
  counted = refl;
  indexed = refl;
  numbered = refl;
  window = λ i h. elim h [ ];
}

-- Two indexes less than `c` apart use different slots.
slots_differ : (i n c : ℕ) → i < n → n < i + c → n % c ≢ i % c
slots_differ i n c lo hi e = grind arith

module _ (recs h : List LogRecord) (c : ℕ) (rec : LogRecord) where
  -- The window over `h` moves on by one when slot `length h % c` is overwritten.
  window_step :
      length recs ≡ c
      → 0 < c
      → ((i : ℕ) → i < length h → length h ≤ i + c → get_elem? recs (i % c) ≡ get_elem? h i)
      → (i : ℕ) → i < length h + 1
      → length h + 1 ≤ i + c
      → get_elem? (set recs (length h % c) rec) (i % c) ≡ get_elem? (h ++ rec ∷ []) i
  window_step size more w i lo hi = elim (dec_lt i (length h)) [
    | yes p ↦
        rw
          (
            get_elem?-set_ne recs (length h % c) (i % c) rec
                (slots_differ i (length h) c p (omega arith)),
            get_elem?-append_left h (rec ∷ []) i p,
          )
          (w i p (omega arith))
    | no p ↦
        let e : i ≡ length h = omega arith in
        rw (e, get_elem?-append_end h rec)
          (get_elem?-set_self recs (length h % c) rec (grind (arith, size)))
  ]

-- `writeIdx.Add(1) - 1` is the index before the addition.
slot : (n : ℕ) → n < 2 ^ 63 → u64 (u64 (n + 1) + (2 ^ 64 - 1)) ≡ n
slot n h = omega arith

-- With fewer than 2^63 records no counter wraps, and a write extends the history.
pub write-Tracks :
    (r : Ring) (rec : LogRecord) {h : List LogRecord}
    → Tracks r h
    → length h < 2 ^ 63
    → Tracks (write r rec).0 (h ++ stamp rec (length h + 1) ∷ [])
unfolding write
write-Tracks r rec {h} t small =
    let longer = length-append h (stamp rec (length h + 1) ∷ []) in
    let next : u64 (r.seq + 1) ≡ length h + 1 = omega (arith, t.numbered) in
    record {
      size = rw length-set t.size;
      positive = t.positive;
      counted = omega (arith, longer, t.counted);
      indexed = omega (arith, longer, t.indexed);
      numbered = omega (arith, longer, t.numbered);
      window = λ i lo hi.
          rw (t.indexed, slot (length h) small, next)
            (window_step r.records h r.cap (stamp rec (length h + 1)) t.size t.positive t.window i
              (omega (arith, longer)) (omega (arith, longer)));
    }

-- The records as they are numbered from `n + 1`.
unfoldable pub number : ℕ → List LogRecord → List LogRecord
number n [] = []
number n (rec ∷ recs) = stamp rec (n + 1) ∷ number (n + 1) recs

pub write_all-Tracks :
    (r : Ring) (h recs : List LogRecord)
    → Tracks r h
    → length h + length recs < 2 ^ 63
    → Tracks (write_all r recs) (h ++ number (length h) recs)
unfolding write_all number
write_all-Tracks r h [] t small = rw append-nil t
write_all-Tracks r h (rec ∷ recs) t small =
    let x = stamp rec (length h + 1) in
    let longer = length-append h (x ∷ []) in
    let more =
      write_all-Tracks (write r rec).0 (h ++ x ∷ []) recs (write-Tracks r rec t (omega arith))
        (omega (arith, longer)) in
    let n : length (h ++ x ∷ []) ≡ length h + 1 = omega (arith, longer) in
    subst (λ l. Tracks (write_all (write r rec).0 recs) l)
      (rw n (append_assoc h (x ∷ []) (number (length h + 1) recs))) more

-- The loop of `Snapshot` reads a suffix of the history.
collect-drop :
    (r : Ring) (h : List LogRecord)
    → Tracks r h
    → (k i : ℕ) → i + k ≡ length h
    → length h ≤ i + r.cap
    → collect r i k ≡ some (drop i h)
unfolding collect
collect-drop r h t zero i e c = rw (drop_all i h (omega arith)) refl
collect-drop r h t (suc k) i e c =
    let (x, found) = get_elem?_lt h i (omega arith) in
    rw (
      t.window i (omega arith) c,
      found,
      collect-drop r h t k (i + 1) (omega arith) (omega arith),
      drop-eq-cons h i x found,
    )

pub snapshot-drop :
    (r : Ring) (h : List LogRecord) → Tracks r h → snapshot r ≡ some (drop (length h - r.cap) h)
unfolding snapshot
snapshot-drop r h t = ground (
  arith,
  t.counted,
  drop_all (length h - r.cap) h,
  collect-drop r h t r.cap (length h - r.cap),
  collect-drop r h t (length h) 0,
)

pub cap-write_all : (r : Ring) (recs : List LogRecord) → (write_all r recs).cap ≡ r.cap
unfolding write_all write
cap-write_all r [] = refl
cap-write_all r (rec ∷ recs) = cap-write_all (write r rec).0 recs

pub length-number : (n : ℕ) (recs : List LogRecord) → length (number n recs) ≡ length recs
unfolding number
length-number n [] = refl
length-number n (rec ∷ recs) = ap suc (length-number (n + 1) recs)

-- What a new ring tracks after any writes that do not exhaust the counters.
pub new_ring-write_all-Tracks :
    (capacity : ℤ) (recs : List LogRecord)
    → length recs < 2 ^ 63
    → Tracks (write_all (new_ring capacity) recs) (number 0 recs)
new_ring-write_all-Tracks capacity recs small =
    write_all-Tracks (new_ring capacity) [] recs (new_ring-Tracks capacity) (omega arith)

-- After fewer than 2^63 writes to a new ring, a snapshot is the newest of them that fit its
-- capacity, oldest first, numbered from 1 in the order of writing; no index is ever out of range.
pub snapshot-write_all :
    (capacity : ℤ) (recs : List LogRecord)
    → length recs < 2 ^ 63
    → snapshot (write_all (new_ring capacity) recs)
      ≡ some (drop (length recs - capacity_of capacity) (number 0 recs))
unfolding new_ring
snapshot-write_all capacity recs small =
    let t = new_ring-write_all-Tracks capacity recs small in
    rw (snapshot-drop _ _ t, length-number 0 recs, cap-write_all (new_ring capacity) recs) refl
