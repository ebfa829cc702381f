-- ===== src/Logstream/Ring.antt =====
-- src/internal/logstream/ring.go: a bounded buffer of log records. Counters are 64-bit patterns,
-- and an index out of range is a fault (`none`).
pub mod History
pub mod Replay
use unet.Base.{
  ℕ, zero, suc, ◌+◌, ◌-◌, ◌%◌, ◌^◌, Bool, List, [], ◌∷◌, Option, none, some, ltb, ◌==◌,
  if◌then◌else◌, get_elem?, set, replicate, Text, u64, lt_i64,
}
use unet.Base.Int.{ℤ, pos, ltb_ℤ}
use unet.Base.Map.{Map}

pub record LogRecord : Type 0 where
  pub ts : Text
  pub level : Text
  pub component : Text
  pub source : Text
  pub msg : Text
  pub seq : ℕ  -- int64
  pub fields : Map Text  -- each value by its JSON text

abbrev pub blank : LogRecord
blank = record { ts = []; level = []; component = []; source = []; msg = []; seq = 0; fields = [] }

pub record Ring : Type 0 where
  pub records : List LogRecord
  pub cap : ℕ  -- uint64
  pub write_idx : ℕ  -- uint64
  pub total : ℕ  -- int64
  pub seq : ℕ  -- int64

-- The capacity that `NewRing` settles on.
abbrev pub capacity_of : ℤ → ℕ
capacity_of (pos zero) = 200
capacity_of (pos (suc n)) = suc n
capacity_of _ = 200

unfoldable pub new_ring : ℤ → Ring
new_ring capacity = record {
  records = replicate (capacity_of capacity) blank;
  cap = capacity_of capacity;
  write_idx = 0;
  total = 0;
  seq = 0;
}

-- `Write`. The slot is `writeIdx.Add(1) - 1`, in uint64.
unfoldable pub write : Ring → LogRecord → Ring × ℕ
write r rec =
    let next = u64 (r.seq + 1) in
    let idx = u64 (u64 (r.write_idx + 1) + (2 ^ 64 - 1)) in
    (
      record r {
        records = set r.records (idx % r.cap) (record rec { seq = next });
        write_idx = u64 (r.write_idx + 1);
        total = u64 (r.total + 1);
        seq = next;
      },
      next,
    )

unfoldable pub next_seq : Ring → ℕ
next_seq r = u64 (r.seq + 1)

infixl 5 ◌>>=◌
abbrev ◌>>=◌ {ℓ κ} : {A : Type ℓ} {B : Type κ} → Option A → (A → Option B) → Option B
none >>= f = none
some a >>= f = f a

-- The loop of `Snapshot` over `k` slots from index `i`.
unfoldable pub collect : Ring → ℕ → ℕ → Option (List LogRecord)
collect r i zero = some []
collect r i (suc k) = do
  rec ← get_elem? r.records (i % r.cap)
  rest ← collect r (i + 1) k
  some (rec ∷ rest)

unfoldable pub snapshot : Ring → Option (List LogRecord)
snapshot r =
    let count = if ltb r.cap r.total then r.cap else r.total in
    if r.total == 0 then some [] else collect r (r.total - count) count

-- The loop of `Since` over `k` slots from index `i`.
unfoldable pub since_from : Ring → ℕ → ℕ → ℕ → Option (List LogRecord)
since_from r after i zero = some []
since_from r after i (suc k) = do
  rec ← get_elem? r.records (i % r.cap)
  rest ← since_from r after (i + 1) k
  some (if lt_i64 after rec.seq then rec ∷ rest else rest)

unfoldable pub since : Ring → ℕ → Option (List LogRecord)
since r after =
    let start = if ltb r.cap r.total then r.total - r.cap else 0 in
    if r.total == 0 then some [] else since_from r after start (r.total - start)

-- `Len`: a negative total counts as none.
unfoldable pub len : Ring → ℕ
len r = if lt_i64 0 r.total then (if lt_i64 r.cap r.total then r.cap else r.total) else 0

-- A writer's records, in order.
unfoldable pub write_all : Ring → List LogRecord → Ring
write_all r [] = r
write_all r (rec ∷ recs) = write_all (write r rec).0 recs
