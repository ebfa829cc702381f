-- ===== src/Auth/Scope.antt =====
-- src/internal/auth/scope.go. A scope is any string; three of them mean something.
use unet.Base.{
  ℕ, ◌≤◌, ◌<◌, ◌≡◌, ◌↔◌, inl, inr, Bool, true, false, ◌||◌, arith, if◌then◌else◌, Text, codes,
  text_eq, text_eq_iff, Bool-cases,
}

abbrev pub Scope : Type 0
Scope = Text

abbrev pub scope_read : Scope
scope_read = codes "read"

abbrev pub scope_write : Scope
scope_write = codes "write"

abbrev pub scope_admin : Scope
scope_admin = codes "admin"

-- `s.Allows(required)`.
unfoldable pub allows : Scope → Scope → Bool
allows s required =
    if text_eq required scope_read
    then text_eq s scope_admin || text_eq s scope_write || text_eq s scope_read
    else if text_eq required scope_write
    then text_eq s scope_admin || text_eq s scope_write
    else if text_eq required scope_admin
    then text_eq s scope_admin
    else false

-- How much a scope grants: 0 for a string that is no scope.
unfoldable pub rank : Scope → ℕ
rank s =
    if text_eq s scope_admin
    then 3
    else if text_eq s scope_write
    then 2
    else if text_eq s scope_read
    then 1
    else 0

-- Every string is one of the scopes, or passes none of the tests.
data Kind (s : Scope) : Type 0 where
  read : s ≡ scope_read → Kind s
  write : s ≡ scope_write → Kind s
  admin : s ≡ scope_admin → Kind s
  other :
      text_eq s scope_read ≡ false
      → text_eq s scope_write ≡ false
      → text_eq s scope_admin ≡ false
      → Kind s

kind : (s : Scope) → Kind s
kind s = elim (Bool-cases (text_eq s scope_read)) [
  | inl r ↦ read ((text_eq_iff s scope_read).0 r)
  | inr r ↦ elim (Bool-cases (text_eq s scope_write)) [
    | inl w ↦ write ((text_eq_iff s scope_write).0 w)
    | inr w ↦ elim (Bool-cases (text_eq s scope_admin)) [
      | inl a ↦ admin ((text_eq_iff s scope_admin).0 a)
      | inr a ↦ other r w a
    ]
  ]
]

rank-kind :
    (s r : Scope) → Kind s → Kind r → (allows s r ≡ true) ↔ ((0 < rank r) × (rank r ≤ rank s))
unfolding allows rank text_eq
rank-kind s r (read p) (read q) = rw (p, q) (ground arith)
rank-kind s r (read p) (write q) = rw (p, q) (ground arith)
rank-kind s r (read p) (admin q) = rw (p, q) (ground arith)
rank-kind s r (write p) (read q) = rw (p, q) (ground arith)
rank-kind s r (write p) (write q) = rw (p, q) (ground arith)
rank-kind s r (write p) (admin q) = rw (p, q) (ground arith)
rank-kind s r (admin p) (read q) = rw (p, q) (ground arith)
rank-kind s r (admin p) (write q) = rw (p, q) (ground arith)
rank-kind s r (admin p) (admin q) = rw (p, q) (ground arith)
rank-kind s r k (other a b c) = ground arith
rank-kind s r (other a b c) (read q) = rw q (ground arith)
rank-kind s r (other a b c) (write q) = rw q (ground arith)
rank-kind s r (other a b c) (admin q) = rw q (ground arith)

-- A scope allows another exactly when the other is one of the three and ranks no higher: admin
-- above write above read. A string that is no scope allows nothing and is never allowed.
pub allows-rank :
    (s required : Scope)
    → (allows s required ≡ true) ↔ ((0 < rank required) × (rank required ≤ rank s))
allows-rank s required = rank-kind s required (kind s) (kind required)
