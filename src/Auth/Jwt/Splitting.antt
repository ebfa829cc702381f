-- ===== src/Auth/Jwt/Splitting.antt =====
-- `splitJWT` splits at the first two dots.
use mathlib.Core.List.{append-nil, append_assoc}
use unet.Base.{
  ◌≡◌, refl, ap, ◌∙◌, ◌≢◌, ◌⊎◌, inl, inr, false, List, [], ◌∷◌, ◌++◌, arith, ◌==◌, ==_iff, Text,
  All, Bool-cases,
}
use unet.Auth.Jwt.{dot, split_from, split_jwt}

abbrev pub NoDot : Text → Type 0
NoDot = All (λ c. c ≢ dot)

-- A dotless part is read up to the dot.
split_from-part :
    (parts : List Text) (cur p s : Text)
    → NoDot p
    → split_from parts cur (p ++ dot ∷ s) ≡ split_from parts (cur ++ p) (dot ∷ s)
unfolding split_from
split_from-part parts cur [] s n = rw (append-nil cur) refl
split_from-part parts cur (c ∷ p) s n =
    let e : (c == dot) ≡ false = ground (arith, n.0) in
    rw (e, split_from)
      (rw (← append_assoc cur (c ∷ []) p) (split_from-part parts (cur ++ c ∷ []) p s n.1))

-- Two dotless parts and any rest come back.
pub split_jwt-parts :
    (a b c : Text) → NoDot a → NoDot b → split_jwt ((a ++ dot ∷ b) ++ dot ∷ c) ≡ a ∷ b ∷ c ∷ []
unfolding split_jwt split_from
split_jwt-parts a b c na nb =
    rw (append_assoc a (dot ∷ b) (dot ∷ c), split_from-part [] [] a (b ++ dot ∷ c) na)
      (split_from-part (a ∷ []) [] b c nb)

-- One round of the loop: there is no dot, or it reads up to the next one.
next_dot :
    (parts : List Text) (cur s : Text)
    → (split_from parts cur s ≡ [])
      ⊎ ((p : Text) × (rest : Text) × (s ≡ p ++ dot ∷ rest)
          × NoDot p
          × (split_from parts cur s ≡ split_from parts (cur ++ p) (dot ∷ rest)))
unfolding split_from
next_dot parts cur [] = inl refl
next_dot parts cur (x ∷ s) = elim (Bool-cases (x == dot)) [
  | inl e ↦
      let here : x ≡ dot = (==_iff x dot).0 e in
      inr ([], s, ap (λ c. c ∷ s) here, tt, rw (here, append-nil cur) refl)
  | inr e ↦ elim (next_dot parts (cur ++ x ∷ []) s) [
    | inl none_left ↦ inl (rw (e, split_from) none_left)
    | inr (p, rest, q, plain, same) ↦
        let apart : x ≢ dot = ground arith in
        inr (
          x ∷ p,
          rest,
          ap (◌∷◌ x) q,
          (apart, plain),
          rw (e, split_from) (rw (← append_assoc cur (x ∷ []) p) same),
        )
  ]
]

-- What splitJWT returns: nothing, or three parts that make up the string with a dot between each
-- two, the first two dotless.
pub split_jwt-cases :
    (s : Text)
    → (split_jwt s ≡ [])
      ⊎ ((a : Text) × (b : Text) × (c : Text) × (split_jwt s ≡ a ∷ b ∷ c ∷ [])
          × (s ≡ (a ++ dot ∷ b) ++ dot ∷ c)
          × NoDot a
          × NoDot b)
unfolding split_jwt split_from
split_jwt-cases s = elim (next_dot [] [] s) [
  | inl nothing ↦ inl nothing
  | inr (a, rest, q, na, same) ↦ elim (next_dot (a ∷ []) [] rest) [
    | inl nothing ↦ inl (same ∙ nothing)
    | inr (b, c, q', nb, same') ↦
        inr (a, b, c, same ∙ same', rw (append_assoc a (dot ∷ b) (dot ∷ c), ← q') q, na, nb)
  ]
]
