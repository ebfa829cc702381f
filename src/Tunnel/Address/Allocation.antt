-- ===== src/Tunnel/Address/Allocation.antt =====
-- Which address `AllocateNextIP` of src/internal/tunnel/peer.go gives.
use unet.Base.{
  ℕ, zero, suc, ◌+◌, ◌≤◌, ◌<◌, ◌≡◌, ◌≢◌, refl, sym, ap, ◌∙◌, true, false, ◌⊎◌, inl, inr, List, [],
  ◌∷◌, ◌++◌, none, some, arith, Text, text_eq, text_eq_refl, All, Bool-cases,
}
use unet.Tunnel.Address.{
  PeerDumpEntry, Net, Allocated, no_free_ip, allocated, split_on, has_text, first_free, entry_ip,
  entry_ips, occupied_ips, allocate_next_ip,
}

-- Among `n` candidates from `i` on, the first that is free, with those before it taken; or none.
first_free-cases :
    (candidate : ℕ → Text) (occupied : List Text) (n i : ℕ)
    → ((first_free candidate occupied n i ≡ none)
        × ((j : ℕ) → i ≤ j → j < i + n → has_text (candidate j) occupied ≡ true))
      ⊎ ((k : ℕ) × (first_free candidate occupied n i ≡ some (candidate k))
          × (i ≤ k)
          × (k < i + n)
          × (has_text (candidate k) occupied ≡ false)
          × ((j : ℕ) → i ≤ j → j < k → has_text (candidate j) occupied ≡ true))
unfolding first_free
first_free-cases candidate occupied zero i = inl (refl, λ j a b. absurd (omega arith))
first_free-cases candidate occupied (suc n) i =
    elim (Bool-cases (has_text (candidate i) occupied)) [
      | inr f ↦
          inr
            (i, rw (f, first_free) refl, omega arith, omega arith, f, λ j a b. absurd (omega arith))
      | inl t ↦ elim (first_free-cases candidate occupied n (i + 1)) [
        | inl (e, h) ↦ inl (
          rw (t, first_free) e,
          λ j a b. elim (at_first j a) [ inl q ↦ rw q t | inr q ↦ h j q (omega arith) ],
        )
        | inr (k, e, a, b, f, h) ↦ inr (
          k,
          rw (t, first_free) e,
          omega arith,
          omega arith,
          f,
          λ j c d. elim (at_first j c) [ inl q ↦ rw q t | inr q ↦ h j q d ],
        )
      ]
    ]
  where
    at_first : (j : ℕ) → i ≤ j → (j ≡ i) ⊎ (i + 1 ≤ j)
    at_first j a = ground arith

has_text-append :
    (t : Text) (xs ys : List Text)
    → has_text t (xs ++ ys) ≡ false
    → (has_text t xs ≡ false) × (has_text t ys ≡ false)
unfolding has_text
has_text-append t [] ys h = (refl, h)
has_text-append t (x ∷ xs) ys h = elim (Bool-cases (text_eq x t)) [
  | inl e ↦ (let q = rw (e, has_text) at h in cc q)
  | inr e ↦ let (a, b) = has_text-append t xs ys (rw (e, has_text) at h) in (rw (e, has_text) a, b)
]

module _ (net : Net) where
  -- No entry of the list is the address.
  pub IsFree : Text → List PeerDumpEntry → Type 0
  IsFree ip peers = All (λ p. All (λ e. entry_ip net e ≢ ip) (split_on 44 p.allowed_ips)) peers

  entries-free :
      (ip : Text) (es : List Text)
      → text_eq ip [] ≡ false
      → has_text ip (entry_ips net es) ≡ false
      → All (λ e. entry_ip net e ≢ ip) es
  unfolding entry_ips has_text
  entries-free ip [] full h = tt
  entries-free ip (e ∷ es) full h = elim (Bool-cases (text_eq (entry_ip net e) [])) [
    | inl z ↦ (
      λ q. (let q' = sym (ap (λ x. text_eq x []) q) ∙ z in cc (q', full)),
      entries-free ip es full (rw (z, entry_ips) at h),
    )
    | inr z ↦ elim (Bool-cases (text_eq (entry_ip net e) ip)) [
      | inl y ↦ (let q = rw (z, entry_ips, y, has_text) at h in cc q)
      | inr y ↦ (
        λ q. (let q' = sym (ap (λ x. text_eq x ip) q) ∙ y in cc (q', text_eq_refl ip)),
        entries-free ip es full (rw (z, entry_ips, y, has_text) at h),
      )
    ]
  ]

  occupied-IsFree :
      (ip : Text) (ps : List PeerDumpEntry)
      → text_eq ip [] ≡ false
      → has_text ip (occupied_ips net ps) ≡ false
      → IsFree ip ps
  unfolding occupied_ips IsFree
  occupied-IsFree ip [] full h = tt
  occupied-IsFree ip (p ∷ ps) full h =
      let (a, b) =
        has_text-append ip (entry_ips net (split_on 44 p.allowed_ips)) (occupied_ips net ps) h in
      (entries-free ip (split_on 44 p.allowed_ips) full a, occupied-IsFree ip ps full b)

  -- What an allocation in a network gives.
  pub data Outcome (network : ℕ × ℕ × ℕ) (peers : List PeerDumpEntry) (o : Allocated) : Type 0 where
    lowest :
        (k : ℕ)
        → 2 ≤ k
        → k < 255
        → o ≡ allocated (net.show network k)
        → IsFree (net.show network k) peers
        → ((j : ℕ) → 2 ≤ j → j < k → has_text (net.show network j) (occupied_ips net peers) ≡ true)
        → Outcome network peers o
    full :
        o ≡ no_free_ip
        → ((j : ℕ)
            → 2 ≤ j
            → j < 255
            → has_text (net.show network j) (occupied_ips net peers) ≡ true)
        → Outcome network peers o

  -- In a network that is read, either the address allocated is the lowest from .2 to .254 that is
  -- not taken, and no entry of any peer's AllowedIPs is that address; or all of them are taken,
  -- and the allocation fails.
  pub allocate_next_ip-Outcome :
      (subnet : Text) (network : ℕ × ℕ × ℕ) (peers : List PeerDumpEntry)
      → net.parse_cidr subnet ≡ some (some network)
      → Outcome network peers (allocate_next_ip net subnet peers)
  unfolding allocate_next_ip
  allocate_next_ip-Outcome subnet network peers e =
      elim (first_free-cases (net.show network) (occupied_ips net peers) 253 2) [
        | inl (q, h) ↦ full (rw (e, q, allocate_next_ip) refl) h
        | inr (k, q, a, b, f, h) ↦
            lowest k a b (rw (e, q, allocate_next_ip) refl)
              (occupied-IsFree (net.show network k) peers (net.show_full network k) f) h
      ]
