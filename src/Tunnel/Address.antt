-- ===== src/Tunnel/Address.antt =====
-- `AllocateNextIP` of src/internal/tunnel/peer.go. The package net, which reads a network and
-- prints an address, and `strings.TrimSpace` are given; `strings.Split` is written out.
pub mod Allocation
use unet.Base.{
  ℕ, zero, suc, ◌+◌, ◌≡◌, Bool, true, false, not, ◌&&◌, ◌||◌, List, [], ◌∷◌, ◌++◌, Option, none,
  some, ◌==◌, if◌then◌else◌, Text, text_eq, map,
}

pub record PeerDumpEntry : Type 0 where
  pub public_key : Text
  pub preshared_key : Text
  pub endpoint : Text
  pub allowed_ips : Text
  pub last_handshake : Text
  pub rx_bytes : Text
  pub tx_bytes : Text
  pub persistent_keepalive : Text

-- `parse_cidr` is `none` for an error, `some none` for a network that is not IPv4, and otherwise
-- the first three bytes of the network. An address that is printed is not empty.
pub record Net : Type 0 where
  pub parse_cidr : Text → Option (Option (ℕ × ℕ × ℕ))
  pub show : ℕ × ℕ × ℕ → ℕ → Text
  pub trim_space : Text → Text
  pub show_full : (p : ℕ × ℕ × ℕ) (i : ℕ) → text_eq (show p i) [] ≡ false

pub data Allocated : Type 0 where
  bad_subnet not_ipv4 no_free_ip : Allocated
  allocated : Text → Allocated

abbrev onto_first : ℕ → List Text → List Text
onto_first c [] = (c ∷ []) ∷ []
onto_first c (w ∷ ws) = (c ∷ w) ∷ ws

-- `strings.Split` at a separator of one byte.
unfoldable pub split_on : ℕ → Text → List Text
split_on sep [] = [] ∷ []
split_on sep (c ∷ cs) =
    let rest = split_on sep cs in if c == sep then [] ∷ rest else onto_first c rest

-- `[0]` of a split, which is never empty.
abbrev pub first_of : List Text → Text
first_of [] = []
first_of (w ∷ ws) = w

unfoldable pub has_text : Text → List Text → Bool
has_text t [] = false
has_text t (s ∷ ss) = if text_eq s t then true else has_text t ss

-- The loop over the last byte: `n` candidates from `i` on.
unfoldable pub first_free : (ℕ → Text) → List Text → ℕ → ℕ → Option Text
first_free candidate occupied zero i = none
first_free candidate occupied (suc n) i =
    let rest = first_free candidate occupied n (i + 1) in
    if has_text (candidate i) occupied then rest else some (candidate i)

module _ (net : Net) where
  -- The address of one entry of `AllowedIPs`, a comma apart from the next and with a slash behind.
  unfoldable pub entry_ip : Text → Text
  entry_ip entry = net.trim_space (first_of (split_on 47 entry))

  unfoldable pub entry_ips : List Text → List Text
  entry_ips [] = []
  entry_ips (e ∷ es) =
      let rest = entry_ips es in if text_eq (entry_ip e) [] then rest else entry_ip e ∷ rest

  unfoldable pub occupied_ips : List PeerDumpEntry → List Text
  occupied_ips [] = []
  occupied_ips (p ∷ ps) = entry_ips (split_on 44 p.allowed_ips) ++ occupied_ips ps

  unfoldable pub allocate_next_ip : Text → List PeerDumpEntry → Allocated
  allocate_next_ip subnet peers = elim (net.parse_cidr subnet) [
    | none ↦ bad_subnet
    | some none ↦ not_ipv4
    | some (some network) ↦ elim (first_free (net.show network) (occupied_ips peers) 253 2) [
      | none ↦ no_free_ip
      | some ip ↦ allocated ip
    ]
  ]
