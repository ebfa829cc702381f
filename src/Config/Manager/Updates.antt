-- ===== src/Config/Manager/Updates.antt =====
-- What `Update` of src/internal/config/config.go leaves, and what `GetMasked` shows.
use unet.Base.{
  List, ◌∷◌, Option, false, ◌∙◌, ◌-◌, ◌<◌, ◌≡◌, refl, true, ◌⊎◌, inl, inr, [], ◌++◌, none, some,
  arith, leb, Text, codes, length, drop, length-drop, Bool-cases, Option-cases,
}
use unet.Config.{SecretString, RootConfig, mask, clone_and_mask}
use unet.Config.Manager.{
  Codec, Manager, Faults, drop_temp, SaveError, not_marshalled, no_temp, not_written, not_synced,
  not_closed, not_renamed, get_masked, save_locked, update, new_manager,
}

-- A save that reports an error changes nothing but the temporary files, and those only if the removal
-- of the one that it made failed.
abbrev pub Stopped : Faults → Manager → Manager × Option SaveError → Type 0
Stopped f m o =
    (e : SaveError) × (t : List Text) × (o ≡ (record m { temps = t }, some e))
    × (f.remove_temp ≡ false → t ≡ m.temps)

stopped :
    (f : Faults) (m : Manager) (e : SaveError) {o : Manager × Option SaveError}
    → o ≡ (m, some e)
    → Stopped f m o
stopped f m e q = (e, m.temps, q, λ _. refl)

dropped :
    (f : Faults) (m : Manager) (e : SaveError) (b : Text) {o : Manager × Option SaveError}
    → o ≡ (drop_temp f (record m { temps = b ∷ m.temps }), some e)
    → Stopped f m o
dropped f m e b q = elim (Bool-cases f.remove_temp) [
  | inl r ↦ (e, b ∷ m.temps, q ∙ simp r refl, λ k. cc (k, r))
  | inr r ↦ (e, m.temps, q ∙ simp r refl, λ _. refl)
]

module _ (codec : Codec) where
  -- A save reports an error and changes nothing but for a temporary file, or the file is what was marshalled.
  save_locked-cases :
      (f : Faults) (c : RootConfig) (m : Manager)
      → Stopped f m (save_locked codec f c m)
        ⊎ ((b : Text) × (codec.marshal c ≡ some b)
            × (save_locked codec f c m ≡ (record m { file = some b }, none)))
  unfolding save_locked
  save_locked-cases f c m = elim (Option-cases (codec.marshal c)) [
    | inl e ↦ inl (stopped f m not_marshalled (simp (e, save_locked) refl))
    | inr (b, e) ↦ elim (Bool-cases f.create) [
      | inl e1 ↦ inl (stopped f m no_temp (simp (e, e1, save_locked) refl))
      | inr e1 ↦ elim (Bool-cases f.write) [
        | inl e2 ↦ inl (dropped f m not_written [] (simp (e, e1, e2, save_locked) refl))
        | inr e2 ↦ elim (Bool-cases f.sync) [
          | inl e3 ↦ inl (dropped f m not_synced b (simp (e, e1, e2, e3, save_locked) refl))
          | inr e3 ↦ elim (Bool-cases f.close) [
            | inl e4 ↦ inl (dropped f m not_closed b (simp (e, e1, e2, e3, e4, save_locked) refl))
            | inr e4 ↦ elim (Bool-cases f.rename) [
              | inl e5 ↦
                  inl (dropped f m not_renamed b (simp (e, e1, e2, e3, e4, e5, save_locked) refl))
              | inr e5 ↦ inr (b, e, rw (e, e1, e2, e3, e4, e5, save_locked) refl)
            ]
          ]
        ]
      ]
    ]
  ]

  -- A manager that is opened on the same directory, where the file can be read, is the same.
  pub IsSaved : Manager → Type 0
  IsSaved m = (f : Faults) (id : Text) → new_manager codec f id true m.file m.temps ≡ some m

  -- An update of the configuration either reports an error and leaves the configuration in
  -- memory and the file as they were, and no temporary file unless its removal failed; or reports none, and then the configuration
  -- is the changed one, a manager that is opened on the directory is the same, and no temporary
  -- file is left.
  pub update-cases :
      (f : Faults) (change : RootConfig → RootConfig) (m : Manager)
      → Stopped f m (update codec f change m)
        ⊎ (((update codec f change m).1 ≡ none)
            × ((update codec f change m).0.config ≡ change m.config)
            × ((update codec f change m).0.temps ≡ m.temps)
            × IsSaved (update codec f change m).0)
  unfolding update IsSaved new_manager
  update-cases f change m = elim (save_locked-cases f (change m.config) m) [
    | inl (e, t, q, k) ↦ inl (e, t, rw (q, update) refl, k)
    | inr (b, h, q) ↦ inr (
      rw (q, update) refl,
      rw (q, update) refl,
      rw (q, update) refl,
      rw (q, update) (λ f' id. rw (codec.marshal_back (change m.config) h, new_manager) refl),
    )
  ]

-- Four stars and nothing else, or with four bytes of a longer secret.
pub IsMasked : SecretString → SecretString → Type 0
IsMasked v w =
    (shown : Text) × (w ≡ codes "****" ++ shown)
    × ((shown ≡ []) ⊎ ((length shown ≡ 4) × (4 < length v)))

mask-IsMasked : (v : SecretString) → IsMasked v (mask v)
unfolding mask IsMasked
mask-IsMasked v = elim (Bool-cases (leb (length v) 4)) [
  | inl h ↦ ([], rw (h, mask) refl, inl refl)
  | inr h ↦
      let n = length-drop (length v - 4) v in
      (drop (length v - 4) v, rw (h, mask) refl, inr (ground (arith, h, n), ground (arith, h)))
]

-- x
pub get_masked-IsMasked :
    (m : Manager)
    → IsMasked m.config.vps.password (get_masked m).vps.password
      × IsMasked m.config.tunnel.preshared_key (get_masked m).tunnel.preshared_key
      × IsMasked m.config.tunnel.private_key (get_masked m).tunnel.private_key
      × IsMasked m.config.caddy_api.tls_key (get_masked m).caddy_api.tls_key
      × IsMasked m.config.caddy_api.client_key (get_masked m).caddy_api.client_key
      × IsMasked m.config.dns.token (get_masked m).dns.token
      × IsMasked m.config.ui_token (get_masked m).ui_token
unfolding get_masked clone_and_mask
get_masked-IsMasked m = (
  mask-IsMasked m.config.vps.password,
  mask-IsMasked m.config.tunnel.preshared_key,
  mask-IsMasked m.config.tunnel.private_key,
  mask-IsMasked m.config.caddy_api.tls_key,
  mask-IsMasked m.config.caddy_api.client_key,
  mask-IsMasked m.config.dns.token,
  mask-IsMasked m.config.ui_token,
)
