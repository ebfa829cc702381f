-- ===== src/Wizard/Files/Saving.antt =====
-- What `SaveState` and `LoadState` of src/internal/wizard/state.go give together.
use unet.Base.{
  ◌≡◌, refl, sym, ap, ◌∙◌, subst, true, false, Option, not, ◌⊎◌, inl, inr, [], ◌∷◌, none, some,
  if◌then◌else◌, Text, Bool-cases, Option-cases,
}
use unet.Wizard.{failed, done, WizardState, is_valid_step}
use unet.Wizard.Files.{
  Codec, Disk, Faults, drop_temp, FileError, not_marshalled, no_directory, no_temp, not_written,
  not_permitted, not_closed, not_renamed, not_read, is_uuid, save_state, parse_state, load_state,
}

-- A save that reports an error: the file is as it was, and so are the temporary files, unless the
-- removal of the one that was made failed.
pub record Refused (f : Faults) (d : Disk) (o : Disk × Option FileError) : Type 0 where
  pub error : FileError
  pub told : o.1 ≡ some error
  pub file : o.0.file ≡ d.file
  pub readable : o.0.readable ≡ d.readable
  pub temps : f.remove_temp ≡ false → o.0.temps ≡ d.temps

stopped :
    (f : Faults) (d : Disk) (e : FileError) {o : Disk × Option FileError}
    → o ≡ (d, some e)
    → Refused f d o
stopped f d e q =
    subst (Refused f d) (sym q)
      record { error = e; told = refl; file = refl; readable = refl; temps = λ _. refl }

dropped :
    (f : Faults) (d : Disk) (e : FileError) (b : Text) {o : Disk × Option FileError}
    → o ≡ (drop_temp f (record d { temps = b ∷ d.temps }), some e)
    → Refused f d o
dropped f d e b q = subst (Refused f d) (sym q) (elim (Bool-cases f.remove_temp) [
  | inl r ↦
      simp r record { error = e; told = refl; file = refl; readable = refl; temps = λ k. cc (k, r) }
  | inr r ↦
      simp r record { error = e; told = refl; file = refl; readable = refl; temps = λ _. refl }
])

module _ (codec : Codec) where
  abbrev stamped : Text → WizardState → WizardState
  stamped now s = record s { last_saved_at = now }

  -- A save either reports an error and leaves the file, or the file is what was marshalled.
  pub save_state-cases :
      (f : Faults) (now : Text) (s : WizardState) (d : Disk)
      → Refused f d (save_state codec f now s d)
        ⊎ ((b : Text) × (codec.marshal (stamped now s) ≡ some b)
            × (save_state codec f now s d ≡ (record d { file = some b }, none)))
  unfolding save_state
  save_state-cases f now s d = elim (Option-cases (codec.marshal (stamped now s))) [
    | inl m ↦ inl (stopped f d not_marshalled (simp (m, save_state) refl))
    | inr (b, m) ↦ elim (Bool-cases f.mkdir) [
      | inl e1 ↦ inl (stopped f d no_directory (simp (m, e1, save_state) refl))
      | inr e1 ↦ elim (Bool-cases f.create) [
        | inl e2 ↦ inl (stopped f d no_temp (simp (m, e1, e2, save_state) refl))
        | inr e2 ↦ elim (Bool-cases f.write) [
          | inl e3 ↦ inl (dropped f d not_written [] (simp (m, e1, e2, e3, save_state) refl))
          | inr e3 ↦ elim (Bool-cases f.chmod) [
            | inl e4 ↦ inl (dropped f d not_permitted b (simp (m, e1, e2, e3, e4, save_state) refl))
            | inr e4 ↦ elim (Bool-cases f.close) [
              | inl e5 ↦
                  inl (dropped f d not_closed b (simp (m, e1, e2, e3, e4, e5, save_state) refl))
              | inr e5 ↦ elim (Bool-cases f.rename) [
                | inl e6 ↦
                    inl (
                      dropped f d not_renamed b (simp (m, e1, e2, e3, e4, e5, e6, save_state) refl))
                | inr e6 ↦ inr (b, m, rw (m, e1, e2, e3, e4, e5, e6, save_state) refl)
              ]
            ]
          ]
        ]
      ]
    ]
  ]

  parse_state-marshalled :
      (s : WizardState) (b : Text)
      → codec.marshal s ≡ some b
      → is_uuid s.session_id ≡ true
      → is_valid_step s.current_step ≡ true
      → parse_state codec b ≡ done (some s)
  unfolding parse_state
  parse_state-marshalled s [] m u v = absurd (codec.marshal_full s m refl)
  parse_state-marshalled s (c ∷ cs) m u v = rw (codec.marshal_back s m, u, v, parse_state) refl

  parse_state-some :
      (s t : WizardState) (b : Text)
      → codec.marshal s ≡ some b
      → parse_state codec b ≡ done (some t)
      → t ≡ s
  unfolding parse_state
  parse_state-some s t [] m h = cc h
  parse_state-some s t (c ∷ cs) m h = elim (Bool-cases (is_uuid s.session_id)) [
    | inr u ↦ (let q = rw (codec.marshal_back s m, u, parse_state) at h in cc q)
    | inl u ↦ elim (Bool-cases (is_valid_step s.current_step)) [
      | inr v ↦ (let q = rw (codec.marshal_back s m, u, v, parse_state) at h in cc q)
      | inl v ↦ (let q = rw (codec.marshal_back s m, u, v, parse_state) at h in cc q)
    ]
  ]

  load_state-written :
      (b : Text) (d : Disk)
      → load_state codec (record d { file = some b })
        ≡ (if not d.readable then failed not_read else parse_state codec b)
  unfolding load_state
  load_state-written b d = refl

  load_state-same :
      (o d : Disk)
      → o.file ≡ d.file
      → o.readable ≡ d.readable
      → load_state codec o ≡ load_state codec d
  unfolding load_state
  load_state-same o d p q i = load_state codec (record d { file = p i; readable = q i })

  pub load_state-none : (d : Disk) → d.file ≡ none → load_state codec d ≡ done none
  unfolding load_state
  load_state-none d e = simp (e, load_state) refl

  -- What is loaded after a save was saved by it, or was there before.
  pub load_state-save_state :
      (f : Faults) (now : Text) (s t : WizardState) (d : Disk)
      → load_state codec (save_state codec f now s d).0 ≡ done (some t)
      → (load_state codec d ≡ done (some t)) ⊎ (t ≡ stamped now s)
  load_state-save_state f now s t d h = elim (save_state-cases f now s d) [
    | inl r ↦
        inl
          (let q = load_state-same (save_state codec f now s d).0 d r.file r.readable in sym q ∙ h)
    | inr (b, m, q) ↦
        let w = sym (load_state-written b d) ∙ sym (ap (λ x. load_state codec x.0) q) ∙ h in
        elim (Bool-cases d.readable) [
          | inr r ↦ (let w' = simp r at w in cc w')
          | inl r ↦ inr (parse_state-some (stamped now s) t b m (simp r at w))
        ]
  ]

  -- A save of a session with a UUID and a valid step, where the file can be read, either reports
  -- an error and leaves the file as it was, and no temporary file if its removal does not fail, or
  -- reports none, and
  -- then the session is loaded as it was saved and no temporary file is left.
  pub save-load :
      (f : Faults) (now : Text) (s : WizardState) (d : Disk)
      → is_uuid s.session_id ≡ true
      → is_valid_step s.current_step ≡ true
      → d.readable ≡ true
      → Refused f d (save_state codec f now s d)
        ⊎ (((save_state codec f now s d).1 ≡ none)
            × (load_state codec (save_state codec f now s d).0 ≡ done (some (stamped now s)))
            × ((save_state codec f now s d).0.temps ≡ d.temps))
  save-load f now s d u v r = elim (save_state-cases f now s d) [
    | inl p ↦ inl p
    | inr (b, m, q) ↦ inr (
      rw q refl,
      ap (λ x. load_state codec x.0) q
          ∙ load_state-written b d
          ∙ simp r (parse_state-marshalled (stamped now s) b m u v),
      rw q refl,
    )
  ]
