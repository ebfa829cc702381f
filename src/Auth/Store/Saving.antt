-- ===== src/Auth/Store/Saving.antt =====
-- Saving is all or nothing.
use unet.Base.{
  ◌≡◌, refl, true, ◌⊎◌, List, [], ◌∷◌, Option, none, some, arith, inl, inr, Bool-cases,
  Option-cases, Text,
}
use unet.Auth.Token.{ApiToken, Error, Result, Result-cases, ok, ◌>>=◌}
use unet.Auth.Store.{
  Codec, Disk, Faults, drop_temp, add, replace, disable, load, save, modify, create, update,
  soft_delete,
}

-- The calls that change the store.
pub data Request : Type 0 where
  creating : ApiToken → Request
  updating : ApiToken → Request
  deleting : Text → Request

abbrev pub change_of : Request → List ApiToken → Result (List ApiToken)
change_of (creating t) = add t
change_of (updating t) = λ ts. replace t ts ts
change_of (deleting id) = disable id

-- The token file is as it was, and so are the temporary files, unless the removal of the one that was
-- made failed, and then it is left.
pub record IsUnchanged (f : Faults) (d o : Disk) : Type 0 where
  pub file : o.file ≡ d.file
  pub readable : o.readable ≡ d.readable
  pub temps : (o.temps ≡ d.temps) ⊎ ((f.remove_temp ≡ true) × (b : Text) × (o.temps ≡ b ∷ d.temps))

pub same : (f : Faults) (d : Disk) → IsUnchanged f d d
same f d = record { file = refl; readable = refl; temps = inl refl }

dropped :
    (f : Faults) (b : Text) (d : Disk)
    → IsUnchanged f d (drop_temp f (record d { temps = b ∷ d.temps }))
dropped f b d = elim (Bool-cases f.remove_temp) [
  | inl e ↦ simp e record { file = refl; readable = refl; temps = inr (e, b, refl) }
  | inr e ↦ simp e record { file = refl; readable = refl; temps = inl refl }
]

module _ (codec : Codec) where
  abbrev pub handle : Faults → Request → Disk → Disk × Option Error
  handle f (creating t) = create codec f t
  handle f (updating t) = update codec f t
  handle f (deleting id) = soft_delete codec f id

  -- Every step of a save that fails leaves the file, and the temporary files as they were unless the
  -- removal of the one that was made fails too.
  save_failed :
      (f : Faults) (ts : List ApiToken) (d : Disk) {e : Error}
      → (save codec f ts d).1 ≡ some e
      → IsUnchanged f d (save codec f ts d).0
  unfolding save
  save_failed f ts d h = elim (Option-cases (codec.marshal ts)) [
    | inl e ↦ rw (e, save) (same f d)
    | inr (b, e) ↦ elim (Bool-cases f.mkdir) [
      | inl e1 ↦ simp (e, e1, save) (same f d)
      | inr e1 ↦ elim (Bool-cases f.create) [
        | inl e2 ↦ simp (e, e1, e2, save) (same f d)
        | inr e2 ↦ elim (Bool-cases f.write) [
          | inl e3 ↦ simp (e, e1, e2, e3, save) (dropped f [] d)
          | inr e3 ↦ elim (Bool-cases f.sync) [
            | inl e4 ↦ simp (e, e1, e2, e3, e4, save) (dropped f b d)
            | inr e4 ↦ elim (Bool-cases f.close) [
              | inl e5 ↦ simp (e, e1, e2, e3, e4, e5, save) (dropped f b d)
              | inr e5 ↦ elim (Bool-cases f.rename) [
                | inl e6 ↦ simp (e, e1, e2, e3, e4, e5, e6, save) (dropped f b d)
                | inr e6 ↦ absurd (ground arith)
              ]
            ]
          ]
        ]
      ]
    ]
  ]

  save_done :
      (f : Faults) (ts : List ApiToken) (d : Disk)
      → d.readable ≡ true
      → (save codec f ts d).1 ≡ none
      → (load codec (save codec f ts d).0 ≡ ok ts) × ((save codec f ts d).0.temps ≡ d.temps)
  unfolding save load
  save_done f ts d r h = elim (Option-cases (codec.marshal ts)) [
    | inl e ↦ absurd (ground arith)
    | inr (b, e) ↦ (ground (arith, codec.marshal_back ts e), ground arith)
  ]

  modify_failed :
      (f : Faults) (change : List ApiToken → Result (List ApiToken)) (d : Disk) {e : Error}
      → (modify codec f change d).1 ≡ some e
      → IsUnchanged f d (modify codec f change d).0
  modify_failed f change d h = elim (Result-cases (load codec d >>= change)) [
    | inl (e, p) ↦ rw (p, modify) (same f d)
    | inr (ts, p) ↦ rw (p, modify) (save_failed f ts d (rw (p, modify) at h))
  ]

  modify_done :
      (f : Faults) (change : List ApiToken → Result (List ApiToken)) (d : Disk)
      → d.readable ≡ true
      → (modify codec f change d).1 ≡ none
      → (ts : List ApiToken) × (load codec d >>= change ≡ ok ts)
        × (load codec (modify codec f change d).0 ≡ ok ts)
        × ((modify codec f change d).0.temps ≡ d.temps)
  modify_done f change d r h = elim (Result-cases (load codec d >>= change)) [
    | inl (e, p) ↦ absurd (ground arith)
    | inr (ts, p) ↦
        let (loads, clean) = save_done f ts d r (rw (p, modify) at h) in
        (ts, p, rw (p, modify) loads, rw (p, modify) clean)
  ]

  -- A creation, update or deletion that reports an error, at whichever step it failed, leaves the
  -- token file as it was, and no temporary file behind, unless the removal of the temporary file
  -- failed too: then that one file is left.
  pub handle_failed :
      (f : Faults) (r : Request) (d : Disk) {e : Error}
      → (handle f r d).1 ≡ some e
      → IsUnchanged f d (handle f r d).0
  unfolding create update soft_delete
  handle_failed f (creating t) d h = modify_failed f (add t) d h
  handle_failed f (updating t) d h = modify_failed f (λ ts. replace t ts ts) d h
  handle_failed f (deleting id) d h = modify_failed f (disable id) d h

  -- A creation, update or deletion of a readable file that reports no error has saved the change:
  -- the tokens that were loaded, changed by the request, are what the next call loads, and no
  -- temporary file is left behind.
  pub handle_done :
      (f : Faults) (r : Request) (d : Disk)
      → d.readable ≡ true
      → (handle f r d).1 ≡ none
      → (ts : List ApiToken) × (load codec d >>= change_of r ≡ ok ts)
        × (load codec (handle f r d).0 ≡ ok ts)
        × ((handle f r d).0.temps ≡ d.temps)
  unfolding create update soft_delete
  handle_done f (creating t) d r h = modify_done f (add t) d r h
  handle_done f (updating t) d r h = modify_done f (λ ts. replace t ts ts) d r h
  handle_done f (deleting id) d r h = modify_done f (disable id) d r h
