-- ===== src/Auth/Store/Reads.antt =====
-- What a read returns after a write.
use unet.Base.{
  ◌≡◌, refl, inl, inr, true, false, List, [], ◌∷◌, ◌++◌, arith, Text, text_eq, text_eq_iff,
  if◌then◌else◌, Bool-cases, none,
}
use unet.Auth.Token.{ApiToken, Result, Result-cases, ok, err, ◌>>=◌}
use unet.Auth.Store.{Codec, Disk, Faults, has_name, add, replace, disable, find_id, load, get_by_id}
use unet.Auth.Store.Saving.{Request, creating, updating, deleting, change_of, handle, handle_done}
use unet.Auth.Store.Names.{disable-ok, replace-ok, replace-nil}

abbrev pub disabled : Result ApiToken → Result ApiToken
disabled (ok t) = ok (record t { enabled = false })
disabled (err e) = err e

abbrev pub or_else : Result ApiToken → Result ApiToken → Result ApiToken
or_else (ok t) r = ok t
or_else (err e) r = r

-- What `GetByID` answers after a request that succeeded, from what it answered before.
abbrev pub expected : Request → Text → Result ApiToken → Result ApiToken
expected (creating t) id before = or_else before (if text_eq t.id id then ok t else before)
expected (updating t) id before = if text_eq t.id id then ok t else before
expected (deleting i) id before = if text_eq i id then disabled before else before

find_id-add :
    (t : ApiToken) (id : Text) (ts : List ApiToken)
    → find_id id (ts ++ t ∷ []) ≡ expected (creating t) id (find_id id ts)
unfolding find_id
find_id-add t id [] = refl
find_id-add t id (x ∷ ts) = ground (arith, find_id-add t id ts)

find_id-replace :
    (t : ApiToken) (id : Text) (all ts : List ApiToken) {us : List ApiToken}
    → replace t all ts ≡ ok us
    → find_id id us ≡ expected (updating t) id (find_id id ts)
unfolding find_id
find_id-replace t id all [] h = absurd (replace-nil t all h)
find_id-replace t id all (x ∷ ts) h = elim (replace-ok t all x ts h) [
  | inl (e, own, q) ↦
      rw q (ground (arith, text_eq_iff x.id t.id, text_eq_iff t.id id, text_eq_iff x.id id))
  | inr (vs, e, p, q) ↦
      let ih = find_id-replace t id all ts p in
      rw q (ground (arith, ih, text_eq_iff x.id t.id, text_eq_iff t.id id, text_eq_iff x.id id))
]

pub find_id-disable :
    (i id : Text) (ts : List ApiToken) {us : List ApiToken}
    → disable i ts ≡ ok us
    → find_id id us ≡ expected (deleting i) id (find_id id ts)
unfolding find_id
find_id-disable i id [] h = unfold disable in cc h
find_id-disable i id (x ∷ ts) h = elim (disable-ok i x ts h) [
  | inl (e, q) ↦ rw q (ground (arith, text_eq_iff x.id i, text_eq_iff i id, text_eq_iff x.id id))
  | inr (vs, e, p, q) ↦
      let ih = find_id-disable i id ts p in
      rw q (ground (arith, ih, text_eq_iff x.id i, text_eq_iff i id, text_eq_iff x.id id))
]

find_id-change_of :
    (r : Request) (id : Text) (ts us : List ApiToken)
    → change_of r ts ≡ ok us
    → find_id id us ≡ expected r id (find_id id ts)
find_id-change_of (creating t) id ts us h = elim (Bool-cases (has_name t.name ts)) [
  | inl taken ↦ absurd (unfold add in ground arith)
  | inr free ↦ let q : us ≡ ts ++ t ∷ [] = unfold add in ground arith in rw q (find_id-add t id ts)
]
find_id-change_of (updating t) id ts us h = find_id-replace t id ts ts h
find_id-change_of (deleting i) id ts us h = find_id-disable i id ts h

module _ (codec : Codec) where
  -- After a request that succeeded on a readable file, a read by id sees exactly its effect: a
  -- created token, if no token had the id; the updated token; the deleted token, disabled and
  -- otherwise unchanged. Every other id reads as before.
  pub get_by_id-handle :
      (f : Faults) (r : Request) (d : Disk) (id : Text)
      → d.readable ≡ true
      → (handle codec f r d).1 ≡ none
      → get_by_id codec id (handle codec f r d).0 ≡ expected r id (get_by_id codec id d)
  unfolding get_by_id
  get_by_id-handle f r d id readable done =
      let (us, changed, loads, clean) = handle_done codec f r d readable done in
      elim (Result-cases (load codec d)) [
        | inl (e, p) ↦ let c = rw (p, ◌>>=◌) at changed in cc c
        | inr (ts, p) ↦
            rw (loads, p, ◌>>=◌) (find_id-change_of r id ts us (rw (p, ◌>>=◌) at changed))
      ]
