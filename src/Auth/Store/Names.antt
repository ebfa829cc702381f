-- ===== src/Auth/Store/Names.antt =====
-- The store keeps the ids and the names of its tokens apart.
use unet.Base.{
  ◌≡◌, refl, sym, ◌∙◌, ap, ◌⊎◌, inl, inr, Bool, true, false, not, ◌&&◌, List, [], ◌∷◌, ◌++◌, map,
  arith, Text, text_eq, text_eq_iff, if◌then◌else◌, Bool-cases,
}
use unet.Auth.Token.{ApiToken, Result, ok, err}
use unet.Auth.Store.{has_name, add, name_taken, onto, replace, disable}
use unet.Auth.Store.Saving.{Request, creating, updating, deleting, change_of}

unfoldable pub occurs : Text → List Text → Bool
occurs k [] = false
occurs k (j ∷ js) = if text_eq j k then true else occurs k js

unfoldable pub unique : List Text → Bool
unfolding occurs
unique [] = true
unique (k ∷ ks) = not (occurs k ks) && unique ks

abbrev pub ids : List ApiToken → List Text
ids = map (λ t. t.id)

abbrev pub names : List ApiToken → List Text
names = map (λ t. t.name)

-- No two tokens of the list share an id, nor a name.
pub record IsDistinct (ts : List ApiToken) : Type 0 where
  pub unique_ids : unique (ids ts) ≡ true
  pub unique_names : unique (names ts) ≡ true

-- The id of a new token is not in use.
abbrev pub IsFresh : Request → List ApiToken → Type 0
IsFresh (creating t) ts = occurs t.id (ids ts) ≡ false
IsFresh (updating t) ts = Unit
IsFresh (deleting id) ts = Unit

occurs_snoc :
    (j k : Text) (ks : List Text)
    → occurs j (ks ++ k ∷ []) ≡ (if text_eq k j then true else occurs j ks)
unfolding occurs
occurs_snoc j k [] = refl
occurs_snoc j k (i ∷ ks) = ground (arith, occurs_snoc j k ks)

unique_snoc :
    (k : Text) (ks : List Text)
    → occurs k ks ≡ false
    → unique ks ≡ true
    → unique (ks ++ k ∷ []) ≡ true
unfolding unique
unique_snoc k [] o u = refl
unique_snoc k (j ∷ ks) o u =
    ground (arith, occurs_snoc j k ks, unique_snoc k ks, text_eq_iff j k, text_eq_iff k j)

has_name-occurs : (name : Text) (ts : List ApiToken) → has_name name ts ≡ occurs name (names ts)
unfolding has_name occurs
has_name-occurs name [] = refl
has_name-occurs name (t ∷ ts) = ground (arith, has_name-occurs name ts)

map_snoc :
    (f : ApiToken → Text) (ts : List ApiToken) (t : ApiToken)
    → map f (ts ++ t ∷ []) ≡ map f ts ++ f t ∷ []
map_snoc f [] t = refl
map_snoc f (x ∷ ts) t = ap (◌∷◌ (f x)) (map_snoc f ts t)

pub onto-ok :
    (t : ApiToken) (r : Result (List ApiToken)) {us : List ApiToken}
    → onto t r ≡ ok us
    → (vs : List ApiToken) × (r ≡ ok vs) × (us ≡ t ∷ vs)
onto-ok t (ok vs) h = (vs, refl, ground arith)
onto-ok t (err e) h = cc

-- A successful deletion disables the first token with the id.
pub disable-ok :
    (id : Text) (t : ApiToken) (ts : List ApiToken) {us : List ApiToken}
    → disable id (t ∷ ts) ≡ ok us
    → ((text_eq t.id id ≡ true) × (us ≡ record t { enabled = false } ∷ ts))
      ⊎ ((vs : List ApiToken) × (text_eq t.id id ≡ false) × (disable id ts ≡ ok vs) × (us ≡ t ∷ vs))
unfolding disable
disable-ok id t ts h = elim (Bool-cases (text_eq t.id id)) [
  | inl e ↦ inl (e, ground arith)
  | inr e ↦ let (vs, p, q) = onto-ok t (disable id ts) (rw e at h) in inr (vs, e, p, q)
]

-- A deletion touches no id and no name.
pub disable-keeps :
    (id : Text) (ts : List ApiToken) {us : List ApiToken}
    → disable id ts ≡ ok us
    → (ids us ≡ ids ts) × (names us ≡ names ts)
disable-keeps id [] h = unfold disable in cc h
disable-keeps id (t ∷ ts) h = elim (disable-ok id t ts h) [
  | inl (e, q) ↦ rw q (refl, refl)
  | inr (vs, e, p, q) ↦
      let (same_ids, same_names) = disable-keeps id ts p in
      rw q (ap (◌∷◌ t.id) same_ids, ap (◌∷◌ t.name) same_names)
]

-- A successful update replaces the first token with the id, under a name that is its own or free.
pub replace-ok :
    (token : ApiToken) (all : List ApiToken) (t : ApiToken) (ts : List ApiToken)
    {us : List ApiToken}
    → replace token all (t ∷ ts) ≡ ok us
    → ((text_eq t.id token.id ≡ true)
        × ((text_eq t.name token.name ≡ true) ⊎ (name_taken token all ≡ false))
        × (us ≡ token ∷ ts))
      ⊎ ((vs : List ApiToken) × (text_eq t.id token.id ≡ false)
          × (replace token all ts ≡ ok vs)
          × (us ≡ t ∷ vs))
unfolding replace
replace-ok token all t ts h = elim (Bool-cases (text_eq t.id token.id)) [
  | inl e ↦ inl (e, ground arith, ground arith)
  | inr e ↦ let (vs, p, q) = onto-ok t (replace token all ts) (rw e at h) in inr (vs, e, p, q)
]

pub replace-nil :
    (token : ApiToken) (all : List ApiToken) {us : List ApiToken} → replace token all [] ≡ ok us → ⊥
unfolding replace
replace-nil token all h = cc

replace-ids :
    (token : ApiToken) (all ts : List ApiToken) {us : List ApiToken}
    → replace token all ts ≡ ok us
    → ids us ≡ ids ts
replace-ids token all [] h = unfold replace in cc h
replace-ids token all (t ∷ ts) h = elim (replace-ok token all t ts h) [
  | inl (e, free, q) ↦ rw q (ap (λ k. k ∷ ids ts) (sym ((text_eq_iff t.id token.id).0 e)))
  | inr (vs, e, p, q) ↦ rw q (ap (◌∷◌ t.id) (replace-ids token all ts p))
]

-- The names after an update are old names and the new one.
replace-occurs :
    (k : Text) (token : ApiToken) (all ts : List ApiToken) {us : List ApiToken}
    → replace token all ts ≡ ok us
    → occurs k (names us) ≡ true
    → (occurs k (names ts) ≡ true) ⊎ (k ≡ token.name)
unfolding occurs
replace-occurs k token all [] h o = absurd (replace-nil token all h)
replace-occurs k token all (t ∷ ts) h o = elim (replace-ok token all t ts h) [
  | inl (e, free, q) ↦ ground (arith, text_eq_iff token.name k)
  | inr (vs, e, p, q) ↦ ground (arith, replace-occurs k token all ts p)
]

-- If another token has the name, the replaced token had it too.
replace-own :
    (token : ApiToken) (all ts : List ApiToken) {us : List ApiToken}
    → replace token all ts ≡ ok us
    → name_taken token all ≡ true
    → occurs token.name (names ts) ≡ true
unfolding occurs
replace-own token all [] h taken = absurd (replace-nil token all h)
replace-own token all (t ∷ ts) h taken = elim (replace-ok token all t ts h) [
  | inl (e, own, q) ↦ ground arith
  | inr (vs, e, p, q) ↦ ground (arith, replace-own token all ts p taken)
]

name_taken-occurs :
    (token : ApiToken) (ts : List ApiToken)
    → name_taken token ts ≡ false
    → occurs token.id (ids ts) ≡ false
    → occurs token.name (names ts) ≡ false
unfolding occurs name_taken
name_taken-occurs token [] h o = refl
name_taken-occurs token (t ∷ ts) h o = ground (arith, name_taken-occurs token ts)

name_taken-tail :
    (token t : ApiToken) (ts : List ApiToken)
    → name_taken token (t ∷ ts) ≡ false
    → (name_taken token ts ≡ false)
      × ((text_eq t.id token.id ≡ true) ⊎ (text_eq t.name token.name ≡ false))
unfolding name_taken
name_taken-tail token t ts h = ground arith

-- An update that a name check allowed leaves the names apart.
replace-names :
    (token : ApiToken) (all ts : List ApiToken) {us : List ApiToken}
    → replace token all ts ≡ ok us
    → (name_taken token all ≡ true) ⊎ (name_taken token ts ≡ false)
    → unique (ids ts) ≡ true
    → unique (names ts) ≡ true
    → unique (names us) ≡ true
unfolding unique
replace-names token all [] h free ui un = absurd (replace-nil token all h)
replace-names token all (t ∷ ts) {us} h free ui un = elim (replace-ok token all t ts h) [
  | inl (e, own, q) ↦ rw q (
      ground (
        arith,
        text_eq_iff t.id token.id,
        text_eq_iff t.name token.name,
        name_taken-tail token t ts,
        name_taken-occurs token ts,
      ))
  | inr (vs, e, p, q) ↦
      let u =
        replace-names token all ts p (ground (arith, name_taken-tail token t ts)) (ground arith)
          (ground arith) in
      rw q (
        ground (
          arith,
          u,
          replace-occurs t.name token all ts p,
          replace-own token all ts p,
          name_taken-tail token t ts,
          text_eq_iff t.name token.name,
        ))
]

-- Every request that succeeds keeps ids apart and names apart, provided that a created token
-- comes with a new id.
pub change_of-IsDistinct :
    (r : Request) (ts us : List ApiToken)
    → IsDistinct ts
    → IsFresh r ts
    → change_of r ts ≡ ok us
    → IsDistinct us
unfolding add
change_of-IsDistinct (creating t) ts us d fresh h = elim (Bool-cases (has_name t.name ts)) [
  | inl taken ↦ absurd (ground arith)
  | inr free ↦
      let q : us ≡ ts ++ t ∷ [] = ground arith in
      rw q (record {
        unique_ids = rw (map_snoc (λ x. x.id) ts t) (unique_snoc t.id (ids ts) fresh d.unique_ids);
        unique_names =
            rw (map_snoc (λ x. x.name) ts t) (
              unique_snoc t.name (names ts) (sym (has_name-occurs t.name ts) ∙ free)
                d.unique_names);
      })
]
change_of-IsDistinct (updating t) ts us d fresh h = record {
  unique_ids = rw (replace-ids t ts ts h) d.unique_ids;
  unique_names = replace-names t ts ts h (Bool-cases (name_taken t ts)) d.unique_ids d.unique_names;
}
change_of-IsDistinct (deleting id) ts us d fresh h =
    let (same_ids, same_names) = disable-keeps id ts h in
    record { unique_ids = rw same_ids d.unique_ids; unique_names = rw same_names d.unique_names }
