-- ===== src/Auth/Store.antt =====
-- src/internal/auth/store.go: tokens in a JSON file that is replaced by rename. A method runs
-- under the store's lock, so each is one step.
pub mod Saving
pub mod Names
pub mod Reads
use unet.Base.{
  ◌≡◌, Bool, true, false, not, ◌&&◌, drop, List, [], ◌∷◌, ◌++◌, Option, none, some, if◌then◌else◌,
  Text, text_eq,
}
use unet.Auth.Token.{
  ApiToken, Error, duplicate_name, token_not_found, io, corrupt, Result, ok, err, ◌>>=◌,
}

-- `encoding/json` on a list of tokens: what is written reads back, and empty input does not parse.
pub record Codec : Type 0 where
  pub marshal : List ApiToken → Option Text
  pub unmarshal : Text → Option (List ApiToken)
  pub marshal_back : (ts : List ApiToken) {b : Text} → marshal ts ≡ some b → unmarshal b ≡ some ts

-- The token file (`none` if there is none), whether it can be read, and the temporary files
-- beside it.
pub record Disk : Type 0 where
  pub file : Option Text
  pub readable : Bool
  pub temps : List Text

-- Which calls of the file system fail during one `save`.
pub record Faults : Type 0 where
  pub mkdir : Bool
  pub create : Bool
  pub write : Bool
  pub sync : Bool
  pub close : Bool
  pub rename : Bool
  pub remove_temp : Bool

abbrev pub no_faults : Faults
no_faults = record {
  mkdir = false;
  create = false;
  write = false;
  sync = false;
  close = false;
  rename = false;
  remove_temp = false;
}

-- `os.Remove` of the newest temporary file; its error is ignored.
abbrev pub drop_temp : Faults → Disk → Disk
drop_temp f d = if f.remove_temp then d else record d { temps = drop 1 d.temps }

abbrev pub open_temp : Disk → Disk
open_temp d = record d { temps = [] ∷ d.temps }

abbrev pub write_temp : Text → Disk → Disk
write_temp b d = record d { temps = b ∷ drop 1 d.temps }

-- The temporary file takes the name of the token file.
abbrev pub rename_temp : Disk → Disk
rename_temp d = elim d.temps [ [] ↦ d | b ∷ rest ↦ record d { file = some b; temps = rest } ]

unfoldable pub has_name : Text → List ApiToken → Bool
has_name name [] = false
has_name name (t ∷ ts) = if text_eq t.name name then true else has_name name ts

-- The change that `Create` makes.
unfoldable pub add : ApiToken → List ApiToken → Result (List ApiToken)
add token ts = if has_name token.name ts then err duplicate_name else ok (ts ++ token ∷ [])

-- Some token of another id has the name.
unfoldable pub name_taken : ApiToken → List ApiToken → Bool
name_taken token [] = false
name_taken token (other ∷ ts) =
    if not (text_eq other.id token.id) && text_eq other.name token.name
    then true
    else name_taken token ts

abbrev pub onto : ApiToken → Result (List ApiToken) → Result (List ApiToken)
onto t r = r >>= λ ts. ok (t ∷ ts)

-- The loop of `Update` over the rest of `tokens`: the first token with the id is replaced.
unfoldable pub replace : ApiToken → List ApiToken → List ApiToken → Result (List ApiToken)
replace token tokens [] = err token_not_found
replace token tokens (t ∷ ts) =
    let rest = onto t (replace token tokens ts) in
    if text_eq t.id token.id
    then (if not (text_eq t.name token.name) && name_taken token tokens
        then err duplicate_name
        else ok (token ∷ ts))
    else rest

-- The loop of `SoftDelete`.
unfoldable pub disable : Text → List ApiToken → Result (List ApiToken)
disable id [] = err token_not_found
disable id (t ∷ ts) =
    let rest = onto t (disable id ts) in
    if text_eq t.id id then ok (record t { enabled = false } ∷ ts) else rest

-- The loops of `GetByID` and `GetByName`.
unfoldable pub find_id : Text → List ApiToken → Result ApiToken
find_id id [] = err token_not_found
find_id id (t ∷ ts) = if text_eq t.id id then ok t else find_id id ts

unfoldable pub find_name : Text → List ApiToken → Result ApiToken
find_name name [] = err token_not_found
find_name name (t ∷ ts) = if text_eq t.name name then ok t else find_name name ts

module _ (codec : Codec) where
  unfoldable pub load : Disk → Result (List ApiToken)
  load d = elim d.file [
    | none ↦ ok []
    | some b ↦ if not d.readable then err io else elim (codec.unmarshal b) [
      | some ts ↦ ok ts
      | none ↦ elim b [ [] ↦ ok [] | _ ∷ _ ↦ err corrupt ]
    ]
  ]

  -- The new disk, and the error if there is one. A failing `Chmod` is ignored.
  unfoldable pub save : Faults → List ApiToken → Disk → Disk × Option Error
  save f ts d = elim (codec.marshal ts) [
    | none ↦ (d, some corrupt)
    | some b ↦
        let opened = open_temp d in
        let written = write_temp b opened in
        if f.mkdir
        then (d, some io)
        else if f.create
        then (d, some io)
        else if f.write
        then (drop_temp f opened, some io)
        else if f.sync
        then (drop_temp f written, some io)
        else if f.close
        then (drop_temp f written, some io)
        else if f.rename
        then (drop_temp f written, some io)
        else (rename_temp written, none)
  ]

  -- What `Create`, `Update` and `SoftDelete` share: each loads, changes the list and saves it.
  abbrev pub modify : Faults → (List ApiToken → Result (List ApiToken)) → Disk → Disk × Option Error
  modify f change d = elim (load d >>= change) [ err e ↦ (d, some e) | ok ts ↦ save f ts d ]

  unfoldable pub create : Faults → ApiToken → Disk → Disk × Option Error
  create f token d = modify f (add token) d

  unfoldable pub update : Faults → ApiToken → Disk → Disk × Option Error
  update f token d = modify f (λ ts. replace token ts ts) d

  unfoldable pub soft_delete : Faults → Text → Disk → Disk × Option Error
  soft_delete f id d = modify f (disable id) d

  unfoldable pub get_by_id : Text → Disk → Result ApiToken
  get_by_id id d = load d >>= find_id id

  unfoldable pub get_by_name : Text → Disk → Result ApiToken
  get_by_name name d = load d >>= find_name name
