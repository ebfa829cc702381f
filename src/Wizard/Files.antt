-- ===== src/Wizard/Files.antt =====
-- src/internal/wizard/state.go: the session in a JSON file that is replaced by rename.
pub mod Saving
use unet.Base.{
  ℕ, zero, suc, ◌≡◌, ◌≢◌, Bool, true, false, not, ◌&&◌, ◌||◌, List, [], ◌∷◌, Option, none, some,
  ltb, leb, ◌==◌, if◌then◌else◌, Text, drop,
}
use unet.Wizard.{Result, failed, done, WizardState, is_valid_step}

-- `encoding/json` on a state: what is written is not empty and reads back.
pub record Codec : Type 0 where
  pub marshal : WizardState → Option Text
  pub unmarshal : Text → Option WizardState
  pub marshal_back : (s : WizardState) {b : Text} → marshal s ≡ some b → unmarshal b ≡ some s
  pub marshal_full : (s : WizardState) {b : Text} → marshal s ≡ some b → b ≢ []

-- The state file (`none` if there is none), whether it can be read, and the temporary files
-- beside it.
pub record Disk : Type 0 where
  pub file : Option Text
  pub readable : Bool
  pub temps : List Text

-- Which calls of the file system fail during one request.
pub record Faults : Type 0 where
  pub mkdir : Bool
  pub create : Bool
  pub write : Bool
  pub chmod : Bool
  pub close : Bool
  pub rename : Bool
  pub remove : Bool
  pub remove_temp : Bool

pub data FileError : Type 0 where
  not_marshalled no_directory no_temp not_written not_permitted not_closed not_renamed : FileError
  not_read is_empty bad_json bad_session_id bad_step not_deleted : FileError

abbrev open_temp : Disk → Disk
open_temp d = record d { temps = [] ∷ d.temps }

-- `os.Remove` of the temporary file; its error is ignored.
abbrev pub drop_temp : Faults → Disk → Disk
drop_temp f d = if f.remove_temp then d else record d { temps = drop 1 d.temps }

abbrev write_temp : Text → Disk → Disk
write_temp b d = record d { temps = b ∷ drop 1 d.temps }

abbrev rename_temp : Text → Disk → Disk
rename_temp b d = record d { file = some b; temps = drop 1 d.temps }

abbrev is_hex : ℕ → Bool
is_hex c = (leb 48 c && leb c 57) || (leb 97 c && leb c 102) || (leb 65 c && leb c 70)

-- A run of `n` hexadecimal digits and what follows.
unfoldable pub hex_run : ℕ → Text → Option Text
hex_run zero cs = some cs
hex_run (suc n) [] = none
hex_run (suc n) (c ∷ cs) = let rest = hex_run n cs in if is_hex c then rest else none

unfoldable pub hyphen : Text → Option Text
hyphen [] = none
hyphen (c ∷ cs) = if c == 45 then some cs else none

abbrev then_run : ℕ → Option Text → Option Text
then_run n none = none
then_run n (some cs) = elim (hyphen cs) [ none ↦ none | some rest ↦ hex_run n rest ]

-- `uuidPattern`.
unfoldable pub is_uuid : Text → Bool
is_uuid cs = elim (then_run 12 (then_run 4 (then_run 4 (then_run 4 (hex_run 8 cs))))) [
  | some [] ↦ true
  | _ ↦ false
]

module _ (codec : Codec) where
  -- `SaveState` of a state that is there: the new disk, and the error if there is one.
  unfoldable pub save_state : Faults → Text → WizardState → Disk → Disk × Option FileError
  save_state f now s d = elim (codec.marshal (record s { last_saved_at = now })) [
    | none ↦ (d, some not_marshalled)
    | some b ↦
        if f.mkdir
        then (d, some no_directory)
        else if f.create
        then (d, some no_temp)
        else if f.write
        then (drop_temp f (open_temp d), some not_written)
        else if f.chmod
        then (drop_temp f (write_temp b (open_temp d)), some not_permitted)
        else if f.close
        then (drop_temp f (write_temp b (open_temp d)), some not_closed)
        else if f.rename
        then (drop_temp f (write_temp b (open_temp d)), some not_renamed)
        else (rename_temp b (write_temp b (open_temp d)), none)
  ]

  -- The checks of `LoadState` on the bytes of the file.
  unfoldable pub parse_state : Text → Result FileError (Option WizardState)
  parse_state [] = failed is_empty
  parse_state (c ∷ cs) = elim (codec.unmarshal (c ∷ cs)) [
    | none ↦ failed bad_json
    | some s ↦
        if not (is_uuid s.session_id)
        then failed bad_session_id
        else if not (is_valid_step s.current_step)
        then failed bad_step
        else done (some s)
  ]

  unfoldable pub load_state : Disk → Result FileError (Option WizardState)
  load_state d = elim d.file [
    | none ↦ done none
    | some b ↦ if not d.readable then failed not_read else parse_state b
  ]

-- `DeleteState`.
unfoldable pub delete_state : Faults → Disk → Disk × Option FileError
delete_state f d = elim d.file [
  | none ↦ (d, none)
  | some _ ↦ if f.remove then (d, some not_deleted) else (record d { file = none }, none)
]
