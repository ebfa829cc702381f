-- ===== src/Invite/Reopen.antt =====
-- `buildIndex` of src/internal/invite/store.go, with which `NewStore` opens a file that is there.
pub mod Restart
use unet.Base.{
  ℕ, zero, suc, ◌+◌, Bool, true, false, List, [], ◌∷◌, ◌++◌, Option, none, some, leb, ◌==◌,
  if◌then◌else◌, Text, length,
}
use unet.Base.Map.{Map}
use unet.Invite.Store.{InviteLink, Codec, Store, index_line, drop_return}

abbrev pub onto_first : ℕ → List Text → List Text
onto_first c [] = (c ∷ []) ∷ []
onto_first c (w ∷ ws) = (c ∷ w) ∷ ws

-- What a scanner finds between the line feeds; nothing after the last of them is no line.
unfoldable pub raw_lines : Text → List Text
raw_lines [] = []
raw_lines (c ∷ cs) = let rest = raw_lines cs in if c == 10 then [] ∷ rest else onto_first c rest

-- The buffer of the scanner holds 1 MiB.
abbrev pub max_line : ℕ
max_line = 1_048_576

module _ (codec : Codec) where
  -- The index with the entry for one line, if it is that of an invitation.
  unfoldable pub index_text : Text → ℕ → Map ℕ → Map ℕ
  index_text [] offset index = index
  index_text (c ∷ cs) offset index = elim (codec.unmarshal (c ∷ cs)) [
    | none ↦ index
    | some inv ↦ index_line inv.token_hash offset index
  ]

  -- The loop of `buildIndex`; `none` is the error of a line that is too long.
  unfoldable pub build_index : ℕ → List Text → Map ℕ → Option (Map ℕ)
  build_index offset [] index = some index
  build_index offset (raw ∷ ls) index =
      let line = drop_return raw in
      let rest = build_index (offset + length line + 1) ls (index_text line offset index) in
      if leb max_line (length raw) then none else rest

  -- `NewStore` on a file that can be opened.
  unfoldable pub new_store : Text → Option Store
  new_store file = elim (build_index 0 (raw_lines file) []) [
    | none ↦ none
    | some index ↦ some record { file = file; index = index }
  ]
