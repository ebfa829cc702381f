-- ===== src/Invite/Store.antt =====
-- src/internal/invite/store.go and invite.go: the invitations, as lines of JSON in a file that is only
-- appended to, and an index from token hashes to byte offsets. The codec and the outcome of each
-- system call are given. Every method runs under the store's lock.
pub mod Lookup
use unet.Base.{
  ℕ, Bool, true, false, ◌≡◌, List, [], ◌∷◌, ◌++◌, Option, none, some, leb, ◌==◌, not, ◌&&◌,
  if◌then◌else◌, Text, text_eq, take, drop, length,
}
use unet.Base.Map.{Map, lookup, insert}

pub data InviteMode : Type 0 where
  hmac short_code : InviteMode

pub record InviteLink : Type 0 where
  pub id : Text
  pub peer_id : Text
  pub mode : InviteMode
  pub token_hash : Text
  pub code : Text
  pub expires_at : ℕ
  pub max_uses : ℕ
  pub use_count : ℕ
  pub created_at : ℕ
  pub created_by : Text
  pub claimed_at : Option ℕ
  pub claimed_ip : Text
  pub config_enc : Text
  pub hmac_sig : Text

-- Neither a line feed nor a carriage return.
unfoldable pub is_plain : Text → Bool
is_plain [] = true
is_plain (b ∷ s) = not (b == 10) && not (b == 13) && is_plain s

-- `encoding/json`: the compact output escapes control characters, and reads back.
pub record Codec : Type 0 where
  pub marshal : InviteLink → Option Text
  pub unmarshal : Text → Option InviteLink
  pub marshal_back : (inv : InviteLink) {s : Text} → marshal inv ≡ some s → unmarshal s ≡ some inv
  pub marshal_plain : (inv : InviteLink) {s : Text} → marshal inv ≡ some s → is_plain s ≡ true

pub record Store : Type 0 where
  pub file : Text
  pub index : Map ℕ

pub data Error : Type 0 where
  marshal_failed seek_failed write_failed : Error

-- How the calls of one `Append` end: a failed write has still written that many bytes.
pub data Fault : Type 0 where
  fine no_seek : Fault
  write_stops : ℕ → Fault

abbrev pub line_of : Text → Text
line_of json = json ++ 10 ∷ []

unfoldable pub index_line : Text → ℕ → Map ℕ → Map ℕ
index_line hash offset index = if text_eq hash [] then index else insert hash offset index

module _ (codec : Codec) where
  unfoldable pub append : Fault → InviteLink → Store → Store × Option Error
  append fault inv s = elim (codec.marshal inv) [
    | none ↦ (s, some marshal_failed)
    | some json ↦ elim fault [
      | no_seek ↦ (s, some seek_failed)
      | write_stops n ↦ (record s { file = s.file ++ take n (line_of json) }, some write_failed)
      | fine ↦ (
        record {
          file = s.file ++ line_of json;
          index = index_line inv.token_hash (length s.file) s.index;
        },
        none,
      )
    ]
  ]

-- A line of `bufio.ScanLines`: up to the line feed, without a last carriage return.
unfoldable pub until_break : Text → Text
until_break [] = []
until_break (b ∷ s) = let rest = until_break s in if b == 10 then [] else b ∷ rest

unfoldable pub drop_return : Text → Text
drop_return [] = []
drop_return (b ∷ []) = if b == 13 then [] else b ∷ []
drop_return (b ∷ c ∷ s) = b ∷ drop_return (c ∷ s)

abbrev pub max_token : ℕ
max_token = 65536

-- The first line of a fresh scanner, whose buffer holds 64 KiB.
unfoldable pub scan_line : Text → Option Text
scan_line [] = none
scan_line (b ∷ s) =
    let line = until_break (b ∷ s) in
    if leb max_token (length line) then none else some (drop_return line)

pub data Found : Type 0 where
  missing bad_seek bad_line : Found
  found : InviteLink → Found

module _ (codec : Codec) where
  unfoldable pub read_line : Option Text → Found
  read_line none = missing
  read_line (some line) = elim (codec.unmarshal line) [ none ↦ bad_line | some inv ↦ found inv ]

  -- `FindByTokenHash`; the first argument says whether the seek succeeds.
  unfoldable pub find_by_token_hash : Bool → Text → Store → Found
  find_by_token_hash seeks hash s = elim (lookup hash s.index) [
    | none ↦ missing
    | some offset ↦ if seeks then read_line (scan_line (drop offset s.file)) else bad_seek
  ]
