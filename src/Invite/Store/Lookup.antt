-- ===== src/Invite/Store/Lookup.antt =====
-- What was appended is found, whatever happened to the writes before and after it.
use unet.Base.{
  ℕ, ◌<◌, ◌≡◌, refl, sym, ap, ◌∙◌, subst, inl, inr, true, false, [], ◌∷◌, ◌++◌, Option, none, some,
  arith, leb, if◌then◌else◌, Text, text_eq, text_eq_iff, text_eq_refl, take, drop, length,
  drop-length, Bool-cases, Option-cases,
}
use unet.Base.Map.{Map, lookup, lookup-insert}
use unet.Invite.Store.{
  InviteLink, Codec, Store, Fault, fine, no_seek, write_stops, line_of, is_plain, append,
  until_break, drop_return, max_token, scan_line, found, index_line, read_line, find_by_token_hash,
}

until_break-plain :
    (json post : Text) → is_plain json ≡ true → until_break (line_of json ++ post) ≡ json
unfolding until_break is_plain
until_break-plain [] post h = refl
until_break-plain (b ∷ s) post h = ground (arith, until_break-plain s post)

pub drop_return-plain : (json : Text) → is_plain json ≡ true → drop_return json ≡ json
unfolding drop_return is_plain
drop_return-plain [] h = refl
drop_return-plain (b ∷ []) h = ground arith
drop_return-plain (b ∷ c ∷ s) h = ap (◌∷◌ b) (drop_return-plain (c ∷ s) (ground arith))

-- What the scanner makes of a line that `Append` wrote.
abbrev scanned : Text → Option Text
scanned json = if leb max_token (length json) then none else some json

-- The scanner's line, given what comes before the line feed.
abbrev taken : Text → Option Text
taken line = if leb max_token (length line) then none else some (drop_return line)

taken-plain : (json : Text) → is_plain json ≡ true → taken json ≡ scanned json
taken-plain json h =
    ap (λ (x : Text). if leb max_token (length json) then none else some x)
      (drop_return-plain json h)

scan_line-plain :
    (json post : Text) → is_plain json ≡ true → scan_line (line_of json ++ post) ≡ scanned json
unfolding scan_line
scan_line-plain [] post h = ap taken (until_break-plain [] post h) ∙ taken-plain [] h
scan_line-plain (b ∷ s) post h = ap taken (until_break-plain (b ∷ s) post h) ∙ taken-plain (b ∷ s) h

-- A whole line of the file begins at the offset.
pub record Line (file : Text) (offset : ℕ) : Type 0 where
  pub before : Text
  pub json : Text
  pub rest : Text
  pub shape : file ≡ before ++ (line_of json ++ rest)
  pub at : length before ≡ offset
  pub plain : is_plain json ≡ true

-- Each offset of the index is the beginning of a line.
abbrev pub IsIndexed : Store → Type 0
IsIndexed s = (k : Text) (offset : ℕ) → lookup k s.index ≡ some offset → Line s.file offset

pub append_assoc : (a b c : Text) → (a ++ b) ++ c ≡ a ++ (b ++ c)
append_assoc [] b c = refl
append_assoc (x ∷ a) b c = ap (◌∷◌ x) (append_assoc a b c)

-- The file has grown.
grow : (file more : Text) (offset : ℕ) → Line file offset → Line (file ++ more) offset
grow file more offset l = record {
  before = l.before;
  json = l.json;
  rest = l.rest ++ more;
  shape =
      ap (λ (x : Text). x ++ more) l.shape
      ∙ append_assoc l.before (line_of l.json ++ l.rest) more
      ∙ ap (λ (x : Text). l.before ++ x) (append_assoc (line_of l.json) l.rest more);
  at = l.at;
  plain = l.plain;
}

scan_at :
    (file : Text) (offset : ℕ) (l : Line file offset)
    → scan_line (drop offset file) ≡ scanned l.json
scan_at file offset l =
    ap (λ (x : Text). scan_line (drop offset x)) l.shape
    ∙ ap (λ (n : ℕ). scan_line (drop n (l.before ++ (line_of l.json ++ l.rest)))) (sym l.at)
    ∙ ap (λ (x : Text). scan_line x) (drop-length l.before (line_of l.json ++ l.rest))
    ∙ scan_line-plain l.json l.rest l.plain

pub append_nil : (a : Text) → a ++ [] ≡ a
append_nil [] = refl
append_nil (x ∷ a) = ap (◌∷◌ x) (append_nil a)

-- The line at the end of a file.
last_line : (file json : Text) → is_plain json ≡ true → Line (file ++ line_of json) (length file)
last_line file json h = record {
  before = file;
  json = json;
  rest = [];
  shape = ap (λ (x : Text). file ++ x) (sym (append_nil (line_of json)));
  at = refl;
  plain = h;
}

scanned-short : (json : Text) → length json < max_token → scanned json ≡ some json
scanned-short json h = ground arith

lookup-index_line :
    (hash k : Text) (offset : ℕ) (index : Map ℕ)
    → text_eq hash [] ≡ false
    → lookup k (index_line hash offset index)
      ≡ (if text_eq hash k then some offset else lookup k index)
unfolding index_line
lookup-index_line hash k offset index h = rw (h, index_line) (lookup-insert hash k offset index)

index_line-IsIndexed :
    (hash file json : Text) (index : Map ℕ)
    → is_plain json ≡ true
    → IsIndexed record { file = file; index = index }
    → IsIndexed record { file = file ++ line_of json; index = index_line hash (length file) index }
index_line-IsIndexed hash file json index plain i k offset e = elim (Bool-cases (text_eq hash [])) [
  | inl b ↦
      grow file (line_of json) offset (i k offset (unfold index_line in rw (b, index_line) at e))
  | inr b ↦
      let at = lookup-index_line hash k (length file) index b in
      elim (Bool-cases (text_eq hash k)) [
        | inl q ↦
            let same : length file ≡ offset = (let p = rw q at at in cc (p, e)) in
            subst (λ n. Line (file ++ line_of json) n) same (last_line file json plain)
        | inr q ↦ grow file (line_of json) offset (i k offset (sym (rw q at at) ∙ e))
      ]
]

module _ (codec : Codec) where
  -- A lookup reads the same line of a file that has grown.
  find-grow :
      (s : Store) (more : Text) (index : Map ℕ) (hash : Text)
      → IsIndexed s
      → lookup hash index ≡ lookup hash s.index
      → find_by_token_hash codec true hash record { file = s.file ++ more; index = index }
        ≡ find_by_token_hash codec true hash s
  unfolding find_by_token_hash grow
  find-grow s more index hash i same = elim (Option-cases (lookup hash s.index)) [
    | inl e ↦ rw (same, e, find_by_token_hash) refl
    | inr (offset, e) ↦
        let l = i hash offset e in
        rw (same, e, find_by_token_hash)
          (ap (read_line codec) (
            scan_at (s.file ++ more) offset (grow s.file more offset l)
            ∙ sym (scan_at s.file offset l)))
  ]

  -- The line that was just written is read back.
  find-last :
      (s : Store) (inv : InviteLink) (json : Text) (index : Map ℕ)
      → codec.marshal inv ≡ some json
      → length json < max_token
      → lookup inv.token_hash index ≡ some (length s.file)
      → find_by_token_hash codec true inv.token_hash
          record { file = s.file ++ line_of json; index = index }
        ≡ found inv
  unfolding find_by_token_hash read_line last_line
  find-last s inv json index m short e =
      let at =
        scan_at (s.file ++ line_of json) (length s.file)
          (last_line s.file json (codec.marshal_plain inv m)) in
      rw (e, find_by_token_hash)
        (ap (read_line codec) (at ∙ scanned-short json short)
          ∙ rw (codec.marshal_back inv m, read_line) refl)

  -- If every offset of the index is the beginning of a line, an invitation with a hash whose line
  -- is shorter than the scanner's 64 KiB is found under its hash once it is appended, and the
  -- lookups of all other hashes give what they gave before. An append that fails, even one that
  -- wrote part of its line, changes no lookup at all.
  pub find-append :
      (fault : Fault) (inv : InviteLink) (s : Store) (json hash : Text)
      → IsIndexed s
      → codec.marshal inv ≡ some json
      → length json < max_token
      → text_eq inv.token_hash [] ≡ false
      → find_by_token_hash codec true hash (append codec fault inv s).0
        ≡ (elim (append codec fault inv s).1 [
          | none ↦
              if text_eq inv.token_hash hash
              then found inv
              else find_by_token_hash codec true hash s
          | some _ ↦ find_by_token_hash codec true hash s
        ])
  unfolding append index_line
  find-append no_seek inv s json hash i m short named = rw (m, append) refl
  find-append (write_stops n) inv s json hash i m short named =
      rw (m, append) (find-grow s (take n (line_of json)) s.index hash i refl)
  find-append fine inv s json hash i m short named =
      let index = index_line inv.token_hash (length s.file) s.index in
      let found_at = lookup-index_line inv.token_hash hash (length s.file) s.index named in
      let own = lookup-index_line inv.token_hash inv.token_hash (length s.file) s.index named in
      elim (Bool-cases (text_eq inv.token_hash hash)) [
        | inl e ↦
            let same = (text_eq_iff inv.token_hash hash).0 e in
            rw (m, e, append)
              (subst
                (λ k.
                  find_by_token_hash codec true k
                    record { file = s.file ++ line_of json; index = index }
                  ≡ found inv)
                same (find-last s inv json index m short (rw (text_eq_refl inv.token_hash) at own)))
        | inr e ↦ rw (m, e, append) (find-grow s (line_of json) index hash i (rw e at found_at))
      ]

  -- If every offset of the index is the beginning of a line of the file, this still holds after
  -- an append, also after a torn write.
  pub append-IsIndexed :
      (fault : Fault) (inv : InviteLink) (s : Store)
      → IsIndexed s
      → IsIndexed (append codec fault inv s).0
  unfolding append index_line
  append-IsIndexed fault inv s i = elim (Option-cases (codec.marshal inv)) [
    | inl m ↦ rw (m, append) i
    | inr (json, m) ↦ appended fault json m
  ]
    where
      appended :
          (fault : Fault) (json : Text)
          → codec.marshal inv ≡ some json
          → IsIndexed (append codec fault inv s).0
      appended no_seek json m = rw (m, append) i
      appended (write_stops n) json m =
          rw (m, append) (λ k offset e. grow s.file (take n (line_of json)) offset (i k offset e))
      appended fine json m =
          rw (m, append)
            (index_line-IsIndexed inv.token_hash s.file json s.index (codec.marshal_plain inv m) i)
