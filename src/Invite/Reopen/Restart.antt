-- ===== src/Invite/Reopen/Restart.antt =====
-- A store that is opened again, by `NewStore` of src/internal/invite/store.go.
use unet.Base.{
  ℕ, ◌+◌, ◌≤◌, ◌<◌, ◌≡◌, refl, sym, ap, ◌∙◌, true, false, List, [], ◌∷◌, ◌++◌, some, arith, leb,
  Text, length, length-append, All,
}
use unet.Base.Map.{Map}
use unet.Invite.Store.{InviteLink, Codec, Store, fine, line_of, is_plain, append, index_line}
use unet.Invite.Store.Lookup.{append_assoc, append_nil, drop_return-plain}
use unet.Invite.Reopen.{raw_lines, max_line, index_text, build_index, new_store}

raw_lines-line :
    (json rest : Text)
    → is_plain json ≡ true
    → raw_lines (line_of json ++ rest) ≡ json ∷ raw_lines rest
unfolding raw_lines is_plain
raw_lines-line [] rest h = refl
raw_lines-line (b ∷ s) rest h = ground (arith, raw_lines-line s rest)

module _ (codec : Codec) where
  -- The invitation's line is neither empty nor as long as the scanner's buffer.
  pub record Fits (inv : InviteLink) : Type 0 where
    pub json : Text
    pub written : codec.marshal inv ≡ some json
    pub full : 1 ≤ length json
    pub short : length json < max_line

  -- Invitations that are appended one after the other, without a fault.
  unfoldable pub append_each : List InviteLink → Store → Store
  append_each [] s = s
  append_each (inv ∷ invs) s = append_each invs (append codec fine inv s).0

  index_text-marshalled :
      (inv : InviteLink) (json : Text) (offset : ℕ) (index : Map ℕ)
      → codec.marshal inv ≡ some json
      → 1 ≤ length json
      → index_text codec json offset index ≡ index_line inv.token_hash offset index
  unfolding index_text
  index_text-marshalled inv [] offset index e h = absurd (omega arith)
  index_text-marshalled inv (c ∷ cs) offset index e h =
      rw (codec.marshal_back inv e, index_text) refl

  -- The index of a line and what follows it.
  build_index-line :
      (inv : InviteLink) (f : Fits inv) (offset : ℕ) (rest : Text) (index : Map ℕ)
      → build_index codec offset (raw_lines (line_of f.json ++ rest)) index
        ≡ build_index codec
            (offset + length f.json + 1)
            (raw_lines rest)
            (index_line inv.token_hash offset index)
  unfolding build_index
  build_index-line inv f offset rest index =
      let plain = codec.marshal_plain inv f.written in
      let lines = raw_lines-line f.json rest plain in
      let same = drop_return-plain f.json plain in
      let entry = index_text-marshalled inv f.json offset index f.written f.full in
      let short : leb max_line (length f.json) ≡ false = ground (arith, f.short) in
      simp (lines, build_index, same, entry, short) refl

  -- What the appends add to the file, and that it is indexed as they have indexed it.
  pub record Added (invs : List InviteLink) (s : Store) : Type 0 where
    pub tail : Text
    pub file : (append_each invs s).file ≡ s.file ++ tail
    pub index :
        build_index codec (length s.file) (raw_lines tail) s.index ≡ some (append_each invs s).index

  append_each-Added : (invs : List InviteLink) (s : Store) → All Fits invs → Added invs s
  unfolding append_each append raw_lines build_index
  append_each-Added [] s h = record { tail = []; file = sym (append_nil s.file); index = refl }
  append_each-Added (inv ∷ invs) s (f, fs) =
      let s1 : Store = record {
        file = s.file ++ line_of f.json;
        index = index_line inv.token_hash (length s.file) s.index;
      } in
      let step : (append codec fine inv s).0 ≡ s1 = rw (f.written, append) refl in
      let a = append_each-Added invs s1 fs in
      let at : length s.file + length f.json + 1 ≡ length s1.file =
        omega (arith, length-append s.file (line_of f.json), length-append f.json (10 ∷ [])) in
      record {
        tail = line_of f.json ++ a.tail;
        file =
            ap (λ x. (append_each invs x).file) step
            ∙ a.file
            ∙ append_assoc s.file (line_of f.json) a.tail;
        index =
            build_index-line inv f (length s.file) a.tail s.index
            ∙ ap (λ n. build_index codec n (raw_lines a.tail) s1.index) at
            ∙ a.index
            ∙ ap (λ x. some (append_each invs x).index) (sym step);
      }

  abbrev pub empty : Store
  empty = record { file = []; index = [] }

  -- Whatever invitations are appended to an empty store without a fault, a store that is opened
  -- on the resulting file is the very same, index included, if each invitation's line is not
  -- empty and shorter than the scanner's 1 MiB.
  pub new_store-append_each :
      (invs : List InviteLink)
      → All Fits invs
      → new_store codec (append_each invs empty).file ≡ some (append_each invs empty)
  unfolding new_store
  new_store-append_each invs h =
      let a = append_each-Added invs empty h in
      let q : build_index codec 0 (raw_lines (append_each invs empty).file) []
          ≡ some (append_each invs empty).index =
        ap (λ x. build_index codec 0 (raw_lines x) []) a.file ∙ a.index in
      rw (q, new_store) refl
