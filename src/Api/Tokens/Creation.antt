-- ===== src/Api/Tokens/Creation.antt =====
-- The creation of a token either leaves the file as it was or adds the token that it returns.
use unet.Base.{
  ℕ, ◌≡◌, inl, inr, true, not, ◌&&◌, List, [], Option, none, some, Text, text_eq, Bool-cases,
  Option-cases,
}
use unet.Auth.Scope.{scope_read, scope_write, scope_admin}
use unet.Auth.Token.{ApiToken, Error, Result-cases, new_api_token, ok, ◌>>=◌}
use unet.Auth.Store.{Codec, Disk, Faults, create, load, add}
use unet.Auth.Store.Saving.{IsUnchanged, same, creating, handle_done, handle_failed}
use unet.Api.Context.{AuthInfo, ErrorCode, Outcome, rejected, passed}
use unet.Api.Tokens.{TokenRequest, creator, answer_of, create_token}

-- What a creation may do: nothing, with an error, or add the token that it answers with.
pub data IsCreated (codec : Codec) (f : Faults) (d : Disk)
    : Disk × Outcome (ApiToken × Text) → Type 0 where
  not_created :
      {d' : Disk} {status : ℕ} {code : ErrorCode}
      → IsUnchanged f d d'
      → IsCreated codec f d (d', rejected status code)
  added :
      (d' : Disk) (made : ApiToken × Text) (ts : List ApiToken)
      → load codec d >>= add made.0 ≡ ok ts
      → load codec d' ≡ ok ts
      → d'.temps ≡ d.temps
      → IsCreated codec f d (d', passed made)

saved :
    (codec : Codec) (f : Faults) (made : ApiToken × Text) (d : Disk)
    → d.readable ≡ true
    → IsCreated codec f d
        ((create codec f made.0 d).0, answer_of ((create codec f made.0 d).1) made)
saved codec f made d readable = elim (Option-cases ((create codec f made.0 d).1)) [
  | inl e ↦
      let (ts, changed, loads, clean) = handle_done codec f (creating made.0) d readable e in
      rw e (added ((create codec f made.0 d).0) made ts changed loads clean)
  | inr (x, e) ↦ rw e (refused (handle_failed codec f (creating made.0) d {e = x} e) x)
]
  where
    refused :
        {d' : Disk}
        → IsUnchanged f d d'
        → (x : Error) → IsCreated codec f d (d', answer_of (some x) made)
    refused u Error.duplicate_name = not_created u
    refused u Error.invalid_date = not_created u
    refused u Error.token_not_found = not_created u
    refused u Error.io = not_created u
    refused u Error.corrupt = not_created u

-- On a readable file, CreateToken either answers with an error and leaves the file as it was, and
-- no temporary file unless its removal failed, or answers with a token that was added under a free name, and the file
-- has it from then on after the tokens that it had.
pub create_token-IsCreated :
    (codec : Codec) (hash : Text → Option Text) (plain new_id : Text) (now : ℕ) (f : Faults)
    (info : Option AuthInfo) (body : Option TokenRequest) (d : Disk)
    → d.readable ≡ true
    → IsCreated codec f d (create_token codec hash plain new_id now f info body d)
unfolding create_token
create_token-IsCreated codec hash plain new_id now f info none d readable = not_created (same f d)
create_token-IsCreated codec hash plain new_id now f info (some r) d readable =
    elim (Bool-cases (text_eq r.name [])) [
      | inl a ↦ rw (a, create_token) (not_created (same f d))
      | inr a ↦
          elim (Bool-cases (
            not (text_eq r.scope scope_read)
            && not (text_eq r.scope scope_write)
            && not (text_eq r.scope scope_admin))) [
              | inl b ↦ rw (a, b, create_token) (not_created (same f d))
              | inr b ↦
                  elim (Result-cases (
                    new_api_token hash plain new_id now r.name r.scope (creator info)
                      r.expires_at)) [
                        | inl (e, v) ↦ rw (a, b, v, create_token) (not_created (same f d))
                        | inr (made, v) ↦ rw (a, b, v, create_token) (saved codec f made d readable)
                      ]
            ]
    ]
