-- ===== src/Auth/Token.antt =====
-- src/internal/auth/token.go: an API token and the errors of the package. Times are nanoseconds.
use unet.Base.{
  ℕ, ◌≡◌, refl, ◌⊎◌, inl, inr, Bool, true, false, Option, none, some, ltb, if◌then◌else◌, Text,
  take,
}
use unet.Auth.Scope.{Scope}

pub record ApiToken : Type 0 where
  pub id : Text
  pub name : Text
  pub token_hash : Text
  pub token_prefix : Text
  pub scope : Scope
  pub created_by : Text
  pub created_at : ℕ
  pub expires_at : Option ℕ
  pub last_used_at : Option ℕ
  pub request_count : ℕ  -- int64
  pub enabled : Bool

-- The last two stand for the errors of the file system and of `encoding/json`.
pub data Error : Type 0 where
  duplicate_name invalid_date token_not_found io corrupt : Error

pub data Result {ℓ} (A : Type ℓ) : Type ℓ where
  ok : A → Result A
  err : Error → Result A

infixl 5 ◌>>=◌
abbrev pub ◌>>=◌ {ℓ κ} : {A : Type ℓ} {B : Type κ} → Result A → (A → Result B) → Result B
ok a >>= f = f a
err e >>= f = err e

pub Result-cases {ℓ} :
    {A : Type ℓ} (r : Result A) → ((e : Error) × (r ≡ err e)) ⊎ ((a : A) × (r ≡ ok a))
Result-cases (ok a) = inr (a, refl)
Result-cases (err e) = inl (e, refl)

abbrev pub is_past : Option ℕ → ℕ → Bool
is_past none now = false
is_past (some t) now = ltb t now

-- `NewAPIToken`. The random token, its bcrypt hash (which can fail) and the new id are given. The
-- prefix is the first 8 bytes, or all of a shorter token.
unfoldable pub new_api_token :
    (hash : Text → Option Text) (plain new_id : Text) (now : ℕ)
    → Text
    → Scope
    → Text
    → Option ℕ
    → Result (ApiToken × Text)
new_api_token hash plain new_id now name scope created_by expires_at =
    if is_past expires_at now then err invalid_date else elim (hash plain) [
      | none ↦ err io
      | some h ↦ ok (
        record {
          id = new_id;
          name = name;
          token_hash = h;
          token_prefix = take 8 plain;
          scope = scope;
          created_by = created_by;
          created_at = now;
          expires_at = expires_at;
          last_used_at = none;
          request_count = 0;
          enabled = true;
        },
        plain,
      )
    ]
