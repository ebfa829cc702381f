-- ===== src/Samples/Enc.antt =====
-- Writers and readers of the parts of a record, for toy codecs: each part is written so that it
-- reads back. They serve the examples on src/internal/wizard, src/internal/config and
-- src/internal/routes.
use unet.Base.{
  ℕ, zero, suc, ◌≡◌, refl, ap, ◌∙◌, Bool, true, false, List, [], ◌∷◌, ◌++◌, Option, none, some,
  ◌==◌, Text, take, drop, length, drop-length,
}
use unet.Base.Int.{ℤ, pos, negsuc}
use unet.Samples.{take-length, flag, flag-back}

pub record Enc (A : Type 0) : Type 0 where
  pub put : A → Text → Text
  pub get : Text → Option (A × Text)
  pub back : (a : A) (r : Text) → get (put a r) ≡ some (a, r)

abbrev pub get_text : Text → Option (Text × Text)
get_text [] = none
get_text (n ∷ s) = some (take n s, drop n s)

pub text-back : (s r : Text) → get_text (length s ∷ (s ++ r)) ≡ some (s, r)
text-back s r = rw (take-length s r, drop-length s r) refl

abbrev pub text : Enc Text
text = record { put = λ s r. length s ∷ (s ++ r); get = get_text; back = text-back }

abbrev pub get_nat : Text → Option (ℕ × Text)
get_nat [] = none
get_nat (n ∷ s) = some (n, s)

abbrev pub nat : Enc ℕ
nat = record { put = λ n r. n ∷ r; get = get_nat; back = λ n r. refl }

-- One code by way of another.
abbrev pub via_get : {A B : Type 0} → (A → B) → Option (A × Text) → Option (B × Text)
via_get f none = none
via_get f (some (a, r)) = some (f a, r)

abbrev pub via : {A B : Type 0} → Enc A → (f : A → B) (g : B → A) → ((b : B) → f (g b) ≡ b) → Enc B
via e f g h = record {
  put = λ b r. e.put (g b) r;
  get = λ s. via_get f (e.get s);
  back = λ b r. ap (via_get f) (e.back (g b) r) ∙ ap (λ x. some (x, r)) (h b);
}

abbrev pub then_get : {A B : Type 0} → Enc B → Option (A × Text) → Option ((A × B) × Text)
then_get e none = none
then_get e (some (a, r)) = via_get (λ b. (a, b)) (e.get r)

infixr 6 ◌&◌
abbrev pub ◌&◌ : {A B : Type 0} → Enc A → Enc B → Enc (A × B)
d & e = record {
  put = λ p r. d.put p.0 (e.put p.1 r);
  get = λ s. then_get e (d.get s);
  back = λ p r.
      ap (then_get e) (d.back p.0 (e.put p.1 r)) ∙ ap (via_get (λ b. (p.0, b))) (e.back p.1 r);
}

abbrev pub bool : Enc Bool
bool = via nat (λ n. n == 1) flag flag-back

abbrev pub put_all : {A : Type 0} → Enc A → List A → Text → Text
put_all e [] r = r
put_all e (a ∷ as') r = e.put a (put_all e as' r)

abbrev pub cons_get : {A : Type 0} → A → Option (List A × Text) → Option (List A × Text)
cons_get a none = none
cons_get a (some (l, r)) = some (a ∷ l, r)

abbrev pub get_all : {A : Type 0} → Enc A → ℕ → Text → Option (List A × Text)
get_all e zero s = some ([], s)
get_all e (suc n) s = elim (e.get s) [ none ↦ none | some (a, r) ↦ cons_get a (get_all e n r) ]

pub all-back :
    {A : Type 0} (e : Enc A) (l : List A) (r : Text)
    → get_all e (length l) (put_all e l r) ≡ some (l, r)
all-back e [] r = refl
all-back e (a ∷ l) r = rw (e.back a (put_all e l r)) (ap (cons_get a) (all-back e l r))

abbrev pub counted : {A : Type 0} → Enc A → Option (ℕ × Text) → Option (List A × Text)
counted e none = none
counted e (some (n, r)) = get_all e n r

abbrev pub list : {A : Type 0} → Enc A → Enc (List A)
list e = record {
  put = λ l r. length l ∷ put_all e l r;
  get = λ s. counted e (get_nat s);
  back = all-back e;
}

abbrev pub to_option : {A : Type 0} → List A → Option A
to_option [] = none
to_option (a ∷ _) = some a

abbrev pub of_option : {A : Type 0} → Option A → List A
of_option none = []
of_option (some a) = a ∷ []

pub option-back : {A : Type 0} (o : Option A) → to_option (of_option o) ≡ o
option-back none = refl
option-back (some a) = refl

abbrev pub option : {A : Type 0} → Enc A → Enc (Option A)
option e = via (list e) to_option of_option option-back

abbrev pub to_int : Bool × ℕ → ℤ
to_int (true, n) = pos n
to_int (false, n) = negsuc n

abbrev pub of_int : ℤ → Bool × ℕ
of_int (pos n) = (true, n)
of_int (negsuc n) = (false, n)

pub int-back : (z : ℤ) → to_int (of_int z) ≡ z
int-back (pos n) = refl
int-back (negsuc n) = refl

abbrev pub int : Enc ℤ
int = via (bool & nat) to_int of_int int-back
