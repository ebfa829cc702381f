-- ===== src/Tunnel/Shell/Words.antt =====
-- How a shell takes the commands of src/internal/tunnel/peer.go apart into words.
use unet.Base.{
  ℕ, ◌≡◌, refl, sym, ap, ◌∙◌, Bool, true, false, List, [], ◌∷◌, ◌++◌, inl, inr, ◌==◌, ==_iff,
  if◌then◌else◌, Text, codes, Bool-cases,
}
use mathlib.Core.List.{append_assoc, append-nil}
use unet.Tunnel.Shell.{quote_all, shell_arg, docker_exec}

pub data Quoting : Type 0 where
  bare quoted escaped : Quoting

pub data Effect : Type 0 where
  ends opens adds : Effect

-- One byte: how the next one is read, and whether it ends a word, only opens one, or belongs to one.
abbrev step : Quoting → ℕ → Quoting × Effect
step bare c =
    if c == 39
    then (quoted, opens)
    else if c == 92
    then (escaped, opens)
    else if c == 32
    then (bare, ends)
    else (bare, adds)
step quoted c = if c == 39 then (bare, opens) else (quoted, adds)
step escaped c = (bare, adds)

abbrev onto_first : Text → List Text → List Text
onto_first s [] = []
onto_first s (w ∷ ws) = (s ++ w) ∷ ws

abbrev read_byte : Bool → ℕ → Quoting × Effect → (Quoting → Bool → List Text) → List Text
read_byte false c (q, ends) rest = rest q false
read_byte true c (q, ends) rest = [] ∷ rest q false
read_byte within c (q, opens) rest = rest q true
read_byte within c (q, adds) rest = onto_first (c ∷ []) (rest q true)

-- The words of a line, by quotes, backslashes and spaces. Inside a word its rest comes first.
unfoldable pub words : Quoting → Bool → Text → List Text
words q false [] = []
words q true [] = [] ∷ []
words q within (c ∷ cs) = read_byte within c (step q c) (λ q' w. words q' w cs)

onto_first-nil : (ws : List Text) → onto_first [] ws ≡ ws
onto_first-nil [] = refl
onto_first-nil (w ∷ ws) = refl

onto_first-onto_first :
    (c : ℕ) (s : Text) (ws : List Text)
    → onto_first (c ∷ []) (onto_first s ws) ≡ onto_first (c ∷ s) ws
onto_first-onto_first c s [] = refl
onto_first-onto_first c s (w ∷ ws) = refl

-- Inside quotes, what was quoted reads as it was.
words-quote_all :
    (s t : Text) → words quoted true (quote_all s ++ 39 ∷ t) ≡ onto_first s (words bare true t)
unfolding words quote_all
words-quote_all [] t = sym (onto_first-nil (words bare true t))
words-quote_all (c ∷ s) t = elim (Bool-cases (c == 39)) [
  | inl e ↦
      let p : c ≡ 39 = (==_iff c 39).0 e in
      rw (e, words-quote_all s t, p) (onto_first-onto_first 39 s (words bare true t))
  | inr e ↦ rw (e, e, words-quote_all s t) (onto_first-onto_first c s (words bare true t))
]

-- A quoted argument is one word, whatever it holds.
words-shell_arg :
    (w : Bool) (s t : Text) → words bare w (shell_arg s ++ t) ≡ onto_first s (words bare true t)
unfolding words shell_arg
words-shell_arg true s t = rw (append_assoc (quote_all s) (39 ∷ []) t) (words-quote_all s t)
words-shell_arg false s t = rw (append_assoc (quote_all s) (39 ∷ []) t) (words-quote_all s t)

-- A shell takes a command for the container apart into exactly six words, of which the container
-- and the command are as they were given, whatever quotes, spaces or backslashes they hold.
pub words-docker_exec :
    (container cmd : Text)
    → words bare false (docker_exec container cmd)
      ≡ codes "docker" ∷ codes "exec" ∷ container ∷ codes "sh" ∷ codes "-c" ∷ cmd ∷ []
unfolding words docker_exec
words-docker_exec container cmd =
    let last : words bare false (shell_arg cmd) ≡ cmd ∷ [] =
      ap (words bare false) (sym (append-nil (shell_arg cmd)))
      ∙ words-shell_arg false cmd []
      ∙ rw (append-nil cmd) refl in
    let name = words-shell_arg false container (codes " sh -c " ++ shell_arg cmd) in
    ap (λ ws. codes "docker" ∷ codes "exec" ∷ ws)
      (ap (words bare false) (append_assoc (shell_arg container) (codes " sh -c ") (shell_arg cmd))
        ∙ name
        ∙ rw (append-nil container, last) refl)
