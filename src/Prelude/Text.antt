-- ===== src/Prelude/Text.antt =====
-- Native texts: equality as Go's `==` on strings, and concatenation.
use Prim.Native.String.{String, ◌++◌}
use mathlib.Core.Path.{◌≡◌, sym, ◌∙◌}
use mathlib.Core.Logic.{ite, dite, ◌≢◌}
use mathlib.Core.Bool.{Bool, true, false, Bool-discrete, false≢true}
use text.Mathlib.Text.{◌==◌}
use text.Mathlib.TextEquality.{eq_iff}

-- Shut in proofs, where a split on it gives the equation or its negation.
unfoldable pub str_dec : Discrete String
str_dec s t =
    dite (Bool-discrete (s == t) true) (λ same. yes ((eq_iff s t).0 same))
      (λ differ. no (λ p. differ ((eq_iff s t).1 p)))

abbrev pub str_eq : String → String → Bool
str_eq a b = ite (str_dec a b) true false

infixr 65 ◌<>◌
abbrev pub ◌<>◌ : String → String → String
a <> b = a ++ b

-- Two texts that differ, by evaluation.
pub text_ne : (a b : String) → (a == b) ≡ false → a ≢ b
text_ne a b h e = false≢true (sym h ∙ (eq_iff a b).1 e)
