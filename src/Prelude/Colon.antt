-- ===== src/Prelude/Colon.antt =====
-- Texts joined by a colon, as the lock keys are.
use Prim.Native.Char.{Char, code}
use mathlib.Core.Bool.{Bool, true, not, ◌&&◌}
use quorum_quest.Prelude.Tests.{◌==◌}
use Prim.Native.String.{String, ◌++◌}
use Prim.Native.String.{count}
use native.Mathlib.Omega.{arith}
use mathlib.Core.Path.{◌≡◌, refl, sym, ap, ap₂, ◌∙◌}
use mathlib.Core.Logic.{◌≢◌}
use text.Mathlib.TextLemmas.{
  cons-append, nil-append, head-eq_of_cons-eq, tail-eq_of_cons-eq, append_assoc, append_cancel_left,
  length-append,
}

abbrev pub colon : Char
colon = ":"

-- No character of the text is a colon.
abbrev pub NoColon : String → Type 0
NoColon String.[] = Unit {0}
NoColon (String.◌∷◌ c s) = (c ≢ colon) × NoColon s

colon-append : (s : String) → ":" ++ s ≡ String.◌∷◌ colon s
colon-append s = cons-append colon String.[] s ∙ ap (String.◌∷◌ colon) (nil-append s)

-- A text up to its first colon.
pub split_colon :
    (s t d e : String)
    → NoColon s
    → NoColon t
    → s ++ (":" ++ d) ≡ t ++ (":" ++ e)
    → (s ≡ t) × (d ≡ e)
split_colon String.[] String.[] d e p q h =
    (refl, append_cancel_left ":" d e (sym (nil-append _) ∙ h ∙ nil-append _))
split_colon String.[] (String.◌∷◌ c t) d e p q h = absurd (
    q.0 (
      sym (
        head-eq_of_cons-eq {xs = d}
          (sym (colon-append d) ∙ sym (nil-append _) ∙ h ∙ cons-append c t _))))
split_colon (String.◌∷◌ c s) String.[] d e p q h = absurd (
    p.0 (head-eq_of_cons-eq {ys = e} (sym (cons-append c s _) ∙ h ∙ nil-append _ ∙ colon-append e)))
split_colon (String.◌∷◌ c s) (String.◌∷◌ b t) d e p q h =
    let tails : String.◌∷◌ c (s ++ (":" ++ d)) ≡ String.◌∷◌ b (t ++ (":" ++ e)) =
      sym (cons-append c s _) ∙ h ∙ cons-append b t _ in
    let (same, rest) = split_colon s t d e p.1 q.1 (tail-eq_of_cons-eq tails) in
    (ap₂ String.◌∷◌ (head-eq_of_cons-eq tails) same, rest)

-- A part of a key may stand on either side of a colon.
pub regroup_colon :
    (a b d : String) → (a ++ (":" ++ b)) ++ (":" ++ d) ≡ a ++ (":" ++ (b ++ (":" ++ d)))
regroup_colon a b d = append_assoc a (":" ++ b) _ ∙ ap (◌++◌ a) (append_assoc ":" b _)

pub extended_ne : (a b : String) → a ++ (":" ++ b) ≢ a
extended_ne a b h =
    absurd (omega (arith, ap count h, length-append a (":" ++ b), length-append ":" b))

-- `NoColon` by evaluation.
abbrev pub no_colon : String → Bool
no_colon String.[] = true
no_colon (String.◌∷◌ c s) = not (code c == 58) && no_colon s

pub no_colon-NoColon : (s : String) → no_colon s ≡ true → NoColon s
no_colon-NoColon String.[] h = tt
no_colon-NoColon (String.◌∷◌ c s) h = (λ e. absurd (other e), no_colon-NoColon s (ground arith))
  where
    other : c ≡ colon → ⊥
    other e = ground (arith, ap code e)
