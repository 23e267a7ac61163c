-- ===== src/Prelude/Search.antt =====
-- Searching a text that goes on.
use Prim.Native.Nat.{ℕ, suc, ◌+◌, ◌≤◌}
use mathlib.Core.Path.{◌≡◌, refl, ap, ◌∙◌, sym}
use mathlib.Core.Bool.{true, false}
use mathlib.Core.Logic.{inl, inr}
use mathlib.Core.Option.{Option, none, some}
use mathlib.Core.List.{List, [], ◌∷◌, ◌++◌}
use native.Mathlib.Omega.{arith}
use websocket.Prelude.Tests.{◌==◌, Bool-cases}
use websocket.Prelude.Lists.{length}
use websocket.Prelude.Text.{has_prefix, strstr, later, lacks, c_string}

pub later-some :
    (o : Option ℕ) (i : ℕ) → later o ≡ some i → (j : ℕ) × (e : o ≡ some j) × (i ≡ suc j)
later-some none i e = absurd (ground arith)
later-some (some j) i e = (j, refl, ground arith)

pub has_prefix_extends : (p s t : List ℕ) → has_prefix p s ≡ true → has_prefix p (s ++ t) ≡ true
unfolding has_prefix
has_prefix_extends [] s t h = refl
has_prefix_extends (c ∷ p) [] t h = absurd (ground arith)
has_prefix_extends (c ∷ p) (x ∷ s) t h = ground (arith, has_prefix_extends p s t)

-- What follows a text that is long enough does not matter.
pub has_prefix_restricts :
    (p s t : List ℕ) → length p ≤ length s → has_prefix p (s ++ t) ≡ has_prefix p s
unfolding has_prefix
has_prefix_restricts [] s t h = refl
has_prefix_restricts (c ∷ p) [] t h = absurd (omega arith)
has_prefix_restricts (c ∷ p) (x ∷ s) t h = ground (arith, has_prefix_restricts p s t)

pub has_prefix_front : (p q s : List ℕ) → has_prefix (p ++ q) s ≡ true → has_prefix p s ≡ true
unfolding has_prefix
has_prefix_front [] q s h = refl
has_prefix_front (c ∷ p) q [] h = absurd (ground arith)
has_prefix_front (c ∷ p) q (x ∷ s) h = ground (arith, has_prefix_front p q s)

pub has_prefix_fits : (p s : List ℕ) → has_prefix p s ≡ true → length p ≤ length s
unfolding has_prefix
has_prefix_fits [] s h = omega arith
has_prefix_fits (c ∷ p) [] h = absurd (ground arith)
has_prefix_fits (c ∷ p) (x ∷ s) h = ground (arith, has_prefix_fits p s)

strstr-here : (p s : List ℕ) (x : ℕ) → has_prefix p (x ∷ s) ≡ true → strstr p (x ∷ s) ≡ some 0
unfolding strstr
strstr-here p s x h = rw h

strstr-later :
    (p s : List ℕ) (x : ℕ) → has_prefix p (x ∷ s) ≡ false → strstr p (x ∷ s) ≡ later (strstr p s)
unfolding strstr
strstr-later p s x h = rw h

strstr_nothing : (p : List ℕ) → strstr p [] ≡ none
unfolding strstr
strstr_nothing p = refl

-- A found pattern lies inside the text.
pub strstr_fits : (p s : List ℕ) (i : ℕ) → strstr p s ≡ some i → i + length p ≤ length s
strstr_fits p [] i h = absurd (ground (arith, strstr_nothing p))
strstr_fits p (x ∷ s) i h = elim (Bool-cases (has_prefix p (x ∷ s))) [
  | inl found ↦ ground (arith, strstr-here p s x found, has_prefix_fits p (x ∷ s) found)
  | inr not_yet ↦
      let (j, there, next) = later-some (strstr p s) i (sym (strstr-later p s x not_yet) ∙ h) in
      omega (arith, strstr_fits p s j there)
]

-- It is found at the same place when the text goes on.
pub strstr_extends : (p s t : List ℕ) (i : ℕ) → strstr p s ≡ some i → strstr p (s ++ t) ≡ some i
strstr_extends p [] t i h = absurd (ground (arith, strstr_nothing p))
strstr_extends p (x ∷ s) t i h = elim (Bool-cases (has_prefix p (x ∷ s))) [
  | inl found ↦
      strstr-here p (s ++ t) x (has_prefix_extends p (x ∷ s) t found)
      ∙ sym (strstr-here p s x found)
      ∙ h
  | inr not_yet ↦
      let (j, there, next) = later-some (strstr p s) i (sym (strstr-later p s x not_yet) ∙ h) in
      let still : has_prefix p ((x ∷ s) ++ t) ≡ false =
        has_prefix_restricts p (x ∷ s) t (omega (arith, strstr_fits p s j there)) ∙ not_yet in
      strstr-later p (s ++ t) x still ∙ ap later (strstr_extends p s t j there) ∙ ap some (sym next)
]

-- A text without a NUL is the beginning of the C string.
pub c_string-append : (s t : List ℕ) → lacks 0 s ≡ true → c_string (s ++ t) ≡ s ++ c_string t
unfolding c_string lacks
c_string-append [] t h = refl
c_string-append (x ∷ s) t h =
    let other : (x == 0) ≡ false = ground arith in
    rw other (ap (λ u. x ∷ u) (c_string-append s t (ground arith)))
