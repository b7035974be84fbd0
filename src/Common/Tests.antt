-- ===== src/Common/Tests.antt =====
-- Boolean tests on native numbers and texts, and the two shapes of a branch.
use Prim.Native.Nat.{ℕ, ◌≤◌, ◌<◌, compare, Ordering}
use Prim.Native.String.{String}
use mathlib.Core.Path.{◌≡◌, refl, sym, ◌∙◌}
use mathlib.Core.Logic.{◌≢◌, ◌⊎◌, inl, inr}
use mathlib.Core.Bool.{Bool, true, false, not, ◌||◌, true≢false}
use mathlib.Core.Option.{none, some}
use native.Mathlib.Omega.{arith}
use text.Mathlib.Text.{find?, ◌==◌ as str_eq}
use text.Mathlib.TextEquality.{eq_iff}

abbrev pub ltb : ℕ → ℕ → Bool
ltb a b = elim (compare a b) [ Ordering.lt ↦ true | _ ↦ false ]

abbrev pub leb : ℕ → ℕ → Bool
leb a b = elim (compare a b) [ Ordering.gt ↦ false | _ ↦ true ]

infix 50 ◌==◌
abbrev pub ◌==◌ : ℕ → ℕ → Bool
a == b = elim (compare a b) [ Ordering.eq ↦ true | _ ↦ false ]

infix 1 if◌then◌else◌
abbrev pub if◌then◌else◌ {ℓ} : {A : Type ℓ} → Bool → A → A → A
if true then x else y = x
if false then x else y = y

-- `strings.Contains`
unfoldable pub contains : String → String → Bool
contains s sub = elim (find? s sub) [ none ↦ false | some _ ↦ true ]

-- A split on a computed test that keeps the equation.
pub Bool-cases : (b : Bool) → (b ≡ true) ⊎ (b ≡ false)
Bool-cases true = inl refl
Bool-cases false = inr refl

pub str_eq_refl : (s : String) → str_eq s s ≡ true
str_eq_refl s = (eq_iff s s).1 refl

pub not-true : (b : Bool) → not b ≡ true → b ≡ false
not-true true h = absurd (true≢false (sym h))
not-true false h = refl

pub ne_of_test : (s t : String) → not (str_eq s t) ≡ true → s ≢ t
ne_of_test s t h e = true≢false (sym ((eq_iff s t).1 e) ∙ not-true (str_eq s t) h)

pub or-cases : (a b : Bool) → (a || b) ≡ true → (a ≡ true) ⊎ (b ≡ true)
or-cases true b h = inl refl
or-cases false b h = inr h

pub test_of_eq : (s t : String) → s ≡ t → str_eq s t ≡ true
test_of_eq s t = (eq_iff s t).1

pub eq_of_test : (s t : String) → str_eq s t ≡ true → s ≡ t
eq_of_test s t h = (eq_iff s t).0 h

pub test_of_ne : (s t : String) → s ≢ t → str_eq s t ≡ false
test_of_ne s t n = elim (Bool-cases (str_eq s t)) [
  | inl same ↦ absurd (n (eq_of_test s t same))
  | inr other ↦ other
]

pub ltb→lt : (a b : ℕ) → ltb a b ≡ true → a < b
ltb→lt a b h = ground arith

pub ltb_false→le : (a b : ℕ) → ltb a b ≡ false → b ≤ a
ltb_false→le a b h = ground arith
