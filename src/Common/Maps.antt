-- ===== src/Common/Maps.antt =====
-- A map with texts as keys, as the list of its entries: writing replaces an entry or adds one.
use Prim.Native.String.{String}
use mathlib.Core.Path.{◌≡◌, refl, sym, ◌∙◌, ap}
use mathlib.Core.Logic.{◌≢◌, inl, inr}
use mathlib.Core.Option.{Option, none, some}
use mathlib.Core.List.{List, [], ◌∷◌}
use text.Mathlib.Text.{◌==◌ as str_eq}
use package.aws_k8s_tester.Common.Tests.{
  if◌then◌else◌, Bool-cases, str_eq_refl, eq_of_test, test_of_ne,
}

abbrev pub Dict {ℓ} : Type ℓ → Type ℓ
Dict V = List (String × V)

module _ {ℓ} {V : Type ℓ} where
  unfoldable pub lookup : String → Dict V → Option V
  lookup k [] = none
  lookup k ((key, v) ∷ d) = if str_eq k key then some v else lookup k d

  unfoldable pub insert : String → V → Dict V → Dict V
  insert k v [] = (k, v) ∷ []
  insert k v ((key, u) ∷ d) =
      let rest = insert k v d in if str_eq k key then (key, v) ∷ d else (key, u) ∷ rest

  abbrev pub values : Dict V → List V
  values [] = []
  values ((_, v) ∷ d) = v ∷ values d

  pub lookup-insert_self : (k : String) (v : V) (d : Dict V) → lookup k (insert k v d) ≡ some v
  unfolding lookup insert
  lookup-insert_self k v [] = rw (str_eq_refl k) refl
  lookup-insert_self k v ((key, u) ∷ d) = elim (Bool-cases (str_eq k key)) [
    | inl here ↦ rw (here, lookup) (rw here refl)
    | inr there ↦ rw (there, lookup) (rw there (lookup-insert_self k v d))
  ]

  pub lookup-insert_ne :
      (k j : String) (v : V) (d : Dict V) → j ≢ k → lookup j (insert k v d) ≡ lookup j d
  unfolding lookup insert
  lookup-insert_ne k j v [] ne = rw (test_of_ne j k ne) refl
  lookup-insert_ne k j v ((key, u) ∷ d) ne = elim (Bool-cases (str_eq k key)) [
    | inl here ↦
        rw (here, lookup) (rw (test_of_ne j key (λ e. ne (e ∙ sym (eq_of_test k key here)))) refl)
    | inr there ↦
        rw (there, lookup)
          (ap (λ r. if str_eq j key then some u else r) (lookup-insert_ne k j v d ne))
  ]
