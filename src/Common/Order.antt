-- ===== src/Common/Order.antt =====
-- Comparisons that are strict total orders: of numbers, of texts, and of lists of texts from left
-- to right.
use Prim.Native.Nat.{ℕ, Ordering, compare as compare_ℕ}
use Prim.Native.Char.{code}
use Prim.Native.String.compare
use Prim.Native.String.{String, [], ◌∷◌, compare, then}
use mathlib.Core.Path.{◌≡◌, refl, sym, ◌∙◌, ap}
use mathlib.Core.List.{List, [] as []ᴸ, ◌∷◌ as ◌∷ᴸ◌}
use native.Mathlib.Omega.{arith, compare-eq}
use text.Mathlib.TextEquality.{path_by_compare}

abbrev pub swap : Ordering → Ordering
swap Ordering.lt = Ordering.gt
swap Ordering.eq = Ordering.eq
swap Ordering.gt = Ordering.lt

pub swap-swap : (o : Ordering) → swap (swap o) ≡ o
swap-swap Ordering.lt = refl
swap-swap Ordering.eq = refl
swap-swap Ordering.gt = refl

pub record IsOrder {A : Type 0} (cmp : A → A → Ordering) : Type 0 where
  pub flip : (a b : A) → cmp b a ≡ swap (cmp a b)
  pub same : (a b : A) → cmp a b ≡ Ordering.eq → a ≡ b
  pub trans : (a b c : A) → cmp a b ≡ Ordering.lt → cmp b c ≡ Ordering.lt → cmp a c ≡ Ordering.lt

swap-then : (o r : Ordering) → swap (then o r) ≡ then (swap o) (swap r)
swap-then Ordering.lt r = refl
swap-then Ordering.eq r = refl
swap-then Ordering.gt r = refl

then_trans :
    (o₁ o₂ o₃ r₁ r₂ r₃ : Ordering)
    → (o₁ ≡ Ordering.lt → o₂ ≡ Ordering.lt → o₃ ≡ Ordering.lt)
    → (o₁ ≡ Ordering.eq → o₃ ≡ o₂)
    → (o₂ ≡ Ordering.eq → o₃ ≡ o₁)
    → (r₁ ≡ Ordering.lt → r₂ ≡ Ordering.lt → r₃ ≡ Ordering.lt)
    → then o₁ r₁ ≡ Ordering.lt
    → then o₂ r₂ ≡ Ordering.lt
    → then o₃ r₃ ≡ Ordering.lt
then_trans Ordering.lt Ordering.lt o₃ r₁ r₂ r₃ t l r s h k = rw (t refl refl) refl
then_trans Ordering.lt Ordering.eq o₃ r₁ r₂ r₃ t l r s h k = rw (r refl) refl
then_trans Ordering.lt Ordering.gt o₃ r₁ r₂ r₃ t l r s h k = cc
then_trans Ordering.eq Ordering.lt o₃ r₁ r₂ r₃ t l r s h k = rw (l refl) refl
then_trans Ordering.eq Ordering.eq o₃ r₁ r₂ r₃ t l r s h k = rw (l refl) (s h k)
then_trans Ordering.eq Ordering.gt o₃ r₁ r₂ r₃ t l r s h k = cc
then_trans Ordering.gt o₂ o₃ r₁ r₂ r₃ t l r s h k = cc

not_lt : Ordering.gt ≡ Ordering.lt → ⊥
not_lt h = cc

then-same : (o r : Ordering) → then o r ≡ Ordering.eq → (o ≡ Ordering.eq) × (r ≡ Ordering.eq)
then-same Ordering.lt r h = cc
then-same Ordering.eq r h = (refl, h)
then-same Ordering.gt r h = cc

compare_ℕ-flip : (m n : ℕ) → compare_ℕ n m ≡ swap (compare_ℕ m n)
compare_ℕ-flip m n = ground arith

compare_ℕ-trans :
    (m n k : ℕ)
    → compare_ℕ m n ≡ Ordering.lt
    → compare_ℕ n k ≡ Ordering.lt
    → compare_ℕ m k ≡ Ordering.lt
compare_ℕ-trans m n k h g = ground arith

compare-flip : (s t : String) → compare t s ≡ swap (compare s t)
compare-flip [] [] = refl
compare-flip [] (d ∷ t) = rw (compare.cons-nil, compare.nil-cons) refl
compare-flip (c ∷ s) [] = rw (compare.cons-nil, compare.nil-cons) refl
compare-flip (c ∷ s) (d ∷ t) =
    rw
      (
        compare.cons-cons,
        compare.cons-cons,
        swap-then,
        ← compare_ℕ-flip (code c) (code d),
        ← compare-flip s t,
      )
      refl

compare_trans :
    (s t u : String)
    → compare s t ≡ Ordering.lt
    → compare t u ≡ Ordering.lt
    → compare s u ≡ Ordering.lt
compare_trans [] [] u h g = cc
compare_trans [] (d ∷ t) [] h g = absurd (not_lt (sym (compare.cons-nil d t) ∙ g))
compare_trans [] (d ∷ t) (e ∷ u) h g = compare.nil-cons e u
compare_trans (c ∷ s) [] u h g = absurd (not_lt (sym (compare.cons-nil c s) ∙ h))
compare_trans (c ∷ s) (d ∷ t) [] h g = absurd (not_lt (sym (compare.cons-nil d t) ∙ g))
compare_trans (c ∷ s) (d ∷ t) (e ∷ u) h g =
    compare.cons-cons c e s u
    ∙ then_trans (compare_ℕ (code c) (code d)) (compare_ℕ (code d) (code e))
        (compare_ℕ (code c) (code e)) (compare s t) (compare t u) (compare s u)
        (compare_ℕ-trans (code c) (code d) (code e))
        (λ q. ap (λ x. compare_ℕ x (code e)) (compare-eq (code c) (code d) q))
        (λ q. ap (compare_ℕ (code c)) (sym (compare-eq (code d) (code e) q))) (compare_trans s t u)
        (sym (compare.cons-cons c d s t) ∙ h) (sym (compare.cons-cons d e t u) ∙ g)

pub compare-IsOrder : IsOrder compare
compare-IsOrder = record { flip = compare-flip; same = path_by_compare; trans = compare_trans }

-- The first difference decides.
abbrev pub compare_all : List String → List String → Ordering
compare_all []ᴸ []ᴸ = Ordering.eq
compare_all []ᴸ (t ∷ᴸ ts) = Ordering.lt
compare_all (s ∷ᴸ ss) []ᴸ = Ordering.gt
compare_all (s ∷ᴸ ss) (t ∷ᴸ ts) = then (compare s t) (compare_all ss ts)

compare_all-flip : (ss ts : List String) → compare_all ts ss ≡ swap (compare_all ss ts)
compare_all-flip []ᴸ []ᴸ = refl
compare_all-flip []ᴸ (t ∷ᴸ ts) = refl
compare_all-flip (s ∷ᴸ ss) []ᴸ = refl
compare_all-flip (s ∷ᴸ ss) (t ∷ᴸ ts) = rw (compare-flip s t, compare_all-flip ss ts, swap-then) refl

compare_all-same : (ss ts : List String) → compare_all ss ts ≡ Ordering.eq → ss ≡ ts
compare_all-same []ᴸ []ᴸ h = refl
compare_all-same []ᴸ (t ∷ᴸ ts) h = cc
compare_all-same (s ∷ᴸ ss) []ᴸ h = cc
compare_all-same (s ∷ᴸ ss) (t ∷ᴸ ts) h =
    let (first, rest) = then-same (compare s t) (compare_all ss ts) h in
    rw (path_by_compare s t first, compare_all-same ss ts rest) refl

compare_all_trans :
    (ss ts us : List String)
    → compare_all ss ts ≡ Ordering.lt
    → compare_all ts us ≡ Ordering.lt
    → compare_all ss us ≡ Ordering.lt
compare_all_trans []ᴸ []ᴸ us h g = cc
compare_all_trans []ᴸ (t ∷ᴸ ts) []ᴸ h g = cc
compare_all_trans []ᴸ (t ∷ᴸ ts) (u ∷ᴸ us) h g = refl
compare_all_trans (s ∷ᴸ ss) []ᴸ us h g = cc
compare_all_trans (s ∷ᴸ ss) (t ∷ᴸ ts) []ᴸ h g = cc
compare_all_trans (s ∷ᴸ ss) (t ∷ᴸ ts) (u ∷ᴸ us) h g =
    then_trans (compare s t) (compare t u) (compare s u) (compare_all ss ts) (compare_all ts us)
      (compare_all ss us) (compare_trans s t u) (λ q. ap (λ x. compare x u) (path_by_compare s t q))
      (λ q. ap (compare s) (sym (path_by_compare t u q))) (compare_all_trans ss ts us) h g

pub compare_all-IsOrder : IsOrder compare_all
compare_all-IsOrder = record {
  flip = compare_all-flip;
  same = compare_all-same;
  trans = compare_all_trans;
}
