-- ===== src/InstanceTypes/Rows.antt =====
-- The table of instance types as a whole: a bound on the pods of its rows.
use aws_k8s_tester.Common.{
  ℕ, ◌≤◌, String, List, [], ◌∷◌, Bool, true, false, ◌&&◌, ◌≡◌, refl, sym, subst, inl, inr, Option,
  none, some, str_eq, leb, Bool-cases, true≢false, arith,
}
use aws_k8s_tester.Common.Int.{ℤ, pos, negsuc}
use aws_k8s_tester.InstanceTypes.Row.{InstanceType}
use aws_k8s_tester.InstanceTypes.{instance_types, find}

abbrev pub max_pods_bound : ℕ
max_pods_bound = 737

abbrev is_bounded : ℤ → Bool
is_bounded (pos n) = leb n max_pods_bound
is_bounded (negsuc n) = false

abbrev all_bounded : List (String × InstanceType) → Bool
all_bounded [] = true
all_bounded ((_, v) ∷ rest) = is_bounded v.max_pods && all_bounded rest

table_bounded : all_bounded instance_types ≡ true
table_bounded = refl

bounded : (n : ℤ) → is_bounded n ≡ true → (k : ℕ) × (n ≡ pos k) × (k ≤ max_pods_bound)
bounded (pos k) h = (k, refl, ground arith)
bounded (negsuc k) h = absurd (true≢false (sym h))

and-left : (a b : Bool) → (a && b) ≡ true → a ≡ true
and-left true b h = refl
and-left false b h = h

and-right : (a b : Bool) → (a && b) ≡ true → b ≡ true
and-right true b h = h
and-right false b h = absurd (true≢false (sym h))

abbrev row_bounded : Option InstanceType → Bool
row_bounded none = false
row_bounded (some v) = is_bounded v.max_pods

find-bounded :
    (s : String) (rows : List (String × InstanceType)) (v : InstanceType)
    → all_bounded rows ≡ true
    → find s rows ≡ some v
    → is_bounded v.max_pods ≡ true
find-bounded s [] v h e = cc
find-bounded s ((key, u) ∷ rest) v h e = elim (Bool-cases (str_eq s key)) [
  | inl here ↦ subst (λ x. row_bounded x ≡ true) (rw here at e) (and-left _ _ h)
  | inr there ↦ find-bounded s rest v (and-right _ _ h) (rw there at e)
]

pub max_pods_of_known :
    (s : String) (v : InstanceType)
    → find s instance_types ≡ some v
    → (k : ℕ) × (v.max_pods ≡ pos k) × (k ≤ max_pods_bound)
max_pods_of_known s v e = bounded v.max_pods (find-bounded s instance_types v table_bounded e)
