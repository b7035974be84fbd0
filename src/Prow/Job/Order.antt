-- ===== src/Prow/Job/Order.antt =====
-- `Jobs.Less` and the order from left to right of the rank of the type, the category, the provider, the ID
-- and the group.
use Prim.Native.Nat.{Ordering}
use Prim.Native.String.{compare, then as and_next}
use text.Mathlib.Text.{is_lt, is_eq}
use aws_k8s_tester.Common.{
  String, Bool, true, false, not, List, [], ◌∷◌, ◌≡◌, refl, sym, ◌∙◌, ap, ◌⊎◌, inl, inr, str_eq,
  if◌then◌else◌, true≢false,
}
use aws_k8s_tester.Common.Order.{swap, compare_all, compare_all-IsOrder}
use aws_k8s_tester.Prow.Job.{
  Job, less, less_types, less_keys, type_presubmit, type_postsubmit, type_periodic,
}

abbrev pub rank : String → String
rank type =
    if str_eq type type_presubmit then "0" else if str_eq type type_postsubmit then "1" else "2"

abbrev pub keys : Job → List String
keys j = rank j.job_type ∷ j.category ∷ j.provider ∷ j.id ∷ j.group ∷ []

-- One of the three types that `LoadJobs` gives to jobs.
abbrev pub IsType : String → Type 0
IsType t = (t ≡ type_presubmit) ⊎ (t ≡ type_postsubmit) ⊎ (t ≡ type_periodic)

abbrev pub IsTyped : Job → Type 0
IsTyped j = IsType j.job_type

next_key :
    (o : Ordering) (r : Bool) (q : Ordering)
    → r ≡ is_lt q
    → (if not (is_eq o) then is_lt o else r) ≡ is_lt (and_next o q)
next_key Ordering.lt r q h = refl
next_key Ordering.eq r q h = h
next_key Ordering.gt r q h = refl

last_key : (o : Ordering) → is_lt o ≡ is_lt (and_next o Ordering.eq)
last_key Ordering.lt = refl
last_key Ordering.eq = refl
last_key Ordering.gt = refl

abbrev later_keys : Job → List String
later_keys j = j.category ∷ j.provider ∷ j.id ∷ j.group ∷ []

less_keys-compare_all :
    (a b : Job) → less_keys a b ≡ is_lt (compare_all (later_keys a) (later_keys b))
unfolding less_keys
less_keys-compare_all a b = next_key (compare a.category b.category) _ _ (
    next_key (compare a.provider b.provider) _ _
      (next_key (compare a.id b.id) _ _ (last_key (compare a.group b.group))))

less_types_ranks :
    (a b : String) (r : Bool) (q : Ordering)
    → r ≡ is_lt q
    → IsType a
    → IsType b
    → less_types a b r ≡ is_lt (and_next (compare (rank a) (rank b)) q)
unfolding less_types
less_types_ranks a b r q h (inl e) (inl f) = rw (e, f) h
less_types_ranks a b r q h (inl e) (inr (inl f)) = rw (e, f) refl
less_types_ranks a b r q h (inl e) (inr (inr f)) = rw (e, f) refl
less_types_ranks a b r q h (inr (inl e)) (inl f) = rw (e, f) refl
less_types_ranks a b r q h (inr (inl e)) (inr (inl f)) = rw (e, f) h
less_types_ranks a b r q h (inr (inl e)) (inr (inr f)) = rw (e, f) refl
less_types_ranks a b r q h (inr (inr e)) (inl f) = rw (e, f) refl
less_types_ranks a b r q h (inr (inr e)) (inr (inl f)) = rw (e, f) refl
less_types_ranks a b r q h (inr (inr e)) (inr (inr f)) = rw (e, f) h

pub less-compare_all :
    (a b : Job) → IsTyped a → IsTyped b → less a b ≡ is_lt (compare_all (keys a) (keys b))
unfolding less
less-compare_all a b s t =
    less_types_ranks a.job_type b.job_type _ _ (less_keys-compare_all a b) s t

lt_of_test : (o : Ordering) → is_lt o ≡ true → o ≡ Ordering.lt
lt_of_test Ordering.lt h = refl
lt_of_test Ordering.eq h = absurd (true≢false (sym h))
lt_of_test Ordering.gt h = absurd (true≢false (sym h))

eq_of_tests : (o : Ordering) → is_lt o ≡ false → is_lt (swap o) ≡ false → o ≡ Ordering.eq
eq_of_tests Ordering.lt h k = absurd (true≢false h)
eq_of_tests Ordering.eq h k = refl
eq_of_tests Ordering.gt h k = absurd (true≢false k)

-- On jobs of the three types `Less` is what `sort.Sort` asks for: no two jobs are less than each
-- other, what is less than a lesser job is less, and two jobs of which neither is less agree in type rank, category,
-- provider, ID and group.
pub less_orders :
    (a b c : Job)
    → IsTyped a
    → IsTyped b
    → IsTyped c
    → (less a b ≡ true → less b a ≡ false)
      × (less a b ≡ true → less b c ≡ true → less a c ≡ true)
      × (less a b ≡ false → less b a ≡ false → keys a ≡ keys b)
less_orders a b c s t u =
    rw
      (
        less-compare_all a b s t,
        less-compare_all b a t s,
        less-compare_all b c t u,
        less-compare_all a c s u,
      )
      (
        λ h. rw (compare_all-IsOrder.flip (keys a) (keys b), lt_of_test _ h) refl,
        λ h k.
            rw
              (compare_all-IsOrder.trans (keys a) (keys b) (keys c) (lt_of_test _ h)
                (lt_of_test _ k))
              refl,
        λ h k.
            compare_all-IsOrder.same (keys a) (keys b)
              (eq_of_tests _ h (ap is_lt (sym (compare_all-IsOrder.flip (keys a) (keys b))) ∙ k)),
      )
