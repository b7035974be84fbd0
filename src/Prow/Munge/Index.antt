-- ===== src/Prow/Munge/Index.antt =====
-- How `munge` changes the map of all jobs.
use aws_k8s_tester.Common.{
  String, List, [], ◌∷◌, ◌≡◌, ◌≢◌, refl, sym, ◌∙◌, Option, none, some, str_eq, inl, inr, Bool-cases,
  eq_of_test, test_of_eq, Dict, lookup, insert, lookup-insert_self, lookup-insert_ne, true≢false,
}
use aws_k8s_tester.Prow.Job.{Job}
use aws_k8s_tester.Prow.Munge.{Jobs, merged, with_filed, add_job, munge}

-- Every job stands under its ID, and no ID twice.
abbrev pub IsIndexed : Dict Job → Type 0
IsIndexed [] = Unit
IsIndexed ((k, j) ∷ d) = (j.id ≡ k) × (lookup k d ≡ none) × IsIndexed d

pub insert-IsIndexed :
    (k : String) (v : Job) (d : Dict Job) → v.id ≡ k → IsIndexed d → IsIndexed (insert k v d)
unfolding insert lookup
insert-IsIndexed k v [] e h = (e, refl, tt)
insert-IsIndexed k v ((key, u) ∷ d) e (same, fresh, rest) = elim (Bool-cases (str_eq k key)) [
  | inl here ↦ rw (here, IsIndexed) (e ∙ eq_of_test k key here, fresh, rest)
  | inr there ↦
      rw (there, IsIndexed)
        (
          same,
          lookup-insert_ne k key v d (λ q. true≢false (sym (test_of_eq k key (sym q)) ∙ there))
              ∙ fresh,
          insert-IsIndexed k v d e rest,
        )
]

pub lookup-IsIndexed :
    (k : String) (j : Job) (d : Dict Job) → IsIndexed d → lookup k d ≡ some j → j.id ≡ k
unfolding lookup
lookup-IsIndexed k j [] h e = cc
lookup-IsIndexed k j ((key, u) ∷ d) (same, fresh, rest) e = elim (Bool-cases (str_eq k key)) [
  | inl here ↦ id_of (rw here at e) ∙ same ∙ sym (eq_of_test k key here)
  | inr there ↦ lookup-IsIndexed k j d rest (rw there at e)
]
  where
    id_of : {a b : Job} → some a ≡ some b → b.id ≡ a.id
    id_of p = cc

abbrev pub IsKnown : Dict Job → String → Type 0
IsKnown d k = lookup k d ≢ none

some_ne_none : {A : Type 0} {a : A} {o : Option A} → o ≡ some a → o ≢ none
some_ne_none e q = cc

pub insert-IsKnown_self : (key : String) (v : Job) (d : Dict Job) → IsKnown (insert key v d) key
insert-IsKnown_self key v d = some_ne_none (lookup-insert_self key v d)

pub insert-IsKnown :
    (k key : String) (v : Job) (d : Dict Job) → IsKnown d k → IsKnown (insert key v d) k
insert-IsKnown k key v d h = elim (Bool-cases (str_eq k key)) [
  | inl here ↦ rw (eq_of_test k key here) (insert-IsKnown_self key v d)
  | inr there ↦ λ e.
      h (sym (lookup-insert_ne key k v d (λ q. true≢false (sym (test_of_eq k key q) ∙ there))) ∙ e)
]

-- What `munge` does to the map of all jobs: it puts a job with the job's ID there.
abbrev pub Grows : Job → Dict Job → Option Jobs → Type 0
Grows job d none = Unit
Grows job d (some js) = (v : Job) × (js.all ≡ insert job.id v d) × (IsIndexed d → v.id ≡ job.id)

with_filed-Grows :
    (job v : Job) (d : Dict Job) (filed : Option (Dict (Dict Job)))
    → (IsIndexed d → v.id ≡ job.id)
    → Grows job d (with_filed (insert job.id v d) filed)
with_filed-Grows job v d none h = tt
with_filed-Grows job v d (some filed) h = (v, refl, h)

add_job-Grows :
    (sort : List String → List String) (job : Job) (js : Jobs) (prev : Option Job)
    → lookup job.id js.all ≡ prev
    → Grows job js.all (add_job sort job js prev)
add_job-Grows sort job js none e = with_filed-Grows job job js.all _ (λ h. refl)
add_job-Grows sort job js (some prev) e =
    with_filed-Grows job (merged sort prev job) js.all _
      (λ h. lookup-IsIndexed job.id prev js.all h e)

pub munge-Grows :
    (sort : List String → List String) (job : Job) (js : Jobs)
    → Grows job js.all (munge sort job js)
unfolding munge
munge-Grows sort job js = add_job-Grows sort job js _ refl
