-- ===== src/Prow/Load/Named.antt =====
-- The names in a configuration of jobs: those of the jobs, and of the jobs that run after one of them.
use aws_k8s_tester.Common.{String, List, [], ◌∷◌, ◌++◌, map, ◌≡◌, refl, ap, ◌∙◌, All, subst}
use aws_k8s_tester.Prow.Job.{Job, type_presubmit, type_postsubmit}
use aws_k8s_tester.Prow.Load.{
  Afters, no_more, after, in_turn, Submit, Periodic, JobConfig, submit_job, submit_jobs, group_jobs,
  periodic_job, periodic_jobs, jobs_of,
}

names_after : {B : Type 0} → Afters B → List String
names_after no_more = []
names_after (after name b nested rest) = name ∷ names_after rest

submit_names : List Submit → List String
submit_names [] = []
submit_names (v ∷ vs) = v.name ∷ (names_after v.run_after_success ++ submit_names vs)

group_names : List (String × List Submit) → List String
unfolding submit_names
group_names [] = []
group_names ((group, vs) ∷ rest) = submit_names vs ++ group_names rest

periodic_names : List Periodic → List String
periodic_names [] = []
periodic_names (v ∷ vs) = v.name ∷ (names_after v.run_after_success ++ periodic_names vs)

-- The presubmits, the postsubmits and the periodic jobs.
unfoldable pub names_in : JobConfig → List String
unfolding group_names periodic_names names_after
names_in c = group_names c.presubmits ++ (group_names c.postsubmits ++ periodic_names c.periodics)

abbrev ids : List Job → List String
ids js = map (λ j. j.id) js

ids-append : (xs ys : List Job) → ids (xs ++ ys) ≡ ids xs ++ ids ys
ids-append [] ys = refl
ids-append (x ∷ xs) ys = ap (λ ns. x.id ∷ ns) (ids-append xs ys)

ids_after :
    {B : Type 0} (f : String × B → Job) (vs : Afters B)
    → ((p : String × B) → (f p).id ≡ p.0)
    → ids (map f (in_turn vs)) ≡ names_after vs
unfolding in_turn names_after
ids_after f no_more h = refl
ids_after f (after name b nested rest) h = rw (h (name, b), ids_after f rest h) refl

ids-submit_jobs :
    (url type group : String) (vs : List Submit)
    → ids (submit_jobs url type group vs) ≡ submit_names vs
unfolding submit_jobs submit_names submit_job
ids-submit_jobs url type group [] = refl
ids-submit_jobs url type group (v ∷ vs) =
    ap (λ ns. v.name ∷ ns)
      (ids-append (map (submit_job url type group) (in_turn v.run_after_success)) _
        ∙ rw
            (
              ids_after (submit_job url type group) v.run_after_success (λ p. refl),
              ids-submit_jobs url type group vs,
            )
            refl)

ids-group_jobs :
    (url type : String) (gs : List (String × List Submit))
    → ids (group_jobs url type gs) ≡ group_names gs
unfolding group_jobs group_names
ids-group_jobs url type [] = refl
ids-group_jobs url type ((group, vs) ∷ rest) =
    ids-append (submit_jobs url type group vs) _
    ∙ rw (ids-submit_jobs url type group vs, ids-group_jobs url type rest) refl

ids-periodic_jobs :
    (url : String) (vs : List Periodic) → ids (periodic_jobs url vs) ≡ periodic_names vs
unfolding periodic_jobs periodic_names periodic_job
ids-periodic_jobs url [] = refl
ids-periodic_jobs url (v ∷ vs) =
    ap (λ ns. v.name ∷ ns)
      (ids-append (map (periodic_job url v.name) (in_turn v.run_after_success)) _
        ∙ rw
            (
              ids_after (periodic_job url v.name) v.run_after_success (λ p. refl),
              ids-periodic_jobs url vs,
            )
            refl)

ids-jobs_of : (url : String) (c : JobConfig) → ids (jobs_of url c) ≡ names_in c
unfolding jobs_of names_in
ids-jobs_of url c =
    ids-append (group_jobs url type_presubmit c.presubmits) _
    ∙ rw
        (
          ids-append (group_jobs url type_postsubmit c.postsubmits) (periodic_jobs url c.periodics),
          ids-group_jobs url type_presubmit c.presubmits,
          ids-group_jobs url type_postsubmit c.postsubmits,
          ids-periodic_jobs url c.periodics,
        )
        refl

All-ids : (P : String → Type 0) (js : List Job) → All (λ j. P j.id) js → All P (ids js)
All-ids P [] h = tt
All-ids P (j ∷ js) (p, h) = (p, All-ids P js h)

-- What holds of the IDs of the jobs holds of the names.
pub All-names_in :
    (P : String → Type 0) (url : String) (c : JobConfig)
    → All (λ j. P j.id) (jobs_of url c)
    → All P (names_in c)
All-names_in P url c h = subst (All P) (ids-jobs_of url c) (All-ids P (jobs_of url c) h)
