-- ===== src/Prow/Load/Provided.antt =====
-- The providers of the jobs that `LoadJobs` loads.
use aws_k8s_tester.Common.{
  String, Bool, true, false, ◌||◌, List, [], ◌∷◌, ◌++◌, map, ◌≡◌, refl, subst, ◌⊎◌, inl, inr,
  str_eq, contains, All, if◌then◌else◌, Bool-cases, Option, none, some, Dict, values, insert,
  lookup,
}
use aws_k8s_tester.Runtime.Outside.{Reply, done, failed}
use aws_k8s_tester.Runtime.Action.{Result, ok, err, panic, hung}
use aws_k8s_tester.Prow.Job.{Job, provider_aws, provider_gcp, provider_not_categorized}
use aws_k8s_tester.Prow.Names.{to_provider, get_prow_url}
use aws_k8s_tester.Prow.Munge.{Jobs, munge, merged, add_job, with_filed}
use aws_k8s_tester.Prow.Load.{
  in_turn, Submit, Periodic, JobConfig, Tools, submit_job, submit_jobs, group_jobs, periodic_job,
  periodic_jobs, jobs_of, munge_next, munge_all, load_url, load_parsed, load_read, and_then,
  load_paths, no_jobs, sorted, load_jobs,
}

abbrev pub IsProvider : String → Type 0
IsProvider p = (p ≡ provider_aws) ⊎ (p ≡ provider_gcp) ⊎ (p ≡ provider_not_categorized)

abbrev pub IsProvided : Job → Type 0
IsProvided j = IsProvider j.provider

if-IsProvider :
    (b : Bool) (p q : String) → IsProvider p → IsProvider q → IsProvider (if b then p else q)
if-IsProvider true p q h k = h
if-IsProvider false p q h k = k

to_provider-IsProvider : (name id : String) → IsProvider (to_provider name id)
unfolding to_provider
to_provider-IsProvider name id =
    if-IsProvider (contains name "GoogleCloudPlatform") _ _ (inr (inl refl)) (
      if-IsProvider (str_eq id "pull-kubernetes-multicluster-ingress-test") _ _ (inr (inl refl)) (
        if-IsProvider
          (contains id "-gci" || contains id "-gcp" || contains id "-gce" || contains id "-gke") _ _
          (inr (inl refl))
          (if-IsProvider (contains id "-directconnect" || contains id "-aws" || contains id "-eks")
            _ _ (inl refl) (inr (inr refl)))))

All-++ : (xs ys : List Job) → All IsProvided xs → All IsProvided ys → All IsProvided (xs ++ ys)
All-++ [] ys h k = k
All-++ (x ∷ xs) ys (h, t) k = (h, All-++ xs ys t k)

All-map :
    {B : Type 0} (f : B → Job) (xs : List B)
    → ((x : B) → IsProvided (f x))
    → All IsProvided (map f xs)
All-map f [] h = tt
All-map f (x ∷ xs) h = (h x, All-map f xs h)

submit_jobs-All :
    (url type group : String) (vs : List Submit) → All IsProvided (submit_jobs url type group vs)
unfolding submit_jobs submit_job
submit_jobs-All url type group [] = tt
submit_jobs-All url type group (v ∷ vs) = (
  to_provider-IsProvider group v.name,
  All-++ (map (submit_job url type group) (in_turn v.run_after_success)) _
      (All-map (submit_job url type group) (in_turn v.run_after_success)
        (λ x. to_provider-IsProvider group x.0))
      (submit_jobs-All url type group vs),
)

group_jobs-All :
    (url type : String) (gs : List (String × List Submit)) → All IsProvided (group_jobs url type gs)
unfolding group_jobs
group_jobs-All url type [] = tt
group_jobs-All url type ((group, ps) ∷ rest) =
    All-++ (submit_jobs url type group ps) _ (submit_jobs-All url type group ps)
      (group_jobs-All url type rest)

periodic_jobs-All : (url : String) (vs : List Periodic) → All IsProvided (periodic_jobs url vs)
unfolding periodic_jobs periodic_job
periodic_jobs-All url [] = tt
periodic_jobs-All url (v ∷ vs) = (
  to_provider-IsProvider "periodic" v.name,
  All-++ (map (periodic_job url v.name) (in_turn v.run_after_success)) _
      (All-map (periodic_job url v.name) (in_turn v.run_after_success)
        (λ x. to_provider-IsProvider "periodic" v.name))
      (periodic_jobs-All url vs),
)

jobs_of-All : (url : String) (c : JobConfig) → All IsProvided (jobs_of url c)
unfolding jobs_of
jobs_of-All url c = All-++ (group_jobs url _ c.presubmits) _ (group_jobs-All url _ c.presubmits) (
    All-++ (group_jobs url _ c.postsubmits) _ (group_jobs-All url _ c.postsubmits)
      (periodic_jobs-All url c.periodics))

abbrev pub AllProvided : Dict Job → Type 0
AllProvided d = All IsProvided (values d)

insert-AllProvided :
    (k : String) (v : Job) (d : Dict Job)
    → IsProvided v
    → AllProvided d
    → AllProvided (insert k v d)
unfolding insert
insert-AllProvided k v [] p h = (p, tt)
insert-AllProvided k v ((key, u) ∷ d) p (q, h) = elim (Bool-cases (str_eq k key)) [
  | inl here ↦ rw (here, AllProvided) (p, h)
  | inr there ↦ rw (there, AllProvided) (q, insert-AllProvided k v d p h)
]

lookup-IsProvided :
    (k : String) (j : Job) (d : Dict Job) → AllProvided d → lookup k d ≡ some j → IsProvided j
unfolding lookup
lookup-IsProvided k j [] h e = cc
lookup-IsProvided k j ((key, u) ∷ d) (q, h) e = elim (Bool-cases (str_eq k key)) [
  | inl here ↦ found (rw here at e)
  | inr there ↦ lookup-IsProvided k j d h (rw there at e)
]
  where
    found : some u ≡ some j → IsProvided j
    found p = subst (λ o. provided o) p q
      where
        provided : Option Job → Type 0
        provided none = Unit
        provided (some x) = IsProvided x

abbrev IfSome : Option Jobs → Type 0
IfSome none = Unit
IfSome (some js) = AllProvided js.all

-- What a successful step returns.
abbrev IfOk : Result Jobs → Type 0
IfOk (ok js) = AllProvided js.all
IfOk (err e) = Unit
IfOk (panic e) = Unit
IfOk hung = Unit

with_filed-IfSome :
    (d : Dict Job) (filed : Option (Dict (Dict Job))) → AllProvided d → IfSome (with_filed d filed)
with_filed-IfSome d none h = tt
with_filed-IfSome d (some filed) h = h

add_job-IfSome :
    (sort : List String → List String) (job : Job) (js : Jobs) (prev : Option Job)
    → lookup job.id js.all ≡ prev
    → IsProvided job
    → AllProvided js.all
    → IfSome (add_job sort job js prev)
add_job-IfSome sort job js none e p h =
    with_filed-IfSome _ _ (insert-AllProvided job.id job js.all p h)
add_job-IfSome sort job js (some prev) e p h = with_filed-IfSome _ _ (
    insert-AllProvided job.id (merged sort prev job) js.all
      (lookup-IsProvided job.id prev js.all h e) h)

munge_next-IfOk :
    (rest : Jobs → Result Jobs) (r : Option Jobs)
    → IfSome r
    → ((mid : Jobs) → AllProvided mid.all → IfOk (rest mid))
    → IfOk (munge_next rest r)
munge_next-IfOk rest none h k = tt
munge_next-IfOk rest (some mid) h k = k mid h

munge_all-IfOk :
    (sort : List String → List String) (jobs : List Job) (js : Jobs)
    → All IsProvided jobs
    → AllProvided js.all
    → IfOk (munge_all sort jobs js)
unfolding munge_all munge
munge_all-IfOk sort [] js p h = h
munge_all-IfOk sort (j ∷ jobs) js (p, ps) h =
    munge_next-IfOk (munge_all sort jobs) _ (add_job-IfSome sort j js _ refl p h)
      (λ mid k. munge_all-IfOk sort jobs mid ps k)

-- With the sorted list.
abbrev pub IfLoaded : Result (List Job × Jobs) → Type 0
IfLoaded (ok (jobs, js)) = AllProvided js.all
IfLoaded (err e) = Unit
IfLoaded (panic e) = Unit
IfLoaded hung = Unit

module _ (t : Tools) where
  load_url-IfOk :
      (c : JobConfig) (js : Jobs) (url : Option String)
      → AllProvided js.all
      → IfOk (load_url t c js url)
  load_url-IfOk c js none h = tt
  load_url-IfOk c js (some url) h =
      munge_all-IfOk t.sort_strings (jobs_of url c) js (jobs_of-All url c) h

  load_parsed-IfOk :
      (path : String) (js : Jobs) (c : Reply JobConfig)
      → AllProvided js.all
      → IfOk (load_parsed t path js c)
  load_parsed-IfOk path js (failed e) h = tt
  load_parsed-IfOk path js (done c) h = load_url-IfOk c js (get_prow_url path) h

  load_read-IfOk :
      (path : String) (js : Jobs) (d : Reply String)
      → AllProvided js.all
      → IfOk (load_read t path js d)
  load_read-IfOk path js (failed e) h = tt
  load_read-IfOk path js (done d) h = load_parsed-IfOk path js (t.parse d) h

  and_then-IfOk :
      (r : Result Jobs) (rest : Jobs → Result Jobs)
      → IfOk r
      → ((mid : Jobs) → AllProvided mid.all → IfOk (rest mid))
      → IfOk (and_then r rest)
  and_then-IfOk (ok mid) rest h k = k mid h
  and_then-IfOk (err e) rest h k = tt
  and_then-IfOk (panic e) rest h k = tt
  and_then-IfOk hung rest h k = tt

  load_paths-IfOk :
      (paths : List String) (js : Jobs) → AllProvided js.all → IfOk (load_paths t paths js)
  unfolding load_paths
  load_paths-IfOk [] js h = h
  load_paths-IfOk (path ∷ paths) js h =
      and_then-IfOk (load_read t path js (t.read_file path)) _
        (load_read-IfOk path js (t.read_file path) h) (load_paths-IfOk paths)

  sorted-IfLoaded : (r : Result Jobs) → IfOk r → IfLoaded (sorted t r)
  sorted-IfLoaded (ok js) h = h
  sorted-IfLoaded (err e) h = tt
  sorted-IfLoaded (panic e) h = tt
  sorted-IfLoaded hung h = tt

  pub load_jobs-IfLoaded : (paths : List String) → IfLoaded (load_jobs t paths)
  unfolding load_jobs
  load_jobs-IfLoaded paths =
      sorted-IfLoaded (load_paths t paths no_jobs) (load_paths-IfOk paths no_jobs tt)
