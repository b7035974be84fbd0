-- ===== src/Prow/Status/Totals.antt =====
-- The counts of the page after a refresh.
use aws_k8s_tester.Common.{
  ◌+◌, ◌-◌, String, Bool, true, false, List, [], ◌∷◌, ◌≡◌, refl, inl, inr, All, arith, ltb,
  if◌then◌else◌, Option, none, some, values,
}
use aws_k8s_tester.Runtime.Outside.{Reply, done, failed}
use aws_k8s_tester.Runtime.Action.{Result, ok, err, panic, hung}
use aws_k8s_tester.Prow.Job.{Job}
use aws_k8s_tester.Prow.Munge.{Jobs}
use aws_k8s_tester.Prow.Load.{load_jobs}
use aws_k8s_tester.Prow.Load.Provided.{IsProvided, AllProvided, IfLoaded, load_jobs-IfLoaded}
use aws_k8s_tester.Prow.Status.{
  Counts, Status, Sources, Git, with_short, shown, timed, count_job, count_jobs, counts, loaded,
  downloaded, fetched_test_infra, fetched_k8s, refresh,
}

abbrev pub AddsUp : Counts → Type 0
AddsUp k = k.aws + k.gcp + k.not_categorized ≡ k.total

count_job-AddsUp : (v : Job) (k : Counts) → IsProvided v → AddsUp k → AddsUp (count_job v k)
unfolding count_job
count_job-AddsUp v k (inl e) h = rw e (omega (arith, h))
count_job-AddsUp v k (inr (inl e)) h = rw e (omega (arith, h))
count_job-AddsUp v k (inr (inr e)) h = rw e (omega (arith, h))

count_jobs-AddsUp : (vs : List Job) → All IsProvided vs → AddsUp (count_jobs vs)
unfolding count_jobs
count_jobs-AddsUp [] h = refl
count_jobs-AddsUp (v ∷ vs) (p, h) = count_job-AddsUp v (count_jobs vs) p (count_jobs-AddsUp vs h)

-- The jobs of the page have one of the three providers.
abbrev IsFiled : Status → Type 0
IsFiled s = AllProvided s.maps.all

if-IsFiled :
    (b : Bool) (m n : Result (Unit {0}) × Status)
    → IsFiled m.1
    → IsFiled n.1
    → IsFiled (if b then m else n).1
if-IsFiled true m n h k = h
if-IsFiled false m n h k = k

module _ (src : Sources) (k : Counts) where
  shown-IsFiled :
      (t : Status) (r : Option (List (Git × String))) → IsFiled t → IsFiled (shown src t r).1
  shown-IsFiled t none h = h
  shown-IsFiled t (some gs) h = h

  loaded-IsFiled :
      (s : Status) (r : Result (List Job × Jobs))
      → IsFiled s
      → IfLoaded r
      → IsFiled (loaded src k s r).1
  loaded-IsFiled s (ok (jobs, maps)) h l =
      shown-IsFiled (timed src s jobs maps) (with_short (s.git_k8s ∷ s.git_test_infra ∷ [])) l
  loaded-IsFiled s (err e) h l = tt
  loaded-IsFiled s (panic e) h l = h
  loaded-IsFiled s hung h l = h

  downloaded-IsFiled :
      (s : Status) (r : Reply (List String)) → IsFiled s → IsFiled (downloaded src k s r).1
  downloaded-IsFiled s (failed e) h = h
  downloaded-IsFiled s (done paths) h =
      loaded-IsFiled s (load_jobs src.tools paths) h (load_jobs-IfLoaded src.tools paths)

  fetched_test_infra-IsFiled :
      (s : Status) (r : Git × Option String) → IsFiled s → IsFiled (fetched_test_infra src k s r).1
  fetched_test_infra-IsFiled s (g, some e) h = h
  fetched_test_infra-IsFiled s (g, none) h =
      downloaded-IsFiled (record s { git_test_infra = g }) src.download h

  fetched_k8s-IsFiled :
      (s : Status) (r : Git × Option String) → IsFiled s → IsFiled (fetched_k8s src k s r).1
  fetched_k8s-IsFiled s (g, some e) h = h
  fetched_k8s-IsFiled s (g, none) h = fetched_test_infra-IsFiled (record s { git_k8s = g }) _ h

refresh-IsFiled : (src : Sources) (s : Status) → IsFiled s → IsFiled (refresh src s).1
unfolding refresh
refresh-IsFiled src s h =
    if-IsFiled (ltb (src.started - s.updated) 10800000000000) _ _ h
      (fetched_k8s-IsFiled src (counts s) s _ h)

-- On a page whose jobs have one of the three providers, the counts of the providers add up to the number of
-- jobs after a refresh, however it ends.
pub refresh-AddsUp :
    (src : Sources) (s : Status)
    → All IsProvided (values s.maps.all)
    → AddsUp (counts (refresh src s).1)
refresh-AddsUp src s h =
    count_jobs-AddsUp (values (refresh src s).1.maps.all) (refresh-IsFiled src s h)
