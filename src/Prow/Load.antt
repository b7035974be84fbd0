-- ===== src/Prow/Load.antt =====
-- internal/prow/jobs.go, `LoadJobs`. A map is the list of its entries in the order of an iteration.
pub mod Named
pub mod Complete
pub mod Gaps
pub mod Provided
use aws_k8s_tester.Common.{String, List, [], ◌∷◌, ◌++◌, map, Option, none, some, values, Dict, ◌<>◌}
use aws_k8s_tester.Common.Int.{ℤ, pos}
use aws_k8s_tester.Runtime.Outside.{Reply, done, failed}
use aws_k8s_tester.Runtime.Action.{Result, ok, err, panic}
use aws_k8s_tester.Prow.Job.{Job, type_presubmit, type_postsubmit, type_periodic}
use aws_k8s_tester.Prow.Names.{categorize, to_group, to_provider, get_prow_url, get_prow_status_url}
use aws_k8s_tester.Prow.Munge.{Jobs, munge}

-- The jobs that run after a success: the name and the details of the first one, what runs after it in
-- turn, and the next ones.
pub data Afters (B : Type 0) : Type 0 where
  no_more : Afters B
  after : String → B → Afters B → Afters B → Afters B

-- What a loop over the jobs goes through. `LoadJobs` does not look at what runs after them in turn.
unfoldable pub in_turn : {B : Type 0} → Afters B → List (String × B)
in_turn no_more = []
in_turn (after name b nested rest) = (name, b) ∷ in_turn rest

-- What is read of `prowconfig`'s jobs: the name, the branches, and the jobs that run after a success.
pub record Submit : Type 0 where
  pub name : String
  pub branches : List String
  pub run_after_success : Afters (List String)

pub record Periodic : Type 0 where
  pub name : String
  pub interval : ℤ
  pub run_after_success : Afters ℤ

pub record JobConfig : Type 0 where
  pub presubmits : List (String × List Submit)
  pub postsubmits : List (String × List Submit)
  pub periodics : List Periodic

-- What `LoadJobs` calls: reading a file, parsing it, sorting texts, sorting jobs by `Less`.
pub record Tools : Type 0 where
  pub read_file : String → Reply String
  pub parse : String → Reply JobConfig
  pub quoted : String → String
  pub sort_strings : List String → List String
  pub sort_jobs : List Job → List Job

submit_job : String → String → String → String × List String → Job
submit_job url type group (name, branches) = record {
  job_type = type;
  group = to_group group name;
  category = categorize name;
  provider = to_provider group name;
  id = name;
  branches = branches;
  interval = pos 0;
  url = url;
  status_url = get_prow_status_url name;
}

-- A job, and then the jobs that run after its success.
submit_jobs : String → String → String → List Submit → List Job
unfolding submit_job in_turn
submit_jobs url type group [] = []
submit_jobs url type group (v ∷ vs) =
    submit_job url type group (v.name, v.branches)
    ∷ (map (submit_job url type group) (in_turn v.run_after_success)
        ++ submit_jobs url type group vs)

group_jobs : String → String → List (String × List Submit) → List Job
unfolding submit_jobs
group_jobs url type [] = []
group_jobs url type ((group, ps) ∷ rest) = submit_jobs url type group ps ++ group_jobs url type rest

-- The group, the category and the provider are those of `name`, also for the jobs that run after it.
periodic_job : String → String → String × ℤ → Job
periodic_job url name (id, interval) = record {
  job_type = type_periodic;
  group = to_group "periodic" name;
  category = categorize name;
  provider = to_provider "periodic" name;
  id = id;
  branches = [];
  interval = interval;
  url = url;
  status_url = get_prow_status_url id;
}

periodic_jobs : String → List Periodic → List Job
unfolding periodic_job in_turn
periodic_jobs url [] = []
periodic_jobs url (v ∷ vs) =
    periodic_job url v.name (v.name, v.interval)
    ∷ (map (periodic_job url v.name) (in_turn v.run_after_success) ++ periodic_jobs url vs)

-- The jobs of a file, in the order in which they are given to `munge`.
unfoldable pub jobs_of : String → JobConfig → List Job
unfolding group_jobs periodic_jobs
jobs_of url c =
    group_jobs url type_presubmit c.presubmits
    ++ (group_jobs url type_postsubmit c.postsubmits ++ periodic_jobs url c.periodics)

abbrev pub munge_next : (Jobs → Result Jobs) → Option Jobs → Result Jobs
munge_next rest none = panic "assignment to entry in nil map"
munge_next rest (some js) = rest js

unfoldable pub munge_all : (List String → List String) → List Job → Jobs → Result Jobs
munge_all sort [] js = ok js
munge_all sort (j ∷ rest) js = munge_next (munge_all sort rest) (munge sort j js)

abbrev pub load_url : Tools → JobConfig → Jobs → Option String → Result Jobs
load_url t c js none = panic "index out of range"
load_url t c js (some url) = munge_all t.sort_strings (jobs_of url c) js

abbrev pub load_parsed : Tools → String → Jobs → Reply JobConfig → Result Jobs
load_parsed t path js (failed e) =
    err ("failed to parse " <> (t.quoted path <> (" (" <> (e <> ")"))))
load_parsed t path js (done c) = load_url t c js (get_prow_url path)

abbrev pub load_read : Tools → String → Jobs → Reply String → Result Jobs
load_read t path js (failed e) = err e
load_read t path js (done d) = load_parsed t path js (t.parse d)

abbrev pub and_then : Result Jobs → (Jobs → Result Jobs) → Result Jobs
and_then (ok js) k = k js
and_then (err e) k = err e
and_then (panic e) k = panic e
and_then Result.hung k = Result.hung

unfoldable pub load_paths : Tools → List String → Jobs → Result Jobs
load_paths t [] js = ok js
load_paths t (path ∷ rest) js =
    and_then (load_read t path js (t.read_file path)) (load_paths t rest)

abbrev pub no_jobs : Jobs
no_jobs = record { all = []; filed = [] }

abbrev sorted : Tools → Result Jobs → Result (List Job × Jobs)
sorted t (ok js) = ok (t.sort_jobs (values js.all), js)
sorted t (err e) = err e
sorted t (panic e) = panic e
sorted t Result.hung = Result.hung

unfoldable pub load_jobs : Tools → List String → Result (List Job × Jobs)
load_jobs t paths = sorted t (load_paths t paths no_jobs)
