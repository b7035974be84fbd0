-- ===== src/Prow/Load/Complete.antt =====
-- What `LoadJobs` stores under which ID.
use aws_k8s_tester.Common.{
  String, List, [], ◌∷◌, ◌≡◌, refl, sym, subst, Option, none, some, All, values,
}
use aws_k8s_tester.Runtime.Outside.{Reply, done, failed}
use aws_k8s_tester.Runtime.Action.{Result, ok, err, panic, hung}
use aws_k8s_tester.Prow.Job.{Job}
use aws_k8s_tester.Prow.Names.{get_prow_url}
use aws_k8s_tester.Prow.Munge.{Jobs}
use aws_k8s_tester.Prow.Munge.Index.{
  IsIndexed, IsKnown, insert-IsIndexed, insert-IsKnown, insert-IsKnown_self, Grows, munge-Grows,
}
use aws_k8s_tester.Prow.Load.Named.{names_in, All-names_in}
use aws_k8s_tester.Prow.Load.{
  JobConfig, Tools, jobs_of, munge_next, munge_all, load_url, load_parsed, load_read, and_then,
  load_paths, no_jobs, sorted, load_jobs,
}

-- What a successful step has made of the jobs before it.
abbrev Extends : Jobs → Jobs → Type 0
Extends old new =
    (IsIndexed old.all → IsIndexed new.all) × ((k : String) → IsKnown old.all k → IsKnown new.all k)

Extends-refl : (js : Jobs) → Extends js js
Extends-refl js = (λ h. h, λ k h. h)

Extends-trans : (a b c : Jobs) → Extends a b → Extends b c → Extends a c
Extends-trans a b c f g = (λ h. g.0 (f.0 h), λ k h. g.1 k (f.1 k h))

-- The jobs of a list have been added.
abbrev Adds : Jobs → List Job → Result Jobs → Type 0
Adds old jobs (ok new) = Extends old new × All (λ j. IsKnown new.all j.id) jobs
Adds old jobs (err e) = Unit
Adds old jobs (panic e) = Unit
Adds old jobs hung = Unit

grown-Extends :
    (job : Job) (old new : Jobs)
    → Grows job old.all (some new)
    → Extends old new × IsKnown new.all job.id
grown-Extends job old new (v, e, same) = (
  (
    λ h. subst IsIndexed (sym e) (insert-IsIndexed job.id v old.all (same h) h),
    λ k h. subst (λ d. IsKnown d k) (sym e) (insert-IsKnown k job.id v old.all h),
  ),
  subst (λ d. IsKnown d job.id) (sym e) (insert-IsKnown_self job.id v old.all),
)

Adds-cons :
    (job : Job) (jobs : List Job) (old mid : Jobs) (r : Result Jobs)
    → Extends old mid × IsKnown mid.all job.id
    → Adds mid jobs r
    → Adds old (job ∷ jobs) r
Adds-cons job jobs old mid (ok new) (e, known) (f, rest) =
    (Extends-trans old mid new e f, (f.1 job.id known, rest))
Adds-cons job jobs old mid (err e) g h = tt
Adds-cons job jobs old mid (panic e) g h = tt
Adds-cons job jobs old mid hung g h = tt

munge_next-Adds :
    (job : Job) (jobs : List Job) (old : Jobs) (rest : Jobs → Result Jobs) (r : Option Jobs)
    → Grows job old.all r
    → ((mid : Jobs) → Adds mid jobs (rest mid))
    → Adds old (job ∷ jobs) (munge_next rest r)
munge_next-Adds job jobs old rest none g h = tt
munge_next-Adds job jobs old rest (some mid) g h =
    Adds-cons job jobs old mid (rest mid) (grown-Extends job old mid g) (h mid)

munge_all-Adds :
    (sort : List String → List String) (jobs : List Job) (js : Jobs)
    → Adds js jobs (munge_all sort jobs js)
unfolding munge_all
munge_all-Adds sort [] js = (Extends-refl js, tt)
munge_all-Adds sort (j ∷ jobs) js =
    munge_next-Adds j jobs js (munge_all sort jobs) _ (munge-Grows sort j js)
      (munge_all-Adds sort jobs)

-- The jobs of a file that can be read and parsed.
abbrev parsed_jobs : Option String → Reply JobConfig → List Job
parsed_jobs none c = []
parsed_jobs (some url) (failed e) = []
parsed_jobs (some url) (done c) = jobs_of url c

abbrev read_jobs : Tools → String → Reply String → List Job
read_jobs t path (failed e) = []
read_jobs t path (done d) = parsed_jobs (get_prow_url path) (t.parse d)

abbrev jobs_in : Tools → String → List Job
jobs_in t path = read_jobs t path (t.read_file path)

load_url-Adds :
    (t : Tools) (c : JobConfig) (js : Jobs) (url : Option String)
    → Adds js (parsed_jobs url (done c)) (load_url t c js url)
load_url-Adds t c js none = tt
load_url-Adds t c js (some url) = munge_all-Adds t.sort_strings (jobs_of url c) js

load_parsed-Adds :
    (t : Tools) (path : String) (js : Jobs) (c : Reply JobConfig)
    → Adds js (parsed_jobs (get_prow_url path) c) (load_parsed t path js c)
load_parsed-Adds t path js (failed e) = tt
load_parsed-Adds t path js (done c) = load_url-Adds t c js (get_prow_url path)

load_read-Adds :
    (t : Tools) (path : String) (js : Jobs) (d : Reply String)
    → Adds js (read_jobs t path d) (load_read t path js d)
load_read-Adds t path js (failed e) = tt
load_read-Adds t path js (done d) = load_parsed-Adds t path js (t.parse d)

-- The jobs of all files have been added.
abbrev AddsFiles : Tools → Jobs → List String → Result Jobs → Type 0
AddsFiles t old paths (ok new) =
    Extends old new × All (λ path. All (λ j. IsKnown new.all j.id) (jobs_in t path)) paths
AddsFiles t old paths (err e) = Unit
AddsFiles t old paths (panic e) = Unit
AddsFiles t old paths hung = Unit

still-IsKnown :
    (jobs : List Job) (old new : Jobs)
    → Extends old new
    → All (λ j. IsKnown old.all j.id) jobs
    → All (λ j. IsKnown new.all j.id) jobs
still-IsKnown [] old new e h = tt
still-IsKnown (j ∷ jobs) old new e (known, rest) =
    (e.1 j.id known, still-IsKnown jobs old new e rest)

AddsFiles-cons :
    (t : Tools) (path : String) (paths : List String) (old mid : Jobs) (r : Result Jobs)
    → Adds old (jobs_in t path) (ok mid)
    → AddsFiles t mid paths r
    → AddsFiles t old (path ∷ paths) r
AddsFiles-cons t path paths old mid (ok new) (e, known) (f, rest) =
    (Extends-trans old mid new e f, (still-IsKnown (jobs_in t path) mid new f known, rest))
AddsFiles-cons t path paths old mid (err e) g h = tt
AddsFiles-cons t path paths old mid (panic e) g h = tt
AddsFiles-cons t path paths old mid hung g h = tt

and_then-AddsFiles :
    (t : Tools) (path : String) (paths : List String) (old : Jobs) (r : Result Jobs)
    (rest : Jobs → Result Jobs)
    → Adds old (jobs_in t path) r
    → ((mid : Jobs) → AddsFiles t mid paths (rest mid))
    → AddsFiles t old (path ∷ paths) (and_then r rest)
and_then-AddsFiles t path paths old (ok mid) rest g h =
    AddsFiles-cons t path paths old mid (rest mid) g (h mid)
and_then-AddsFiles t path paths old (err e) rest g h = tt
and_then-AddsFiles t path paths old (panic e) rest g h = tt
and_then-AddsFiles t path paths old hung rest g h = tt

load_paths-AddsFiles :
    (t : Tools) (paths : List String) (js : Jobs) → AddsFiles t js paths (load_paths t paths js)
unfolding load_paths
load_paths-AddsFiles t [] js = (Extends-refl js, tt)
load_paths-AddsFiles t (path ∷ paths) js =
    and_then-AddsFiles t path paths js (load_read t path js (t.read_file path)) (load_paths t paths)
      (load_read-Adds t path js (t.read_file path)) (load_paths-AddsFiles t paths)

-- The names in a file that can be read and parsed.
abbrev parsed_names : Option String → Reply JobConfig → List String
parsed_names none c = []
parsed_names (some url) (failed e) = []
parsed_names (some url) (done c) = names_in c

abbrev read_names : Tools → String → Reply String → List String
read_names t path (failed e) = []
read_names t path (done d) = parsed_names (get_prow_url path) (t.parse d)

abbrev pub file_names : Tools → String → List String
file_names t path = read_names t path (t.read_file path)

-- Every name of every file is an ID, every job stands under its ID, and no ID twice.
abbrev pub IsComplete : Tools → List String → Result (List Job × Jobs) → Type 0
IsComplete t paths (ok (jobs, js)) =
    IsIndexed js.all
    × (jobs ≡ t.sort_jobs (values js.all))
    × All (λ path. All (IsKnown js.all) (file_names t path)) paths
IsComplete t paths (err e) = Unit
IsComplete t paths (panic e) = Unit
IsComplete t paths hung = Unit

parsed-IsKnown :
    (js : Jobs) (url : Option String) (c : Reply JobConfig)
    → All (λ j. IsKnown js.all j.id) (parsed_jobs url c)
    → All (IsKnown js.all) (parsed_names url c)
parsed-IsKnown js none c h = tt
parsed-IsKnown js (some url) (failed e) h = tt
parsed-IsKnown js (some url) (done c) h = All-names_in (IsKnown js.all) url c h

read-IsKnown :
    (t : Tools) (path : String) (js : Jobs) (d : Reply String)
    → All (λ j. IsKnown js.all j.id) (read_jobs t path d)
    → All (IsKnown js.all) (read_names t path d)
read-IsKnown t path js (failed e) h = tt
read-IsKnown t path js (done d) h = parsed-IsKnown js (get_prow_url path) (t.parse d) h

files-IsKnown :
    (t : Tools) (js : Jobs) (paths : List String)
    → All (λ path. All (λ j. IsKnown js.all j.id) (jobs_in t path)) paths
    → All (λ path. All (IsKnown js.all) (file_names t path)) paths
files-IsKnown t js [] h = tt
files-IsKnown t js (path ∷ paths) (k, h) =
    (read-IsKnown t path js (t.read_file path) k, files-IsKnown t js paths h)

sorted-IsComplete :
    (t : Tools) (paths : List String) (r : Result Jobs)
    → AddsFiles t no_jobs paths r
    → IsComplete t paths (sorted t r)
sorted-IsComplete t paths (ok js) h = (h.0.0 tt, refl, files-IsKnown t js paths h.1)
sorted-IsComplete t paths (err e) h = tt
sorted-IsComplete t paths (panic e) h = tt
sorted-IsComplete t paths hung h = tt

-- When `LoadJobs` succeeds, each job stands in the map of all jobs under its ID, no ID stands there twice,
-- every name of a presubmit, a postsubmit or a periodic job of a file, and of the jobs that run directly
-- after one, is an ID, and the list is the sorted one of the map's jobs.
pub load_jobs-IsComplete :
    (t : Tools) (paths : List String) → IsComplete t paths (load_jobs t paths)
unfolding load_jobs
load_jobs-IsComplete t paths =
    sorted-IsComplete t paths (load_paths t paths no_jobs) (load_paths-AddsFiles t paths no_jobs)
