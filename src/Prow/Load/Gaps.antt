-- ===== src/Prow/Load/Gaps.antt =====
-- Where `munge` panics.
use aws_k8s_tester.Common.{
  String, List, [], ◌∷◌, ◌≡◌, ◌≢◌, refl, sym, some, lookup, insert, str_eq_refl, test_of_ne,
}
use aws_k8s_tester.Common.Int.{ℤ}
use aws_k8s_tester.Runtime.Outside.{done}
use aws_k8s_tester.Runtime.Action.{panic}
use aws_k8s_tester.Prow.Names.{categorize, to_provider, get_prow_url}
use aws_k8s_tester.Prow.Munge.{munge, file_under}
use aws_k8s_tester.Prow.Load.{
  after, no_more, in_turn, JobConfig, periodic_job, periodic_jobs, group_jobs, Tools, jobs_of,
  munge_all, no_jobs, load_jobs, load_paths,
}

-- A periodic job `a` with `b` to run after it, and then a periodic job `b`.
abbrev pub after_and_alone : String → String → ℤ → ℤ → ℤ → JobConfig
after_and_alone a b i j k = record {
  presubmits = [];
  postsubmits = [];
  periodics =
      record { name = a; interval = i; run_after_success = after b j no_more no_more }
      ∷ record { name = b; interval = k; run_after_success = no_more }
      ∷ [];
}

-- The job that runs after `a` is filed under the category of `a`, and so there is no map for that of `b`.
munge_all_panics :
    (sort : List String → List String) (url a b : String) (i j k : ℤ)
    → a ≢ b
    → categorize a ≢ categorize b
    → munge_all sort (jobs_of url (after_and_alone a b i j k)) no_jobs
      ≡ panic "assignment to entry in nil map"
unfolding jobs_of in_turn group_jobs periodic_jobs periodic_job munge_all munge file_under lookup
    insert
munge_all_panics sort url a b i j k differ apart =
    let first = test_of_ne b a (λ e. differ (sym e)) in
    let other = test_of_ne (categorize b) (categorize a) (λ e. apart (sym e)) in
    rw (first, str_eq_refl (categorize a), str_eq_refl (to_provider "periodic" a))
      (rw (first, str_eq_refl (categorize a))
        (rw (str_eq_refl (categorize a)) (rw first (rw (str_eq_refl b) (rw other refl)))))

-- `LoadJobs` panics on a file with a periodic job `a` that has `b` run after it, and then a periodic
-- job `b`, when the names have different categories: the first `b` is filed under the category of `a`, and
-- there is no map for that of `b`. The file can be read and parsed, and its path has the separator.
pub load_jobs_panics :
    (t : Tools) (path text url a b : String) (i j k : ℤ)
    → t.read_file path ≡ done text
    → t.parse text ≡ done (after_and_alone a b i j k)
    → get_prow_url path ≡ some url
    → a ≢ b
    → categorize a ≢ categorize b
    → load_jobs t (path ∷ []) ≡ panic "assignment to entry in nil map"
unfolding load_jobs load_paths
load_jobs_panics t path text url a b i j k read parsed located differ apart =
    rw (read, parsed, located, munge_all_panics t.sort_strings url a b i j k differ apart) refl
