-- ===== src/Tests/Jobs.antt =====
-- The jobs of Prow: runs of `LoadJobs`, and the theorems at concrete inputs.
use aws_k8s_tester.Common.{
  String, [], ◌∷◌, ◌≡◌, ◌≢◌, ◌⊎◌, refl, true, false, inl, inr, none, some, lookup, ne_of_test,
  contains,
}
use aws_k8s_tester.Common.Int.{pos}
use aws_k8s_tester.Runtime.Outside.{done}
use aws_k8s_tester.Runtime.Action.{panic}
use aws_k8s_tester.Prow.Job.{Job, less, less_types, less_keys, type_presubmit, type_periodic}
use aws_k8s_tester.Prow.Job.Order.{keys, less_orders}
use aws_k8s_tester.Prow.Names.{
  replace_first, categorize_name, categorize, to_group, to_provider, get_prow_url, split_dashes,
  add_pieces,
}
use aws_k8s_tester.Prow.Load.{no_more, JobConfig, Tools, load_jobs}
use aws_k8s_tester.Prow.Load.Complete.{IsComplete, load_jobs-IsComplete}
use aws_k8s_tester.Prow.Status.{Git, Sources, Status, counts, refresh, row_of}
use aws_k8s_tester.Prow.Status.Totals.{AddsUp, refresh-AddsUp}
use aws_k8s_tester.Prow.Status.Pages.{IsStale, IsFresh, IsHalf, refresh_shows}
use aws_k8s_tester.Prow.Load.Gaps.{after_and_alone, load_jobs_panics}

categorize_alb : categorize "ci-ingress-aws-alb-e2e" ≡ "ci-ingress-e2e"
unfolding categorize categorize_name replace_first
categorize_alb = refl

group_of_periodic : to_group "periodic" "ci-kubernetes-e2e-gce" ≡ "periodic-ci-kubernetes-e2e"
unfolding to_group split_dashes add_pieces
group_of_periodic = refl

provider_of_eks : to_provider "periodic" "application-periodic-default-eks" ≡ "AWS"
unfolding to_provider contains
provider_of_eks = refl

abbrev job : String → String → Job
job type id = record {
  job_type = type;
  group = "g";
  category = "c";
  provider = "AWS";
  id = id;
  branches = [];
  interval = pos 0;
  url = "u";
  status_url = "s";
}

abbrev first : Job
first = job type_presubmit "a"

abbrev second : Job
second = job type_presubmit "b"

abbrev third : Job
third = job type_periodic "a"

first_before_third : less first third ≡ true
unfolding less less_types less_keys
first_before_third = refl

less_orders_example :
    (less first second ≡ true → less second first ≡ false)
    × (less first second ≡ true → less second third ≡ true → less first third ≡ true)
    × (less first second ≡ false → less second first ≡ false → keys first ≡ keys second)
less_orders_example = less_orders first second third (inl refl) (inl refl) (inr (inr refl))

abbrev parsed : JobConfig
parsed = after_and_alone "ci-a" "ci-b" (pos 1) (pos 2) (pos 3)

abbrev path : String
path = "/tmp/test-infra-master/prow/config.yaml"

abbrev tools : Tools
tools = record {
  read_file = λ p. done p;
  parse = λ d. done parsed;
  quoted = λ s. s;
  sort_strings = λ ss. ss;
  sort_jobs = λ js. js;
}

abbrev plain_tools : Tools
plain_tools = record tools {
  parse = λ d. done (record parsed {
    periodics = record { name = "ci-a"; interval = pos 1; run_after_success = no_more } ∷ [];
  });
}

located :
    get_prow_url path
    ≡ some "https://raw.githubusercontent.com/kubernetes/test-infra/master/prow/config.yaml"
unfolding get_prow_url
located = refl

apart : categorize "ci-a" ≢ categorize "ci-b"
unfolding categorize categorize_name replace_first
apart = ne_of_test "ci-a" "ci-b" refl

load_jobs-IsComplete_example :
    IsComplete plain_tools (path ∷ []) (load_jobs plain_tools (path ∷ []))
load_jobs-IsComplete_example = load_jobs-IsComplete plain_tools (path ∷ [])

load_jobs_panics_example : load_jobs tools (path ∷ []) ≡ panic "assignment to entry in nil map"
load_jobs_panics_example =
    load_jobs_panics tools path path
      "https://raw.githubusercontent.com/kubernetes/test-infra/master/prow/config.yaml" "ci-a"
      "ci-b" (pos 1) (pos 2) (pos 3) refl refl located (ne_of_test "ci-a" "ci-b" refl) apart

abbrev no_git : Git
no_git = record {
  url = "";
  name = "";
  branch = "";
  commit_sha = "0123456789abcdef";
  commit_url = "";
  commit_time_utc = 0;
  commit_time_seattle = 0;
}

abbrev sources : Sources
sources = record {
  started = 20000000000000;
  finished = 20000000000001;
  fetch_git = λ url branch. (no_git, none);
  download = done (path ∷ []);
  tools = plain_tools;
  update_msg = λ k updated e. "message";
  git_rows = λ now gs. "git";
  job_rows = λ rows. "rows";
  sort_rows = λ rows. rows;
  duration_text = λ n. "3h0m0s";
}

abbrev page : Status
page = record {
  git_k8s = no_git;
  git_test_infra = no_git;
  jobs = first ∷ [];
  maps = record { all = ("a", first) ∷ []; filed = ("c", ("AWS", first) ∷ []) ∷ [] };
  updated = 0;
  html_update_msg = "";
  html_git_rows = "";
  html_job_rows = "";
}

row_without_jobs : (row_of "c" []).gcp ≡ ""
unfolding row_of lookup
row_without_jobs = refl

refresh-AddsUp_example : AddsUp (counts (refresh sources page).1)
refresh-AddsUp_example = refresh-AddsUp sources page (inl refl, tt)

refresh_shows_example :
    IsStale page (refresh sources page).1
    ⊎ IsFresh sources (refresh sources page).1
    ⊎ IsHalf sources page (refresh sources page)
refresh_shows_example = refresh_shows sources page
