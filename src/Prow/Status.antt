-- ===== src/Prow/Status.antt =====
-- internal/prow/status/status.go and html.go: the status page, its refreshing and its rows. The
-- templates and the texts that they make are functions of what is given to them.
-- The removal of the downloaded directory, which is deferred, and the constant head and end are left out.
pub mod Totals
pub mod Pages
use Prim.Native.String.{len, slice}
use aws_k8s_tester.Common.{
  ℕ, ◌+◌, ◌-◌, String, ◌<>◌, Bool, true, false, List, [], ◌∷◌, Option, none, some, str_eq, ltb,
  if◌then◌else◌, Dict, lookup, values, length,
}
use aws_k8s_tester.Runtime.Outside.{Reply, done, failed}
use aws_k8s_tester.Runtime.Action.{Result, ok, err, panic}
use aws_k8s_tester.Prow.Job.{Job, provider_aws, provider_gcp, provider_not_categorized}
use aws_k8s_tester.Prow.Munge.{Jobs}
use aws_k8s_tester.Prow.Load.{Tools, load_jobs, no_jobs}

pub record JobRow : Type 0 where
  pub row_type : String
  pub group : String
  pub category : String
  pub aws : String
  pub gcp : String
  pub not_categorized : String

-- How many jobs there are, and how many of each provider.
pub record Counts : Type 0 where
  pub total : ℕ
  pub aws : ℕ
  pub gcp : ℕ
  pub not_categorized : ℕ

-- `git.go`'s answer: `FetchGit` may return a commit beside an error, and both are stored.
pub record Git : Type 0 where
  pub url : String
  pub name : String
  pub branch : String
  pub commit_sha : String
  pub commit_url : String
  pub commit_time_utc : ℕ
  pub commit_time_seattle : ℕ

-- What a refresh calls. The clock is read twice; `download` gives the paths of the files.
pub record Sources : Type 0 where
  pub started : ℕ
  pub finished : ℕ
  pub fetch_git : String → String → Git × Option String
  pub download : Reply (List String)
  pub tools : Tools
  pub update_msg : Counts → ℕ → Option String → String
  -- The table of the commits, with the first nine characters of each hash.
  pub git_rows : ℕ → List (Git × String) → String
  pub job_rows : List JobRow → String
  pub sort_rows : List JobRow → List JobRow
  pub duration_text : ℕ → String

pub record Status : Type 0 where
  pub git_k8s : Git
  pub git_test_infra : Git
  pub jobs : List Job
  pub maps : Jobs
  pub updated : ℕ
  pub html_update_msg : String
  pub html_git_rows : String
  pub html_job_rows : String

-- `3 * time.Hour`
abbrev pub status_update_limit : ℕ
status_update_limit = 10800000000000

unfoldable pub count_job : Job → Counts → Counts
count_job v k =
    if str_eq v.provider provider_aws
    then record k { total = k.total + 1; aws = k.aws + 1 }
    else if str_eq v.provider provider_gcp
    then record k { total = k.total + 1; gcp = k.gcp + 1 }
    else if str_eq v.provider provider_not_categorized
    then record k { total = k.total + 1; not_categorized = k.not_categorized + 1 }
    else record k { total = k.total + 1 }

unfoldable pub count_jobs : List Job → Counts
count_jobs [] = record { total = 0; aws = 0; gcp = 0; not_categorized = 0 }
count_jobs (v ∷ vs) = count_job v (count_jobs vs)

abbrev pub counts : Status → Counts
counts s = count_jobs (values s.maps.all)

prepend : Git × String → Option (List (Git × String)) → Option (List (Git × String))
prepend g none = none
prepend g (some gs) = some (g ∷ gs)

-- `git.CommitSHA[:9]`
unfoldable pub with_short : List Git → Option (List (Git × String))
unfolding prepend
with_short [] = some []
with_short (g ∷ gs) =
    if ltb (len g.commit_sha) 9 then none else prepend (g, slice g.commit_sha 0 9) (with_short gs)

abbrev link : Job → String
link job =
    "<a href=\""
    <> (job.url
        <> ("\" target=\"_blank\">"
            <> (job.id
                <> ("</a> (<a href=\"" <> (job.status_url <> "\" target=\"_blank\">status</a>)")))))

abbrev headed : Job → JobRow → JobRow
headed job row = record row { row_type = job.job_type; group = job.group; category = job.category }

-- Only the column of AWS says so when there is no job.
abbrev with_aws : Option Job → JobRow → JobRow
with_aws none row = record row { aws = "N/A" }
with_aws (some job) row = record (headed job row) { aws = link job }

abbrev with_gcp : Option Job → JobRow → JobRow
with_gcp none row = row
with_gcp (some job) row = record (headed job row) { gcp = link job }

abbrev with_not_categorized : Option Job → JobRow → JobRow
with_not_categorized none row = row
with_not_categorized (some job) row = record (headed job row) { not_categorized = link job }

unfoldable pub row_of : String → Dict Job → JobRow
row_of category m = with_not_categorized (lookup provider_not_categorized m) (
    with_gcp (lookup provider_gcp m) (
      with_aws (lookup provider_aws m) (record {
        row_type = "";
        group = "";
        category = category;
        aws = "";
        gcp = "";
        not_categorized = "";
      })))

unfoldable pub rows_of : Dict (Dict Job) → List JobRow
rows_of [] = []
rows_of ((category, m) ∷ rest) = row_of category m ∷ rows_of rest

unfoldable pub create_job_rows : Sources → Dict (Dict Job) → String
create_job_rows src filed = src.job_rows (src.sort_rows (rows_of filed))

-- The message has the counts from the beginning of the refresh.
abbrev pub report : Sources → Counts → Status → String → Result (Unit {0}) × Status
report src k s e = (ok tt, record s { html_update_msg = src.update_msg k s.updated (some e) })

-- The time and the message are stored before the rows of the commits are made, which may panic.
abbrev pub shown : Sources → Status → Option (List (Git × String)) → Result (Unit {0}) × Status
shown src t none = (panic "slice bounds out of range", t)
shown src t (some gs) = (
  ok tt,
  record t {
    html_git_rows = src.git_rows src.finished gs;
    html_job_rows = create_job_rows src t.maps.filed;
  },
)

abbrev pub timed : Sources → Status → List Job → Jobs → Status
timed src s jobs maps =
    let t = record s { jobs = jobs; maps = maps; updated = src.finished } in
    record t { html_update_msg = src.update_msg (counts t) src.finished none }

-- On an error `LoadJobs` returns nil three times, which is stored.
abbrev pub loaded :
    Sources → Counts → Status → Result (List Job × Jobs) → Result (Unit {0}) × Status
loaded src k s (ok (jobs, maps)) =
    shown src (timed src s jobs maps) (with_short (s.git_k8s ∷ s.git_test_infra ∷ []))
loaded src k s (err e) = report src k (record s { jobs = []; maps = no_jobs }) e
loaded src k s (panic e) = (panic e, s)
loaded src k s Result.hung = (Result.hung, s)

abbrev pub downloaded : Sources → Counts → Status → Reply (List String) → Result (Unit {0}) × Status
downloaded src k s (failed e) = report src k s e
downloaded src k s (done paths) = loaded src k s (load_jobs src.tools paths)

abbrev pub fetched_test_infra :
    Sources → Counts → Status → Git × Option String → Result (Unit {0}) × Status
fetched_test_infra src k s (g, some e) = report src k (record s { git_test_infra = g }) e
fetched_test_infra src k s (g, none) =
    downloaded src k (record s { git_test_infra = g }) src.download

abbrev pub fetched_k8s :
    Sources → Counts → Status → Git × Option String → Result (Unit {0}) × Status
fetched_k8s src k s (g, some e) = report src k (record s { git_k8s = g }) e
fetched_k8s src k s (g, none) =
    fetched_test_infra src k (record s { git_k8s = g })
      (src.fetch_git "https://github.com/kubernetes/test-infra" "master")

unfoldable pub refresh : Sources → Status → Result (Unit {0}) × Status
refresh src s =
    let k = counts s in
    if ltb (src.started - s.updated) status_update_limit
    then report src k s ("rate limit exceeded " <> src.duration_text status_update_limit)
    else fetched_k8s src k s (src.fetch_git "https://github.com/kubernetes/kubernetes" "master")
