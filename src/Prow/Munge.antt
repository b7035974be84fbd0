-- ===== src/Prow/Munge.antt =====
-- internal/prow/jobs.go, `munge`: how a job is added to the two maps.
pub mod Index
use aws_k8s_tester.Common.{
  String, Bool, true, false, List, [], ◌∷◌, ◌++◌, foldl, Option, none, some, str_eq, if◌then◌else◌,
  Dict, lookup, insert,
}
use aws_k8s_tester.Prow.Job.{Job}

-- `all`, and `categoryToProviderToJob`.
pub record Jobs : Type 0 where
  pub all : Dict Job
  pub filed : Dict (Dict Job)

-- The keys of a map that the texts are put into.
abbrev add_new : List String → String → List String
add_new [] s = s ∷ []
add_new (k ∷ ks) s = let rest = add_new ks s in if str_eq k s then k ∷ ks else k ∷ rest

-- `sort` is `sort.Strings`.
unfoldable pub merge_strings : (List String → List String) → List String → List String → List String
merge_strings sort ss1 ss2 = sort (foldl add_new (foldl add_new [] ss1) ss2)

abbrev pub merged : (List String → List String) → Job → Job → Job
merged sort prev job = record prev { branches = merge_strings sort prev.branches job.branches }

abbrev stored :
    String → String → Job → Dict (Dict Job) → Option (Dict Job) → Option (Dict (Dict Job))
stored category provider job filed none = none
stored category provider job filed (some m) = some (insert category (insert provider job m) filed)

-- `m[category][provider] = job`; none when there is no map for the category to assign to.
unfoldable pub file_under : String → String → Job → Dict (Dict Job) → Option (Dict (Dict Job))
file_under category provider job filed = stored category provider job filed (lookup category filed)

abbrev pub with_filed : Dict Job → Option (Dict (Dict Job)) → Option Jobs
with_filed all none = none
with_filed all (some filed) = some (record { all = all; filed = filed })

-- A new job in a category that has a map: by its provider's job, if there is one.
abbrev file_new :
    (List String → List String) → Job → Dict (Dict Job) → Option Job → Option (Dict (Dict Job))
file_new sort job filed none = some filed
file_new sort job filed (some prev) =
    file_under prev.category prev.provider (merged sort prev job) filed

abbrev pub file_first :
    (List String → List String)
    → Job
    → Dict (Dict Job)
    → Option (Dict Job)
    → Option (Dict (Dict Job))
file_first sort job filed none = some (insert job.category (insert job.provider job []) filed)
file_first sort job filed (some m) = file_new sort job filed (lookup job.provider m)

abbrev pub add_job : (List String → List String) → Job → Jobs → Option Job → Option Jobs
add_job sort job js none =
    with_filed (insert job.id job js.all)
      (file_first sort job js.filed (lookup job.category js.filed))
add_job sort job js (some prev) =
    let prev' = merged sort prev job in
    with_filed (insert job.id prev' js.all) (file_under job.category job.provider prev' js.filed)

-- None is the panic of an assignment to an entry of a nil map.
unfoldable pub munge : (List String → List String) → Job → Jobs → Option Jobs
munge sort job js = add_job sort job js (lookup job.id js.all)
