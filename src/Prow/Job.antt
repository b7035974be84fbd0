-- ===== src/Prow/Job.antt =====
-- internal/prow/job.go, provider.go, and the order of internal/prow/jobs.go.
pub mod Order
use text.Mathlib.Text.{is_lt}
use Prim.Native.String.{compare}
use aws_k8s_tester.Common.{String, Bool, true, false, not, ◌&&◌, List, str_eq, if◌then◌else◌}
use aws_k8s_tester.Common.Int.{ℤ}

abbrev pub type_presubmit : String
type_presubmit = "pre-submit"

abbrev pub type_postsubmit : String
type_postsubmit = "post-submit"

abbrev pub type_periodic : String
type_periodic = "periodic"

abbrev pub provider_aws : String
provider_aws = "AWS"

abbrev pub provider_gcp : String
provider_gcp = "GCP"

abbrev pub provider_not_categorized : String
provider_not_categorized = "Not-Categorized"

pub record Job : Type 0 where
  pub job_type : String
  pub group : String
  pub category : String
  pub provider : String
  pub id : String
  pub branches : List String
  pub interval : ℤ
  pub url : String
  pub status_url : String

-- `<` on strings.
abbrev pub str_lt : String → String → Bool
str_lt s t = is_lt (compare s t)

-- Behind the tests of the types.
unfoldable pub less_keys : Job → Job → Bool
less_keys a b =
    if not (str_eq a.category b.category)
    then str_lt a.category b.category
    else if not (str_eq a.provider b.provider)
    then str_lt a.provider b.provider
    else if not (str_eq a.id b.id)
    then str_lt a.id b.id
    else str_lt a.group b.group

-- `rest` is the answer for two jobs of one type.
unfoldable pub less_types : String → String → Bool → Bool
less_types a b rest =
    if str_eq a type_presubmit && not (str_eq b type_presubmit)
    then true
    else if str_eq a type_periodic && not (str_eq b type_periodic)
    then false
    else if str_eq a type_postsubmit && str_eq b type_periodic
    then true
    else if str_eq a type_postsubmit && str_eq b type_presubmit
    then false
    else rest

-- `Jobs.Less`
unfoldable pub less : Job → Job → Bool
less a b = less_types a.job_type b.job_type (less_keys a b)
