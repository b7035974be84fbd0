-- ===== src/Prow/Names.antt =====
-- internal/prow/category.go, group.go, provider.go and prow.go: what the name of a job says.
use Prim.Native.String.{slice, len}
use text.Mathlib.Text.{find?}
use aws_k8s_tester.Common.{
  ℕ, ◌+◌, String, ◌<>◌, ◌||◌, List, [], ◌∷◌, Option, none, some, str_eq, contains, if◌then◌else◌,
  take,
}
use aws_k8s_tester.Prow.Job.{provider_aws, provider_gcp, provider_not_categorized}

-- `strings.Replace(s, old, new, 1)`; `old` is not empty.
replace_at : String → String → String → Option ℕ → String
replace_at s old new none = s
replace_at s old new (some i) = slice s 0 i <> (new <> slice s (i + len old) (len s))

unfoldable pub replace_first : String → String → String → String
unfolding replace_at
replace_first s old new = replace_at s old new (find? s old)

unfoldable pub categorize_name : String → String
categorize_name v =
    let id1 = replace_first v "-directconnect" "-connect" in
    let id2 = replace_first id1 "-gci" "-connect" in
    let id3 = replace_first id2 "-gcp" "" in
    let id4 = replace_first id3 "-gce" "" in
    let id5 = replace_first id4 "-gke" "" in
    let id6 = replace_first id5 "-aws" "" in
    let id7 = replace_first id6 "-eks" "" in replace_first id7 "-alb" ""

-- `categorizePresubmit`, `categorizePostsubmit` and `categorizePeriodic`, which read the name.
unfoldable pub categorize : String → String
categorize name = let id2 = categorize_name name in if str_eq name id2 then name else id2

-- `strings.Split(s, "-")` by a scan; `piece` holds the characters since the last dash.
split_from : String → String → List String
split_from piece String.[] = piece ∷ []
split_from piece (String.◌∷◌ c s) =
    let cut = piece ∷ split_from "" s in
    let grown = split_from (piece <> String.◌∷◌ c String.[]) s in
    if str_eq (String.◌∷◌ c String.[]) "-" then cut else grown

unfoldable pub split_dashes : String → List String
unfolding split_from
split_dashes s = split_from "" s

-- `name += fmt.Sprintf("-%s", v)` for each piece
unfoldable pub add_pieces : String → List String → String
add_pieces name [] = name
add_pieces name (v ∷ vs) = add_pieces (name <> ("-" <> v)) vs

-- The loop leaves after the third piece.
unfoldable pub to_group : String → String → String
to_group name id =
    if str_eq name "GoogleCloudPlatform/k8s-multicluster-ingress"
    then "k8s-multicluster-ingress"
    else if str_eq name "periodic"
    then add_pieces name (take 3 (split_dashes id))
    else name

unfoldable pub to_provider : String → String → String
to_provider name id =
    if contains name "GoogleCloudPlatform"
    then provider_gcp
    else if str_eq id "pull-kubernetes-multicluster-ingress-test"
    then provider_gcp
    else if contains id "-gci" || contains id "-gcp" || contains id "-gce" || contains id "-gke"
    then provider_gcp
    else if contains id "-directconnect" || contains id "-aws" || contains id "-eks"
    then provider_aws
    else provider_not_categorized

-- The text behind the first separator, up to the next one.
up_to : String → Option ℕ → String
up_to s none = s
up_to s (some i) = slice s 0 i

second_piece : String → String → Option ℕ → Option String
unfolding up_to
second_piece s sep none = none
second_piece s sep (some i) =
    let rest = slice s (i + len sep) (len s) in some (up_to rest (find? rest sep))

abbrev prefixed : Option String → Option String
prefixed none = none
prefixed (some path) =
    some ("https://raw.githubusercontent.com/kubernetes/test-infra/master/" <> path)

-- `getProwURL`; none when the index 1 is out of range.
unfoldable pub get_prow_url : String → Option String
unfolding second_piece
get_prow_url path =
    prefixed (second_piece path "/test-infra-master/" (find? path "/test-infra-master/"))

unfoldable pub get_prow_status_url : String → String
get_prow_status_url name =
    "https://k8s-gubernator.appspot.com/builds/kubernetes-jenkins/pr-logs/pull/batch/"
    <> (name <> "/")
