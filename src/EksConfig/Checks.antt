-- ===== src/EksConfig/Checks.antt =====
-- eksconfig/config.go: the tests that `ValidateAndSetDefaults` applies to single fields.
use aws_k8s_tester.Common.{
  String, Bool, true, false, ◌||◌, List, [], ◌∷◌, Option, none, some, str_eq,
}
use aws_k8s_tester.Common.{if◌then◌else◌}
use aws_k8s_tester.Common.Int.{ℤ, pos, mul64, ltb_ℤ, eqb_ℤ}
use aws_k8s_tester.InstanceTypes.Row.{InstanceType}
use aws_k8s_tester.InstanceTypes.{instance_types, find}

-- A key of a map whose values do not matter.
abbrev pub is_key : String → List String → Bool
is_key s [] = false
is_key s (k ∷ ks) = str_eq s k || is_key s ks

abbrev pub supported_kubernetes_versions : List String
supported_kubernetes_versions = "1.10" ∷ "1.11" ∷ []

unfoldable pub check_kubernetes_version : String → Bool
check_kubernetes_version s = is_key s supported_kubernetes_versions

abbrev pub supported_regions : List String
supported_regions =
    "us-west-2" ∷ "us-east-1" ∷ "us-east-2" ∷ "eu-central-1" ∷ "eu-north-1" ∷ "eu-west-1"
    ∷ "ap-northeast-1" ∷ "ap-northeast-2" ∷ "ap-southeast-1" ∷ "ap-southeast-2" ∷ []

unfoldable pub check_region : String → Bool
check_region s = is_key s supported_regions

abbrev is_found : Option InstanceType → Bool
is_found none = false
is_found (some v) = true

unfoldable pub check_ec2_instance_type : String → Bool
check_ec2_instance_type s = is_found (find s instance_types)

-- The product is one of `int64`.
abbrev pub holds_pods : Option InstanceType → ℤ → ℤ → Bool
holds_pods none nodes replicas = false
holds_pods (some v) nodes replicas = if ltb_ℤ (mul64 v.max_pods nodes) replicas then false else true

unfoldable pub check_max_pods : String → ℤ → ℤ → Bool
check_max_pods s nodes replicas = holds_pods (find s instance_types) nodes replicas

unfoldable pub check_workder_node_asg : ℤ → ℤ → Bool
check_workder_node_asg min max =
    if eqb_ℤ min (pos 0) || eqb_ℤ max (pos 0) then false else if ltb_ℤ max min then false else true

-- No test endpoint is supported, so the map of endpoints is empty.
abbrev supported_eks_eps : List String
supported_eks_eps = []

unfoldable pub check_eks_ep : String → Bool
check_eks_ep s = if str_eq s "" then true else is_key s supported_eks_eps

abbrev pub max_test_server_routes : ℤ
max_test_server_routes = pos 30

abbrev pub max_test_clients : ℤ
max_test_clients = pos 1000

abbrev pub max_test_client_requests : ℤ
max_test_client_requests = pos 50000

abbrev pub max_test_response_size : ℤ
max_test_response_size = pos 512000

abbrev pub default_workder_node_volume_size_gb : ℤ
default_workder_node_volume_size_gb = pos 20
