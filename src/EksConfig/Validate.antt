-- ===== src/EksConfig/Validate.antt =====
-- eksconfig/config.go: `ValidateAndSetDefaults`. A run of guards is the list of what they require,
-- each with the error that is returned when it does not hold; the first one that fails is.
use aws_k8s_tester.Common.{
  String, ◌<>◌, Bool, false, not, ◌||◌, List, [], ◌∷◌, Option, none, some, str_eq, ◌==◌, length,
  if◌then◌else◌,
}
use aws_k8s_tester.Common.Int.{ℤ, pos, ltb_ℤ, eqb_ℤ, mul64}
use aws_k8s_tester.Config.{Config, AlbIngressController}
use aws_k8s_tester.Runtime.Outside.{create_temp_file, abs_path, remove_all}
use aws_k8s_tester.Runtime.Words.{
  Reply, done, failed, Outside, M, acknowledge, pure, raise, gets, attempt, ◌>>=◌, ◌>>◌, call,
  modify, modify_alb, ignore, sync,
}
use aws_k8s_tester.InstanceTypes.Row.{InstanceType}
use aws_k8s_tester.InstanceTypes.{instance_types, find}
use aws_k8s_tester.EksConfig.Checks.{
  check_kubernetes_version, check_region, check_ec2_instance_type, check_max_pods,
  check_workder_node_asg, check_eks_ep, max_test_server_routes, max_test_clients,
  max_test_client_requests, max_test_response_size, default_workder_node_volume_size_gb,
}
use aws_k8s_tester.EksConfig.Names.{set_names, set_paths}
use aws_k8s_tester.EksConfig.Credential.{mount_credential}

unfoldable pub require_all : List (Bool × String) → M (Unit {0})
require_all [] = pure tt
require_all ((holds, e) ∷ rest) = if holds then require_all rest else raise e

abbrev max_pods_of : Option InstanceType → ℤ
max_pods_of none = pos 0
max_pods_of (some v) = v.max_pods

abbrev too_many_pods : Outside → Config → String
too_many_pods o c =
    let pods = max_pods_of (find c.worker_node_instance_type instance_types) in
    "EKS WorkerNodeInstanceType "
    <> (o.quoted c.worker_node_instance_type
        <> (" only supports "
            <> (o.decimal_ℤ pods
                <> (" pods per node (ASG Max "
                    <> (o.decimal_ℤ c.worker_node_asg_max
                        <> (", allowed up to "
                            <> (o.decimal_ℤ (mul64 pods c.worker_node_asg_max)
                                <> (", test server replicas "
                                    <> (o.decimal_ℤ c.alb_ingress_controller.test_server_replicas
                                        <> ")")))))))))

-- Up to the size of the auto scaling group.
unfoldable pub settings : Outside → Config → List (Bool × String)
settings o c =
    (not (length c.log_outputs == 0), "EKS LogOutputs is not specified")
    ∷ (not (str_eq c.kubernetes_version ""), "KubernetesVersion is empty")
    ∷ (
      check_kubernetes_version c.kubernetes_version,
      "EKS Kubernetes version " <> (o.quoted c.kubernetes_version <> " is not valid"),
    )
    ∷ (not (str_eq c.aws_region ""), "AWS Region is empty")
    ∷ (check_region c.aws_region, "EKS Region " <> (o.quoted c.aws_region <> " is not valid"))
    ∷ (not (str_eq c.tag ""), "Tag is empty")
    ∷ (not (str_eq c.cluster_name ""), "ClusterName is empty")
    ∷ (not (str_eq c.worker_node_ami ""), "EKS WorkerNodeAMI is not specified")
    ∷ (not (str_eq c.worker_node_instance_type ""), "EKS WorkerNodeInstanceType is not specified")
    ∷ (
      check_ec2_instance_type c.worker_node_instance_type,
      "EKS WorkerNodeInstanceType " <> (o.quoted c.worker_node_instance_type <> " is not valid"),
    )
    ∷ (
      not (ltb_ℤ (pos 0) c.alb_ingress_controller.test_server_replicas)
          || check_max_pods c.worker_node_instance_type c.worker_node_asg_max
              c.alb_ingress_controller.test_server_replicas,
      too_many_pods o c,
    )
    ∷ (not (eqb_ℤ c.worker_node_asg_min (pos 0)), "EKS WorkerNodeASGMin is not specified")
    ∷ (not (eqb_ℤ c.worker_node_asg_max (pos 0)), "EKS WorkerNodeASGMax is not specified")
    ∷ (
      check_workder_node_asg c.worker_node_asg_min c.worker_node_asg_max,
      "EKS WorkderNodeASG "
          <> (o.decimal_ℤ c.worker_node_asg_min
              <> (" and " <> (o.decimal_ℤ c.worker_node_asg_max <> " is not valid"))),
    )
    ∷ []

unfoldable pub volume_size : ℤ → ℤ
volume_size n = if eqb_ℤ n (pos 0) then default_workder_node_volume_size_gb else n

abbrev pub set_volume : Config → Config
set_volume c = record c { worker_node_volume_size_gb = volume_size c.worker_node_volume_size_gb }

unfoldable pub endpoint_settings : Outside → Config → List (Bool × String)
endpoint_settings o c =
    (
      check_eks_ep c.aws_custom_endpoint,
      "AWSCustomEndpoint " <> (o.quoted c.aws_custom_endpoint <> " is not valid"),
    )
    ∷ []

-- The error of this `filepath.Abs` is dropped, and its path empty.
abbrev path_or_empty : Reply String → String
path_or_empty (done p) = p
path_or_empty (failed e) = ""

-- A fresh name: the temporary file is removed again.
unfoldable pub new_config_path : Outside → M (Unit {0})
new_config_path o = do
  name ← call (create_temp_file o.temp_dir "a8-eksconfig") (λ o. o.text)
  r ← attempt (call (abs_path name) (λ o. o.text))
  modify (λ c. record c { config_path = path_or_empty r })
  path ← gets (λ w. w.cfg.config_path)
  ignore (call (remove_all path) acknowledge)

-- Without a credential.
unfoldable pub anonymous_settings : AlbIngressController → List (Bool × String)
anonymous_settings a =
    (not a.enable, "cannot create AWS ALB Ingress Controller without AWS credential")
    ∷ (
      not (str_eq a.ingress_controller_image ""),
      "cannot create AWS ALB Ingress Controller without ingress controller test image",
    )
    ∷ (
      not (ltb_ℤ (pos 0) a.test_server_routes),
      "cannot create AWS ALB Ingress Controller routes without test routes",
    )
    ∷ (
      not (ltb_ℤ (pos 0) a.test_clients),
      "cannot create AWS ALB Ingress Controller clients without test clients",
    )
    ∷ (
      not (ltb_ℤ (pos 0) a.test_client_requests),
      "cannot create AWS ALB Ingress Controller requests without test requests",
    )
    ∷ (
      not (ltb_ℤ (pos 0) a.test_response_size),
      "cannot create AWS ALB Ingress Controller requests without test response size",
    )
    ∷ []

-- `switch cfg.ALBIngressController.TestMode`
unfoldable pub test_mode_setting : Outside → Config → Bool × String
test_mode_setting o c =
    let a = c.alb_ingress_controller in
    if str_eq a.test_mode "ingress-test-server"
    then (
      not (str_eq c.aws_k8s_tester_image ""),
      "'ingress-test-server' requires AWSK8sTesterImage",
    )
    else if str_eq a.test_mode "nginx"
    then (eqb_ℤ a.test_server_routes (pos 1), "'nginx' only needs 1 server route")
    else (false, "ALB Ingress test mode " <> (o.quoted a.test_mode <> " is not supported"))

unfoldable pub alb_settings : Outside → Config → List (Bool × String)
alb_settings o c =
    let a = c.alb_ingress_controller in
    test_mode_setting o c
    ∷ (
      str_eq a.target_type "instance" || str_eq a.target_type "ip",
      "ALB Ingress Controller target type not found " <> o.quoted a.target_type,
    )
    ∷ (not (str_eq a.ingress_controller_image ""), "ALB Ingress Controller image not specified")
    ∷ []

unfoldable pub set_output_paths : String → AlbIngressController → AlbIngressController
set_output_paths path a = record a {
  scalability_output_to_upload_path = path <> ".alb-ingress-controller.scalability.log";
  metrics_output_to_upload_path = path <> ".alb-ingress-controller.metrics.log";
}

-- A number is neither 0 nor above its maximum.
abbrev sized : Outside → ℤ → ℤ → String → List (Bool × String) → List (Bool × String)
sized o n max what rest =
    (
      not (eqb_ℤ n (pos 0)),
      "cannot create AWS ALB Ingress Controller with empty test response size " <> o.decimal_ℤ n,
    )
    ∷ (
      not (ltb_ℤ max n),
      "cannot create AWS ALB Ingress Controller with test "
          <> (what <> (" " <> (o.decimal_ℤ n <> (" (> max size " <> (o.decimal_ℤ max <> ")"))))),
    )
    ∷ rest

unfoldable pub alb_sizes : Outside → AlbIngressController → List (Bool × String)
alb_sizes o a = sized o a.test_server_routes max_test_server_routes "routes" (
    sized o a.test_clients max_test_clients "clients" (
      sized o a.test_client_requests max_test_client_requests "requests"
        (sized o a.test_response_size max_test_response_size "response size" [])))

unfoldable pub check_enabled : Outside → Config → M (Unit {0})
check_enabled o c = do
  require_all (alb_settings o c)
  modify_alb (set_output_paths c.config_path)
  require_all (alb_sizes o c.alb_ingress_controller)

unfoldable pub check_alb : Outside → M (Unit {0})
check_alb o = do
  c ← gets (λ w. w.cfg)
  if str_eq c.aws_credential_to_mount_path ""
      then require_all (anonymous_settings c.alb_ingress_controller)
      else pure tt
  if c.alb_ingress_controller.enable then check_enabled o c else pure tt

-- The checks and the names, before any call.
unfoldable pub check_settings : Outside → M (Unit {0})
check_settings o = do
  c ← gets (λ w. w.cfg)
  require_all (settings o c)
  modify set_volume
  require_all (endpoint_settings o c)
  modify (set_names o)

unfoldable pub complete_paths : Outside → M (Unit {0})
complete_paths o = do
  path ← gets (λ w. w.cfg.config_path)
  if str_eq path "" then new_config_path o else pure tt
  modify (set_paths o)

unfoldable pub validate_and_set_defaults : M (Unit {0})
validate_and_set_defaults = do
  o ← gets (λ w. w.outside)
  check_settings o
  complete_paths o
  mount_credential
  check_alb o
  sync
