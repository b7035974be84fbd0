-- ===== src/EksConfig/Names.antt =====
-- eksconfig/config.go: the names of the resources and the paths, which follow the cluster's name.
use aws_k8s_tester.Common.{String, ◌<>◌, List, [], ◌∷◌, ◌++◌, str_eq, if◌then◌else◌}
use aws_k8s_tester.Config.{Config, ClusterState, AlbIngressController}
use aws_k8s_tester.Runtime.Outside.{Outside}
use aws_k8s_tester.EksConfig.Checks.{is_key}

abbrev pub gen_service_role_with_policy : String → String
gen_service_role_with_policy name = name <> "-SERVICE-ROLE"

abbrev pub gen_cf_stack_vpc : String → String
gen_cf_stack_vpc name = name <> "-VPC-STACK"

abbrev pub gen_node_group_key_pair_name : String → String
gen_node_group_key_pair_name name = name <> "-KEY-PAIR"

abbrev pub gen_cf_stack_worker_node_group : String → String
gen_cf_stack_worker_node_group name = name <> "-NODE-GROUP-STACK"

abbrev pub service_role_policy_arn_cluster : String
service_role_policy_arn_cluster = "arn:aws:iam::aws:policy/AmazonEKSClusterPolicy"

abbrev pub service_role_policy_arn_service : String
service_role_policy_arn_service = "arn:aws:iam::aws:policy/AmazonEKSServicePolicy"

abbrev pub name_resources : String → ClusterState → ClusterState
name_resources name s = record s {
  service_role_with_policy_name = gen_service_role_with_policy name;
  service_role_policies = service_role_policy_arn_cluster ∷ service_role_policy_arn_service ∷ [];
  cf_stack_vpc_name = gen_cf_stack_vpc name;
  cf_stack_worker_node_group_key_pair_name = gen_node_group_key_pair_name name;
  cf_stack_worker_node_group_name = gen_cf_stack_worker_node_group name;
}

unfoldable pub private_key_path : Outside → String → String → String
private_key_path o name path =
    if str_eq path ""
    then o.join_path o.temp_dir (gen_node_group_key_pair_name name <> ".private.key")
    else path

-- The names of what the tester creates, and the default path of the private key.
abbrev pub set_names : Outside → Config → Config
set_names o c = record c {
  cluster_state = name_resources c.cluster_name c.cluster_state;
  worker_node_private_key_path = private_key_path o c.cluster_name c.worker_node_private_key_path;
}

-- The path of the tester's log is appended to the log outputs, unless it is one of them.
unfoldable pub add_log_output : String → List String → List String
add_log_output path outputs = if is_key path outputs then outputs else outputs ++ path ∷ []

abbrev pub log_path : Outside → String → String
log_path o name = o.join_path o.temp_dir (name <> ".log")

abbrev pub spec_path : Config → String → String
spec_path c suffix = c.config_path <> ("." <> (c.cluster_name <> suffix))

abbrev pub set_alb_paths : Outside → Config → AlbIngressController → AlbIngressController
set_alb_paths o c a = record a {
  ingress_test_server_deployment_service_spec_path = spec_path c ".alb.ingress-test-server.yaml";
  ingress_test_server_deployment_service_spec_path_bucket =
      o.join_path c.cluster_name "alb.ingress-test-server.deployment.service.yaml";
  ingress_controller_spec_path = spec_path c ".alb.controller.deployment.service.yaml";
  ingress_controller_spec_path_bucket =
      o.join_path c.cluster_name "alb.controller.deployment.service.yaml";
  ingress_object_spec_path = spec_path c ".alb.ingress.yaml";
  ingress_object_spec_path_bucket = o.join_path c.cluster_name "alb.ingress.yaml";
  scalability_output_to_upload_path = spec_path c ".alb.scalability.txt";
  scalability_output_to_upload_path_bucket = o.join_path c.cluster_name "alb.scalability.txt";
  metrics_output_to_upload_path = spec_path c ".alb.metrics.txt";
  metrics_output_to_upload_path_bucket = o.join_path c.cluster_name "alb.metrics.txt";
}

-- The paths on disk and in the bucket; the path of the configuration is known.
abbrev pub set_paths : Outside → Config → Config
set_paths o c = record c {
  config_path_bucket = o.join_path c.cluster_name "a8-eksconfig.yaml";
  log_output_to_upload_path = log_path o c.cluster_name;
  log_outputs = add_log_output (log_path o c.cluster_name) c.log_outputs;
  log_output_to_upload_path_bucket = o.join_path c.cluster_name "a8-eks.log";
  kube_config_path_bucket = o.join_path c.cluster_name "kubeconfig";
  alb_ingress_controller = set_alb_paths o c c.alb_ingress_controller;
}
