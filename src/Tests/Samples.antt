-- ===== src/Tests/Samples.antt =====
-- A configuration, and services in which everything has already been deleted.
use aws_k8s_tester.Common.{◌<>◌, true, false, [], ◌∷◌, none, some, List}
use aws_k8s_tester.Common.Int.{pos}
use aws_k8s_tester.Config.{ClusterState, AlbIngressController, Config}
use aws_k8s_tester.Runtime.Outside.{
  wrote, Reply, done, failed, History, Outside, Stack, cf_describe_stacks, ec2_describe_key_pairs,
  finished,
}
use aws_k8s_tester.Runtime.Action.{World, pure}
use aws_k8s_tester.Eks.Tester.{Plugin}

abbrev pub state : ClusterState
state = record {
  status = "ACTIVE";
  status_role_created = true;
  status_policy_attached = true;
  status_vpc_created = true;
  status_cluster_created = true;
  status_key_pair_created = true;
  status_worker_node_created = true;
  created = 0;
  up_took = "";
  up_took_duration = pos 0;
  service_role_with_policy_name = "c-SERVICE-ROLE";
  service_role_policies = "p1" ∷ "p2" ∷ [];
  service_role_with_policy_arn = "arn";
  cf_stack_vpc_name = "c-VPC-STACK";
  cf_stack_vpc_status = "";
  endpoint = "https://e";
  ca = "ca";
  worker_node_group_status = "READY";
  worker_nodes = [];
  worker_node_logs = [];
  cf_stack_worker_node_group_name = "c-NODE-GROUP-STACK";
  cf_stack_worker_node_group_status = "";
  cf_stack_worker_node_group_key_pair_name = "c-KEY-PAIR";
  cf_stack_worker_node_group_security_group_id = "";
  cf_stack_worker_node_group_auto_scaling_group_name = "";
  cf_stack_worker_node_group_worker_node_instance_role_arn = "";
}

abbrev pub alb : AlbIngressController
alb = record {
  created = false;
  enable = false;
  ingress_controller_image = "image";
  upload_tester_logs = false;
  target_type = "instance";
  test_mode = "nginx";
  test_scalability = true;
  test_scalability_minutes = pos 1;
  test_metrics = true;
  test_server_replicas = pos 1;
  test_server_routes = pos 1;
  test_clients = pos 200;
  test_client_requests = pos 20000;
  test_response_size = pos 40960;
  test_client_error_threshold = pos 10;
  test_expect_qps = 4671226772094713856;
  test_result_qps = 0;
  test_result_failures = pos 0;
  ingress_test_server_deployment_service_spec_path = "";
  ingress_test_server_deployment_service_spec_path_bucket = "";
  ingress_test_server_deployment_service_spec_path_url = "";
  ingress_controller_spec_path = "";
  ingress_controller_spec_path_bucket = "";
  ingress_controller_spec_path_url = "";
  ingress_object_spec_path = "";
  ingress_object_spec_path_bucket = "";
  ingress_object_spec_path_url = "";
  elbv2_security_group_id_port_open = "";
  elbv2_namespace_to_dns_name = [];
  elbv2_name_to_dns_name = [];
  elbv2_name_to_arn = [];
  elbv2_security_group_status = "";
  deployment_status = "";
  ingress_rule_status_kube_system = "";
  ingress_rule_status_default = "";
  ingress_up_took = "";
  ingress_up_took_duration = pos 0;
  scalability_output_to_upload_path = "";
  scalability_output_to_upload_path_bucket = "";
  scalability_output_to_upload_path_url = "";
  metrics_output_to_upload_path = "";
  metrics_output_to_upload_path_bucket = "";
  metrics_output_to_upload_path_url = "";
}

abbrev pub config : Config
config = record {
  tag = "t";
  cluster_name = "c";
  aws_k8s_tester_image = "";
  aws_k8s_tester_path = "";
  aws_k8s_tester_download_url = "";
  kubectl_path = "/kubectl";
  kubectl_download_url = "";
  aws_iam_authenticator_path = "";
  aws_iam_authenticator_download_url = "";
  config_path = "/config.yaml";
  config_path_bucket = "";
  config_path_url = "";
  kube_config_path = "/kubeconfig";
  kube_config_path_bucket = "";
  kube_config_path_url = "";
  wait_before_down = pos 0;
  down = true;
  aws_account_id = "";
  aws_credential_to_mount_path = "";
  aws_region = "us-west-2";
  aws_custom_endpoint = "";
  enable_worker_node_ssh = true;
  enable_worker_node_ha = true;
  enable_worker_node_privileged_port_access = true;
  vpc_id = "vpc-1";
  subnet_ids = "s1" ∷ "s2" ∷ [];
  security_group_id = "sg";
  worker_node_private_key_path = "/key";
  worker_node_ami = "ami";
  worker_node_instance_type = "m3.xlarge";
  worker_node_asg_min = pos 1;
  worker_node_asg_max = pos 1;
  worker_node_asg_desired_capacity = pos 1;
  worker_node_volume_size_gb = pos 20;
  kubernetes_version = "1.11";
  platform_version = "";
  log_debug = false;
  log_outputs = "stderr" ∷ [];
  log_output_to_upload_path = "/c.log";
  log_output_to_upload_path_bucket = "";
  log_output_to_upload_path_url = "";
  log_access = false;
  upload_tester_logs = false;
  upload_kube_config = false;
  upload_worker_node_logs = false;
  upload_bucket_expire_days = pos 2;
  updated_at = 0;
  cluster_state = state;
  alb_ingress_controller = alb;
}

abbrev acknowledged_unless_gone : History → Reply (Unit {0})
acknowledged_unless_gone [] = done tt
acknowledged_unless_gone (ec2_describe_key_pairs _ ∷ _) = failed "key pair not found"
acknowledged_unless_gone (_ ∷ _) = done tt

abbrev stack_gone : History → Reply (List Stack)
stack_gone [] = failed ""
stack_gone (cf_describe_stacks name ∷ _) =
    failed ("ValidationError: Stack with id " <> (name <> " does not exist"))
stack_gone (_ ∷ _) = failed ""

abbrev pub deserted : Outside
deserted = record {
  latency = λ h. 0;
  overslept = λ h. 0;
  quoted = λ s. "\"" <> (s <> "\"");
  decimal = λ n. "n";
  decimal_ℤ = λ n. "z";
  duration_text = λ n. "d";
  stacks_text = λ s. "stacks";
  groups_text = λ s. "groups";
  dir_name = λ s. "/";
  environment = λ s. "";
  home_dir = "/root";
  temp_dir = "/tmp";
  join_path = λ a b. a <> ("/" <> b);
  base_name = λ s. "credentials";
  exists = λ h. true;
  to_upper = λ s. s;
  replace_all = λ s old new. s;
  decode_config = λ s. failed "not YAML";
  nanoseconds_hex = λ n. "7B";
  parse_bool = λ s. done true;
  parse_int = λ s. done (pos 1);
  parse_float = λ s. done 0;
  parse_duration = λ s. done (pos 1);
  decode_nodes = λ s. failed "no nodes";
  is_retryable = λ e. false;
  aws_error_code = λ e. some "InvalidKeyPair.NotFound";
  arn = λ h. failed "NoSuchEntity: the role cannot be found.";
  acknowledged = acknowledged_unless_gone;
  stacks = stack_gone;
  stack_resources = λ h. done [];
  vpn_connections = λ h. done [];
  key_pair = λ h. failed "no key pair";
  security_groups = λ h. done [];
  instances = λ h. done [];
  auto_scaling_groups = λ h. done [];
  cluster = λ h. failed "ResourceNotFoundException: No cluster found for name: c.";
  executed = λ h. record { output = ""; error = none };
  stopped = λ h. false;
  selected = λ h. finished;
  text = λ h. done "/text";
  fetched_logs = λ h. some [];
  arns = λ h. done [];
  written = λ h. wrote;
  target_groups = λ h. done [];
}

abbrev pub world : World
world = record { cfg = config; outside = deserted; history = []; clock = 0; saved = λ p. none }

-- No cluster yet.
abbrev pub fresh_world : World
fresh_world = record {
  cfg = record config {
    cluster_state = record state {
      status = "";
      status_role_created = false;
      status_policy_attached = false;
      status_vpc_created = false;
      status_cluster_created = false;
      status_key_pair_created = false;
      status_worker_node_created = false;
    };
  };
  outside = deserted;
  history = [];
  clock = 0;
  saved = λ p. none;
}

-- A plugin that does nothing.
abbrev pub idle : Plugin
idle = record {
  deploy_backend = pure tt;
  create_rbac = pure tt;
  deploy_ingress_controller = pure tt;
  create_security_group = pure tt;
  create_ingress_objects = pure tt;
}
