-- ===== src/EksConfig/Empty.antt =====
-- eksconfig/config.go: the zero values `ClusterState{}` and `ALBIngressController{}`.
use aws_k8s_tester.Common.{false, []}
use aws_k8s_tester.Common.Int.{pos}
use aws_k8s_tester.Config.{ClusterState, AlbIngressController}

abbrev pub empty_state : ClusterState
empty_state = record {
  status = "";
  status_role_created = false;
  status_policy_attached = false;
  status_vpc_created = false;
  status_cluster_created = false;
  status_key_pair_created = false;
  status_worker_node_created = false;
  created = 0;
  up_took = "";
  up_took_duration = pos 0;
  service_role_with_policy_name = "";
  service_role_policies = [];
  service_role_with_policy_arn = "";
  cf_stack_vpc_name = "";
  cf_stack_vpc_status = "";
  endpoint = "";
  ca = "";
  worker_node_group_status = "";
  worker_nodes = [];
  worker_node_logs = [];
  cf_stack_worker_node_group_name = "";
  cf_stack_worker_node_group_status = "";
  cf_stack_worker_node_group_key_pair_name = "";
  cf_stack_worker_node_group_security_group_id = "";
  cf_stack_worker_node_group_auto_scaling_group_name = "";
  cf_stack_worker_node_group_worker_node_instance_role_arn = "";
}

abbrev pub empty_alb : AlbIngressController
empty_alb = record {
  created = false;
  enable = false;
  ingress_controller_image = "";
  upload_tester_logs = false;
  target_type = "";
  test_mode = "";
  test_scalability = false;
  test_scalability_minutes = pos 0;
  test_metrics = false;
  test_server_replicas = pos 0;
  test_server_routes = pos 0;
  test_clients = pos 0;
  test_client_requests = pos 0;
  test_response_size = pos 0;
  test_client_error_threshold = pos 0;
  test_expect_qps = 0;
  test_result_qps = 0;
  test_result_failures = pos 0;
  ingress_test_server_deployment_service_spec_path = "";
  ingress_test_server_deployment_service_spec_path_bucket = "";
  ingress_test_server_deployment_service_spec_path_url = "";
  ingress_controller_spec_path = "";
  ingress_controller_spec_path_bucket = "";
  ingress_controller_spec_path_url = "";
  ingress_object_spec_path = "";
  ingress_object_spec_path_bucket = "";
  ingress_object_spec_path_url = "";
  elbv2_security_group_id_port_open = "";
  elbv2_namespace_to_dns_name = [];
  elbv2_name_to_dns_name = [];
  elbv2_name_to_arn = [];
  elbv2_security_group_status = "";
  deployment_status = "";
  ingress_rule_status_kube_system = "";
  ingress_rule_status_default = "";
  ingress_up_took = "";
  ingress_up_took_duration = pos 0;
  scalability_output_to_upload_path = "";
  scalability_output_to_upload_path_bucket = "";
  scalability_output_to_upload_path_url = "";
  metrics_output_to_upload_path = "";
  metrics_output_to_upload_path_bucket = "";
  metrics_output_to_upload_path_url = "";
}
