-- ===== src/Config.antt =====
-- eksconfig/config.go: the configuration and the state of an EKS test cluster. A pointer field
-- (`ClusterState`, `ALBIngressController`) is the record itself: `NewDefault` and `Load` leave
-- neither nil. The two float fields, `TestExpectQPS` and `TestResultQPS`, hold the 64 bits of the number.
use aws_k8s_tester.Common.{ℕ, String, Bool, List}
use aws_k8s_tester.Common.Int.{ℤ}

-- ec2config/config.go, the part of an instance that the tester reads.
pub record Instance : Type 0 where
  pub instance_id : String
  pub public_dns_name : String
  pub public_ip : String
  pub state_name : String

pub record ClusterState : Type 0 where
  pub status : String
  pub status_role_created : Bool
  pub status_policy_attached : Bool
  pub status_vpc_created : Bool
  pub status_cluster_created : Bool
  pub status_key_pair_created : Bool
  pub status_worker_node_created : Bool
  pub created : ℕ
  pub up_took : String
  pub up_took_duration : ℤ
  pub service_role_with_policy_name : String
  pub service_role_policies : List String
  pub service_role_with_policy_arn : String
  pub cf_stack_vpc_name : String
  pub cf_stack_vpc_status : String
  pub endpoint : String
  pub ca : String
  pub worker_node_group_status : String
  pub worker_nodes : List (String × Instance)
  pub worker_node_logs : List (String × String)
  pub cf_stack_worker_node_group_name : String
  pub cf_stack_worker_node_group_status : String
  pub cf_stack_worker_node_group_key_pair_name : String
  pub cf_stack_worker_node_group_security_group_id : String
  pub cf_stack_worker_node_group_auto_scaling_group_name : String
  pub cf_stack_worker_node_group_worker_node_instance_role_arn : String

pub record AlbIngressController : Type 0 where
  pub created : Bool
  pub enable : Bool
  pub ingress_controller_image : String
  pub upload_tester_logs : Bool
  pub target_type : String
  pub test_mode : String
  pub test_scalability : Bool
  pub test_scalability_minutes : ℤ
  pub test_metrics : Bool
  pub test_server_replicas : ℤ
  pub test_server_routes : ℤ
  pub test_clients : ℤ
  pub test_client_requests : ℤ
  pub test_response_size : ℤ
  pub test_client_error_threshold : ℤ
  pub test_expect_qps : ℕ
  pub test_result_qps : ℕ
  pub test_result_failures : ℤ
  pub ingress_test_server_deployment_service_spec_path : String
  pub ingress_test_server_deployment_service_spec_path_bucket : String
  pub ingress_test_server_deployment_service_spec_path_url : String
  pub ingress_controller_spec_path : String
  pub ingress_controller_spec_path_bucket : String
  pub ingress_controller_spec_path_url : String
  pub ingress_object_spec_path : String
  pub ingress_object_spec_path_bucket : String
  pub ingress_object_spec_path_url : String
  pub elbv2_security_group_id_port_open : String
  pub elbv2_namespace_to_dns_name : List (String × String)
  pub elbv2_name_to_dns_name : List (String × String)
  pub elbv2_name_to_arn : List (String × String)
  pub elbv2_security_group_status : String
  pub deployment_status : String
  pub ingress_rule_status_kube_system : String
  pub ingress_rule_status_default : String
  pub ingress_up_took : String
  pub ingress_up_took_duration : ℤ
  pub scalability_output_to_upload_path : String
  pub scalability_output_to_upload_path_bucket : String
  pub scalability_output_to_upload_path_url : String
  pub metrics_output_to_upload_path : String
  pub metrics_output_to_upload_path_bucket : String
  pub metrics_output_to_upload_path_url : String

pub record Config : Type 0 where
  pub tag : String
  pub cluster_name : String
  pub aws_k8s_tester_image : String
  pub aws_k8s_tester_path : String
  pub aws_k8s_tester_download_url : String
  pub kubectl_path : String
  pub kubectl_download_url : String
  pub aws_iam_authenticator_path : String
  pub aws_iam_authenticator_download_url : String
  pub config_path : String
  pub config_path_bucket : String
  pub config_path_url : String
  pub kube_config_path : String
  pub kube_config_path_bucket : String
  pub kube_config_path_url : String
  pub wait_before_down : ℤ
  pub down : Bool
  pub aws_account_id : String
  pub aws_credential_to_mount_path : String
  pub aws_region : String
  pub aws_custom_endpoint : String
  pub enable_worker_node_ssh : Bool
  pub enable_worker_node_ha : Bool
  pub enable_worker_node_privileged_port_access : Bool
  pub vpc_id : String
  pub subnet_ids : List String
  pub security_group_id : String
  pub worker_node_private_key_path : String
  pub worker_node_ami : String
  pub worker_node_instance_type : String
  pub worker_node_asg_min : ℤ
  pub worker_node_asg_max : ℤ
  pub worker_node_asg_desired_capacity : ℤ
  pub worker_node_volume_size_gb : ℤ
  pub kubernetes_version : String
  pub platform_version : String
  pub log_debug : Bool
  pub log_outputs : List String
  pub log_output_to_upload_path : String
  pub log_output_to_upload_path_bucket : String
  pub log_output_to_upload_path_url : String
  pub log_access : Bool
  pub upload_tester_logs : Bool
  pub upload_kube_config : Bool
  pub upload_worker_node_logs : Bool
  pub upload_bucket_expire_days : ℤ
  pub updated_at : ℕ
  pub cluster_state : ClusterState
  pub alb_ingress_controller : AlbIngressController
