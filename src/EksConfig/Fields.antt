-- ===== src/EksConfig/Fields.antt =====
-- eksconfig/config.go: the fields of the two structs that `UpdateFromEnvs` goes through, in their order,
-- each with its tag and with what a variable sets.
use aws_k8s_tester.Common.{List, [], ◌∷◌}
use aws_k8s_tester.Config.{Config, AlbIngressController}
use aws_k8s_tester.EksConfig.Setter.{
  Field, field, text, flag, number, duration, float, texts, unsupported,
}

abbrev pub cluster_fields : List (Field Config)
cluster_fields =
    field "tag,omitempty" (text (λ v c. record c { tag = v }))
    ∷ field "cluster-name,omitempty" (text (λ v c. record c { cluster_name = v }))
    ∷ field "aws-k8s-tester-image,omitempty" (text (λ v c. record c { aws_k8s_tester_image = v }))
    ∷ field "aws-k8s-tester-path,omitempty" (text (λ v c. record c { aws_k8s_tester_path = v }))
    ∷ field "aws-k8s-tester-download-url,omitempty"
        (text (λ v c. record c { aws_k8s_tester_download_url = v }))
    ∷ field "kubectl-path,omitempty" (text (λ v c. record c { kubectl_path = v }))
    ∷ field "kubectl-download-url,omitempty" (text (λ v c. record c { kubectl_download_url = v }))
    ∷ field "aws-iam-authenticator-path,omitempty"
        (text (λ v c. record c { aws_iam_authenticator_path = v }))
    ∷ field "aws-iam-authenticator-download-url,omitempty"
        (text (λ v c. record c { aws_iam_authenticator_download_url = v }))
    ∷ field "config-path,omitempty" (text (λ v c. record c { config_path = v }))
    ∷ field "config-path-bucket,omitempty" (text (λ v c. record c { config_path_bucket = v }))
    ∷ field "config-path-url,omitempty" (text (λ v c. record c { config_path_url = v }))
    ∷ field "kubeconfig-path,omitempty" (text (λ v c. record c { kube_config_path = v }))
    ∷ field "kubeconfig-path-bucket,omitempty"
        (text (λ v c. record c { kube_config_path_bucket = v }))
    ∷ field "kubeconfig-path-url,omitempty" (text (λ v c. record c { kube_config_path_url = v }))
    ∷ field "wait-before-down,omitempty" (duration (λ v c. record c { wait_before_down = v }))
    ∷ field "down" (flag (λ v c. record c { down = v }))
    ∷ field "aws-account-id,omitempty" (text (λ v c. record c { aws_account_id = v }))
    ∷ field "aws-credential-to-mount-path,omitempty"
        (text (λ v c. record c { aws_credential_to_mount_path = v }))
    ∷ field "aws-region,omitempty" (text (λ v c. record c { aws_region = v }))
    ∷ field "aws-custom-endpoint,omitempty" (text (λ v c. record c { aws_custom_endpoint = v }))
    ∷ field "enable-worker-node-ssh" (flag (λ v c. record c { enable_worker_node_ssh = v }))
    ∷ field "enable-worker-node-ha" (flag (λ v c. record c { enable_worker_node_ha = v }))
    ∷ field "enable-worker-node-privileged-port-access"
        (flag (λ v c. record c { enable_worker_node_privileged_port_access = v }))
    ∷ []

abbrev pub worker_fields : List (Field Config)
worker_fields =
    field "vpc-id" (text (λ v c. record c { vpc_id = v }))
    ∷ field "subnet-ids" (texts (λ v c. record c { subnet_ids = v }))
    ∷ field "security-group-id" (text (λ v c. record c { security_group_id = v }))
    ∷ field "worker-node-private-key-path,omitempty"
        (text (λ v c. record c { worker_node_private_key_path = v }))
    ∷ field "worker-node-ami,omitempty" (text (λ v c. record c { worker_node_ami = v }))
    ∷ field "worker-node-instance-type,omitempty"
        (text (λ v c. record c { worker_node_instance_type = v }))
    ∷ field "worker-node-asg-min,omitempty" (number (λ v c. record c { worker_node_asg_min = v }))
    ∷ field "worker-node-asg-max,omitempty" (number (λ v c. record c { worker_node_asg_max = v }))
    ∷ field "worker-node-asg-desired-capacity,omitempty"
        (number (λ v c. record c { worker_node_asg_desired_capacity = v }))
    ∷ field "worker-node-volume-size-gb,omitempty"
        (number (λ v c. record c { worker_node_volume_size_gb = v }))
    ∷ field "kubernetes-version,omitempty" (text (λ v c. record c { kubernetes_version = v }))
    ∷ field "platform-version,omitempty" (text (λ v c. record c { platform_version = v }))
    ∷ field "log-debug" (flag (λ v c. record c { log_debug = v }))
    ∷ field "log-outputs,omitempty" (texts (λ v c. record c { log_outputs = v }))
    ∷ field "log-output-to-upload-path,omitempty"
        (text (λ v c. record c { log_output_to_upload_path = v }))
    ∷ field "log-output-to-upload-path-bucket,omitempty"
        (text (λ v c. record c { log_output_to_upload_path_bucket = v }))
    ∷ field "log-output-to-upload-path-url,omitempty"
        (text (λ v c. record c { log_output_to_upload_path_url = v }))
    ∷ field "log-access" (flag (λ v c. record c { log_access = v }))
    ∷ field "upload-tester-logs" (flag (λ v c. record c { upload_tester_logs = v }))
    ∷ field "upload-kubeconfig" (flag (λ v c. record c { upload_kube_config = v }))
    ∷ field "upload-worker-node-logs" (flag (λ v c. record c { upload_worker_node_logs = v }))
    ∷ field "upload-bucket-expire-days" (number (λ v c. record c { upload_bucket_expire_days = v }))
    ∷ field "updated-at,omitempty" (unsupported "time.Time")
    ∷ field "cluster-state,omitempty" (unsupported "*eksconfig.ClusterState")
    ∷ field "alb-ingress-controller,omitempty" (unsupported "*eksconfig.ALBIngressController")
    ∷ []

abbrev pub test_fields : List (Field AlbIngressController)
test_fields =
    field "created" (flag (λ v a. record a { created = v }))
    ∷ field "enable" (flag (λ v a. record a { enable = v }))
    ∷ field "ingress-controller-image,omitempty"
        (text (λ v a. record a { ingress_controller_image = v }))
    ∷ field "upload-tester-logs" (flag (λ v a. record a { upload_tester_logs = v }))
    ∷ field "target-type,omitempty" (text (λ v a. record a { target_type = v }))
    ∷ field "test-mode,omitempty" (text (λ v a. record a { test_mode = v }))
    ∷ field "test-scalability" (flag (λ v a. record a { test_scalability = v }))
    ∷ field "test-scalability-minutes" (number (λ v a. record a { test_scalability_minutes = v }))
    ∷ field "test-metrics" (flag (λ v a. record a { test_metrics = v }))
    ∷ field "test-server-replicas,omitempty" (number (λ v a. record a { test_server_replicas = v }))
    ∷ field "test-server-routes,omitempty" (number (λ v a. record a { test_server_routes = v }))
    ∷ field "test-clients,omitempty" (number (λ v a. record a { test_clients = v }))
    ∷ field "test-client-requests,omitempty" (number (λ v a. record a { test_client_requests = v }))
    ∷ field "test-response-size,omitempty" (number (λ v a. record a { test_response_size = v }))
    ∷ field "test-client-error-threshold,omitempty"
        (number (λ v a. record a { test_client_error_threshold = v }))
    ∷ field "test-expect-qps,omitempty" (float (λ v a. record a { test_expect_qps = v }))
    ∷ field "test-result-qps,omitempty" (float (λ v a. record a { test_result_qps = v }))
    ∷ field "test-result-failures,omitempty" (number (λ v a. record a { test_result_failures = v }))
    ∷ field "ingress-test-server-deployment-service-spec-path,omitempty"
        (text (λ v a. record a { ingress_test_server_deployment_service_spec_path = v }))
    ∷ field "ingress-test-server-deployment-service-spec-path-bucket,omitempty"
        (text (λ v a. record a { ingress_test_server_deployment_service_spec_path_bucket = v }))
    ∷ field "ingress-test-server-deployment-service-spec-path-url,omitempty"
        (text (λ v a. record a { ingress_test_server_deployment_service_spec_path_url = v }))
    ∷ field "ingress-controller-spec-path,omitempty"
        (text (λ v a. record a { ingress_controller_spec_path = v }))
    ∷ field "ingress-controller-spec-path-bucket,omitempty"
        (text (λ v a. record a { ingress_controller_spec_path_bucket = v }))
    ∷ field "ingress-controller-spec-path-url,omitempty"
        (text (λ v a. record a { ingress_controller_spec_path_url = v }))
    ∷ field "ingress-object-spec-path,omitempty"
        (text (λ v a. record a { ingress_object_spec_path = v }))
    ∷ field "ingress-object-spec-path-bucket,omitempty"
        (text (λ v a. record a { ingress_object_spec_path_bucket = v }))
    ∷ field "ingress-object-spec-path-url,omitempty"
        (text (λ v a. record a { ingress_object_spec_path_url = v }))
    ∷ []

abbrev pub result_fields : List (Field AlbIngressController)
result_fields =
    field "elbv2-security-group-id-port-open,omitempty"
      (text (λ v a. record a { elbv2_security_group_id_port_open = v }))
    ∷ field "elbv2-namespace-to-dns-name,omitempty" (unsupported "map[string]string")
    ∷ field "elbv2-name-to-dns-name,omitempty" (unsupported "map[string]string")
    ∷ field "elbv2-name-to-arn,omitempty" (unsupported "map[string]string")
    ∷ field "elbv2-security-group-status,omitempty"
        (text (λ v a. record a { elbv2_security_group_status = v }))
    ∷ field "deployment-status,omitempty" (text (λ v a. record a { deployment_status = v }))
    ∷ field "ingress-rule-status-kube-system,omitempty"
        (text (λ v a. record a { ingress_rule_status_kube_system = v }))
    ∷ field "ingress-rule-status-default,omitempty"
        (text (λ v a. record a { ingress_rule_status_default = v }))
    ∷ field "ingress-up-took,omitempty" (text (λ v a. record a { ingress_up_took = v }))
    ∷ field "" (unsupported "time.Duration")
    ∷ field "scalability-output-to-upload-path,omitempty"
        (text (λ v a. record a { scalability_output_to_upload_path = v }))
    ∷ field "scalability-output-to-upload-path-bucket,omitempty"
        (text (λ v a. record a { scalability_output_to_upload_path_bucket = v }))
    ∷ field "scalability-output-to-upload-path-url,omitempty"
        (text (λ v a. record a { scalability_output_to_upload_path_url = v }))
    ∷ field "metrics-output-to-upload-path,omitempty"
        (text (λ v a. record a { metrics_output_to_upload_path = v }))
    ∷ field "metrics-output-to-upload-path-bucket,omitempty"
        (text (λ v a. record a { metrics_output_to_upload_path_bucket = v }))
    ∷ field "metrics-output-to-upload-path-url,omitempty"
        (text (λ v a. record a { metrics_output_to_upload_path_url = v }))
    ∷ []
