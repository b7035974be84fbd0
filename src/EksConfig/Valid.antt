-- ===== src/EksConfig/Valid.antt =====
-- What a valid configuration is, in terms of its fields.
use aws_k8s_tester.Common.{true, false, ◌≡◌, ◌≢◌, ◌⊎◌}
use aws_k8s_tester.Common.Int.{ℤ, pos, ltb_ℤ, ◌≤ℤ◌}
use aws_k8s_tester.Config.{Config, AlbIngressController}
use aws_k8s_tester.EksConfig.Checks.{
  is_key, check_region, check_ec2_instance_type, check_max_pods, max_test_server_routes,
  max_test_clients, max_test_client_requests, max_test_response_size,
}
use aws_k8s_tester.EksConfig.Names.{
  gen_service_role_with_policy, gen_cf_stack_vpc, gen_node_group_key_pair_name,
  gen_cf_stack_worker_node_group,
}

-- What is asked for can be had of EKS and of EC2.
abbrev pub IsSupported : Config → Type 0
IsSupported c =
    ((c.kubernetes_version ≡ "1.10") ⊎ (c.kubernetes_version ≡ "1.11"))
    × (check_region c.aws_region ≡ true)
    × (check_ec2_instance_type c.worker_node_instance_type ≡ true)
    × (c.tag ≢ "")
    × (c.cluster_name ≢ "")
    × (c.worker_node_ami ≢ "")

-- The auto scaling group has a size, and room for the pods of the test server.
abbrev pub IsSized : Config → Type 0
IsSized c =
    (c.worker_node_asg_min ≢ pos 0)
    × (c.worker_node_asg_max ≢ pos 0)
    × (c.worker_node_asg_min ≤ℤ c.worker_node_asg_max)
    × (ltb_ℤ (pos 0) c.alb_ingress_controller.test_server_replicas ≡ true
        → check_max_pods c.worker_node_instance_type c.worker_node_asg_max
            c.alb_ingress_controller.test_server_replicas
          ≡ true)

-- What the tester creates is named after the cluster.
abbrev pub IsNamed : Config → Type 0
IsNamed c =
    (c.worker_node_volume_size_gb ≢ pos 0)
    × (c.aws_custom_endpoint ≡ "")
    × (c.cluster_state.service_role_with_policy_name ≡ gen_service_role_with_policy c.cluster_name)
    × (c.cluster_state.cf_stack_vpc_name ≡ gen_cf_stack_vpc c.cluster_name)
    × (c.cluster_state.cf_stack_worker_node_group_key_pair_name
        ≡ gen_node_group_key_pair_name c.cluster_name)
    × (c.cluster_state.cf_stack_worker_node_group_name
        ≡ gen_cf_stack_worker_node_group c.cluster_name)

-- The file of the tester's log is among the outputs of the log.
abbrev pub IsLogged : Config → Type 0
IsLogged c = is_key c.log_output_to_upload_path c.log_outputs ≡ true

abbrev pub IsUpTo : ℤ → ℤ → Type 0
IsUpTo max n = (n ≢ pos 0) × (n ≤ℤ max)

-- The load test of an enabled ALB Ingress Controller is within its limits.
abbrev pub IsWithinLimits : AlbIngressController → Type 0
IsWithinLimits a =
    IsUpTo max_test_server_routes a.test_server_routes
    × IsUpTo max_test_clients a.test_clients
    × IsUpTo max_test_client_requests a.test_client_requests
    × IsUpTo max_test_response_size a.test_response_size

-- An enabled ALB Ingress Controller has an image and a target, and a mode that fits its routes.
abbrev pub IsDeployable : Config → Type 0
IsDeployable c =
    let a = c.alb_ingress_controller in
    ((a.test_mode ≡ "ingress-test-server") × (c.aws_k8s_tester_image ≢ "")
      ⊎ (a.test_mode ≡ "nginx") × (a.test_server_routes ≡ pos 1))
    × ((a.target_type ≡ "instance") ⊎ (a.target_type ≡ "ip"))
    × (a.ingress_controller_image ≢ "")

-- Without a credential nothing may be asked of the ALB Ingress Controller, which still has an image.
abbrev pub IsIdle : AlbIngressController → Type 0
IsIdle a =
    (a.enable ≡ false)
    × (a.ingress_controller_image ≢ "")
    × (a.test_server_routes ≤ℤ pos 0)
    × (a.test_clients ≤ℤ pos 0)
    × (a.test_client_requests ≤ℤ pos 0)
    × (a.test_response_size ≤ℤ pos 0)

abbrev pub IsServed : Config → Type 0
IsServed c =
    (c.aws_credential_to_mount_path ≡ "" → IsIdle c.alb_ingress_controller)
    × (c.alb_ingress_controller.enable ≡ true
        → IsDeployable c × IsWithinLimits c.alb_ingress_controller)

abbrev pub IsValid : Config → Type 0
IsValid c = IsSupported c × IsSized c × IsNamed c × IsLogged c × IsServed c
