-- ===== src/Tests/Serving.antt =====
-- Services that create all that they are asked for, and some that fail.
use aws_k8s_tester.Common.{[], ◌∷◌, none, some}
use aws_k8s_tester.Common.Int.{pos}
use aws_k8s_tester.Runtime.Outside.{
  Described, done, Outside, Stack, Cluster, Node, AutoScalingGroup,
}
use aws_k8s_tester.Runtime.Action.{World}
use aws_k8s_tester.Tests.Samples.{deserted, world, fresh_world}

abbrev pub complete_stack : Stack
complete_stack = record {
  stack_status = "CREATE_COMPLETE";
  outputs =
      ("VpcId", "vpc-1")
      ∷ ("SubnetIds", "s1,s2")
      ∷ ("SecurityGroups", "sg")
      ∷ ("NodeInstanceRole", "role-arn")
      ∷ ("NodeSecurityGroup", "nsg")
      ∷ [];
}

abbrev pub active_cluster : Cluster
active_cluster = record {
  status = "ACTIVE";
  created_at = 1;
  platform_version = "eks.1";
  endpoint = some "https://e";
  certificate_authority = some "ca";
}

abbrev pub instance_one : Described
instance_one = record {
  instance_id = "i-1";
  public_dns_name = some "d";
  public_ip = some "p";
  state_name = "running";
}

abbrev pub group_of_one : AutoScalingGroup
group_of_one = record {
  min_size = pos 1;
  max_size = pos 1;
  instances = record { instance_id = "i-1"; health_status = "Healthy" } ∷ [];
}

abbrev pub ready_node : Node
ready_node = record {
  name = "n1";
  conditions = record { condition_type = "Ready"; status = "True" } ∷ [];
}

abbrev pub serving : Outside
serving = record deserted {
  arn = λ h. done "arn";
  acknowledged = λ h. done tt;
  stacks = λ h. done (complete_stack ∷ []);
  stack_resources = λ h. done (
      record {
        resource_type = "AWS::AutoScaling::AutoScalingGroup";
        physical_resource_id = "asg-1";
      }
      ∷ []);
  key_pair = λ h. done ("c-KEY-PAIR", "material");
  security_groups = λ h. done ([] ∷ []);
  instances = λ h. done ((instance_one ∷ []) ∷ []);
  auto_scaling_groups = λ h. done (group_of_one ∷ []);
  cluster = λ h. done active_cluster;
  executed = λ h. record { output = "Kubernetes master is running at https://e"; error = none };
  decode_nodes = λ s. done (ready_node ∷ []);
}

abbrev pub serving_world : World
serving_world = record fresh_world { outside = serving }

-- All but the nodes exists, and the cluster is to be created again.
abbrev pub prepared_world : World
prepared_world = record world {
  outside = serving;
  cfg = record world.cfg {
    cluster_state = record world.cfg.cluster_state { worker_node_group_status = "" };
  };
}

abbrev pub failing_world : World
failing_world = record fresh_world {
  outside = record serving { cluster = λ h. done (record active_cluster { status = "FAILED" }) };
}
