-- ===== src/InstanceTypes/Row.antt =====
-- pkg/awsapi/ec2/instance_types.go: `InstanceType`.
use aws_k8s_tester.Common.{ℕ, String}
use aws_k8s_tester.Common.Int.{ℤ, pos}

pub record InstanceType : Type 0 where
  pub instance_type : String
  pub vcpu : ℤ
  pub memory_mb : ℤ
  pub gpu : ℤ
  pub max_pods : ℤ

abbrev pub of : String → ℕ → ℕ → ℕ → ℕ → InstanceType
of name vcpu memory gpu pods = record {
  instance_type = name;
  vcpu = pos vcpu;
  memory_mb = pos memory;
  gpu = pos gpu;
  max_pods = pos pods;
}
