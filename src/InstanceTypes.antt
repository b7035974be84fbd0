-- ===== src/InstanceTypes.antt =====
-- pkg/awsapi/ec2/instance_types.go: the EC2 instance types, and how many pods a node of each holds.
mod First
mod Second
mod Third
pub mod Row
pub mod Rows
use aws_k8s_tester.Common.{String, List, ◌++◌, Option, none, some, [], ◌∷◌, str_eq, if◌then◌else◌}
use aws_k8s_tester.InstanceTypes.Row.{InstanceType}
use aws_k8s_tester.InstanceTypes.First.{
  types_from_a1, types_from_c5, types_from_c5n_xlarge, types_from_h1,
}
use aws_k8s_tester.InstanceTypes.Second.{
  types_from_m1_medium, types_from_m5_24xlarge, types_from_p2_8xlarge,
}
use aws_k8s_tester.InstanceTypes.Third.{
  types_from_r4_xlarge, types_from_r5d_xlarge, types_from_x1_16xlarge,
}

-- The map, as the list of its entries.
abbrev pub instance_types : List (String × InstanceType)
instance_types =
    types_from_a1 ++ types_from_c5 ++ types_from_c5n_xlarge ++ types_from_h1 ++ types_from_m1_medium
    ++ types_from_m5_24xlarge ++ types_from_p2_8xlarge ++ types_from_r4_xlarge
    ++ types_from_r5d_xlarge ++ types_from_x1_16xlarge

-- Reading a map at a key.
abbrev pub find : String → List (String × InstanceType) → Option InstanceType
find key [] = none
find key ((k, v) ∷ rest) = if str_eq key k then some v else find key rest
