-- ===== src/InstanceTypes/Third.antt =====
-- pkg/awsapi/ec2/instance_types.go: the rows from r4.xlarge to z1d.xlarge.
use aws_k8s_tester.Common.{String, List, [], ◌∷◌}
use aws_k8s_tester.InstanceTypes.Row.{InstanceType, of}

abbrev pub types_from_r4_xlarge : List (String × InstanceType)
types_from_r4_xlarge =
    ("r4.xlarge", of "r4.xlarge" 4 31232 0 58)
    ∷ ("r5", of "r5" 96 0 0 0)
    ∷ ("r5.12xlarge", of "r5.12xlarge" 48 393216 0 234)
    ∷ ("r5.24xlarge", of "r5.24xlarge" 96 786432 0 737)
    ∷ ("r5.2xlarge", of "r5.2xlarge" 8 65536 0 58)
    ∷ ("r5.4xlarge", of "r5.4xlarge" 16 131072 0 234)
    ∷ ("r5.large", of "r5.large" 2 16384 0 29)
    ∷ ("r5.xlarge", of "r5.xlarge" 4 32768 0 58)
    ∷ ("r5a.12xlarge", of "r5a.12xlarge" 48 393216 0 234)
    ∷ ("r5a.24xlarge", of "r5a.24xlarge" 96 786432 0 737)
    ∷ ("r5a.2xlarge", of "r5a.2xlarge" 8 65536 0 58)
    ∷ ("r5a.4xlarge", of "r5a.4xlarge" 16 131072 0 234)
    ∷ ("r5a.large", of "r5a.large" 2 16384 0 29)
    ∷ ("r5a.xlarge", of "r5a.xlarge" 4 32768 0 58)
    ∷ ("r5d", of "r5d" 96 0 0 0)
    ∷ ("r5d.12xlarge", of "r5d.12xlarge" 48 393216 0 234)
    ∷ ("r5d.24xlarge", of "r5d.24xlarge" 96 786432 0 737)
    ∷ ("r5d.2xlarge", of "r5d.2xlarge" 8 65536 0 58)
    ∷ ("r5d.4xlarge", of "r5d.4xlarge" 16 131072 0 234)
    ∷ ("r5d.large", of "r5d.large" 2 16384 0 29)
    ∷ []

abbrev pub types_from_r5d_xlarge : List (String × InstanceType)
types_from_r5d_xlarge =
    ("r5d.xlarge", of "r5d.xlarge" 4 32768 0 58)
    ∷ ("t1.micro", of "t1.micro" 1 627 0 4)
    ∷ ("t2.2xlarge", of "t2.2xlarge" 8 32768 0 44)
    ∷ ("t2.large", of "t2.large" 2 8192 0 35)
    ∷ ("t2.medium", of "t2.medium" 2 4096 0 17)
    ∷ ("t2.micro", of "t2.micro" 1 1024 0 4)
    ∷ ("t2.nano", of "t2.nano" 1 512 0 4)
    ∷ ("t2.small", of "t2.small" 1 2048 0 8)
    ∷ ("t2.xlarge", of "t2.xlarge" 4 16384 0 44)
    ∷ ("t3.2xlarge", of "t3.2xlarge" 8 32768 0 44)
    ∷ ("t3.large", of "t3.large" 2 8192 0 35)
    ∷ ("t3.medium", of "t3.medium" 2 4096 0 17)
    ∷ ("t3.micro", of "t3.micro" 2 1024 0 4)
    ∷ ("t3.nano", of "t3.nano" 2 512 0 4)
    ∷ ("t3.small", of "t3.small" 2 2048 0 8)
    ∷ ("t3.xlarge", of "t3.xlarge" 4 16384 0 44)
    ∷ ("u-12tb1", of "u-12tb1" 448 12582912 0 0)
    ∷ ("u-6tb1", of "u-6tb1" 448 6291456 0 0)
    ∷ ("u-9tb1", of "u-9tb1" 448 9437184 0 0)
    ∷ ("x1", of "x1" 128 0 0 0)
    ∷ []

abbrev pub types_from_x1_16xlarge : List (String × InstanceType)
types_from_x1_16xlarge =
    ("x1.16xlarge", of "x1.16xlarge" 64 999424 0 234)
    ∷ ("x1.32xlarge", of "x1.32xlarge" 128 1998848 0 234)
    ∷ ("x1e", of "x1e" 128 0 0 0)
    ∷ ("x1e.16xlarge", of "x1e.16xlarge" 64 1998848 0 234)
    ∷ ("x1e.2xlarge", of "x1e.2xlarge" 8 249856 0 58)
    ∷ ("x1e.32xlarge", of "x1e.32xlarge" 128 3997696 0 234)
    ∷ ("x1e.4xlarge", of "x1e.4xlarge" 16 499712 0 58)
    ∷ ("x1e.8xlarge", of "x1e.8xlarge" 32 999424 0 58)
    ∷ ("x1e.xlarge", of "x1e.xlarge" 4 124928 0 29)
    ∷ ("z1d", of "z1d" 48 0 0 0)
    ∷ ("z1d.12xlarge", of "z1d.12xlarge" 48 393216 0 737)
    ∷ ("z1d.2xlarge", of "z1d.2xlarge" 8 65536 0 58)
    ∷ ("z1d.3xlarge", of "z1d.3xlarge" 12 98304 0 234)
    ∷ ("z1d.6xlarge", of "z1d.6xlarge" 24 196608 0 234)
    ∷ ("z1d.large", of "z1d.large" 2 16384 0 29)
    ∷ ("z1d.xlarge", of "z1d.xlarge" 4 32768 0 58)
    ∷ []
