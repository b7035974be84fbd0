-- ===== src/InstanceTypes/Second.antt =====
-- pkg/awsapi/ec2/instance_types.go: the rows from m1.medium to r4.large.
use aws_k8s_tester.Common.{String, List, [], ◌∷◌}
use aws_k8s_tester.InstanceTypes.Row.{InstanceType, of}

abbrev pub types_from_m1_medium : List (String × InstanceType)
types_from_m1_medium =
    ("m1.medium", of "m1.medium" 1 3840 0 12)
    ∷ ("m1.small", of "m1.small" 1 1740 0 8)
    ∷ ("m1.xlarge", of "m1.xlarge" 4 15360 0 58)
    ∷ ("m2.2xlarge", of "m2.2xlarge" 4 35020 0 118)
    ∷ ("m2.4xlarge", of "m2.4xlarge" 8 70041 0 234)
    ∷ ("m2.xlarge", of "m2.xlarge" 2 17510 0 58)
    ∷ ("m3", of "m3" 8 0 0 0)
    ∷ ("m3.2xlarge", of "m3.2xlarge" 8 30720 0 118)
    ∷ ("m3.large", of "m3.large" 2 7680 0 29)
    ∷ ("m3.medium", of "m3.medium" 1 3840 0 12)
    ∷ ("m3.xlarge", of "m3.xlarge" 4 15360 0 58)
    ∷ ("m4", of "m4" 40 0 0 0)
    ∷ ("m4.10xlarge", of "m4.10xlarge" 40 163840 0 234)
    ∷ ("m4.16xlarge", of "m4.16xlarge" 64 262144 0 234)
    ∷ ("m4.2xlarge", of "m4.2xlarge" 8 32768 0 58)
    ∷ ("m4.4xlarge", of "m4.4xlarge" 16 65536 0 234)
    ∷ ("m4.large", of "m4.large" 2 8192 0 20)
    ∷ ("m4.xlarge", of "m4.xlarge" 4 16384 0 58)
    ∷ ("m5", of "m5" 96 0 0 0)
    ∷ ("m5.12xlarge", of "m5.12xlarge" 48 196608 0 234)
    ∷ []

abbrev pub types_from_m5_24xlarge : List (String × InstanceType)
types_from_m5_24xlarge =
    ("m5.24xlarge", of "m5.24xlarge" 96 393216 0 737)
    ∷ ("m5.2xlarge", of "m5.2xlarge" 8 32768 0 58)
    ∷ ("m5.4xlarge", of "m5.4xlarge" 16 65536 0 234)
    ∷ ("m5.large", of "m5.large" 2 8192 0 29)
    ∷ ("m5.xlarge", of "m5.xlarge" 4 16384 0 58)
    ∷ ("m5a.12xlarge", of "m5a.12xlarge" 48 196608 0 234)
    ∷ ("m5a.24xlarge", of "m5a.24xlarge" 96 393216 0 737)
    ∷ ("m5a.2xlarge", of "m5a.2xlarge" 8 32768 0 58)
    ∷ ("m5a.4xlarge", of "m5a.4xlarge" 16 65536 0 234)
    ∷ ("m5a.large", of "m5a.large" 2 8192 0 29)
    ∷ ("m5a.xlarge", of "m5a.xlarge" 4 16384 0 58)
    ∷ ("m5d", of "m5d" 96 0 0 0)
    ∷ ("m5d.12xlarge", of "m5d.12xlarge" 48 196608 0 234)
    ∷ ("m5d.24xlarge", of "m5d.24xlarge" 96 393216 0 737)
    ∷ ("m5d.2xlarge", of "m5d.2xlarge" 8 32768 0 58)
    ∷ ("m5d.4xlarge", of "m5d.4xlarge" 16 65536 0 234)
    ∷ ("m5d.large", of "m5d.large" 2 8192 0 29)
    ∷ ("m5d.xlarge", of "m5d.xlarge" 4 16384 0 58)
    ∷ ("p2", of "p2" 64 0 16 0)
    ∷ ("p2.16xlarge", of "p2.16xlarge" 64 786432 16 234)
    ∷ []

abbrev pub types_from_p2_8xlarge : List (String × InstanceType)
types_from_p2_8xlarge =
    ("p2.8xlarge", of "p2.8xlarge" 32 499712 8 234)
    ∷ ("p2.xlarge", of "p2.xlarge" 4 62464 1 58)
    ∷ ("p3", of "p3" 64 499712 8 0)
    ∷ ("p3.16xlarge", of "p3.16xlarge" 64 499712 8 234)
    ∷ ("p3.2xlarge", of "p3.2xlarge" 8 62464 1 58)
    ∷ ("p3.8xlarge", of "p3.8xlarge" 32 249856 4 234)
    ∷ ("p3dn", of "p3dn" 96 786432 8 0)
    ∷ ("p3dn.24xlarge", of "p3dn.24xlarge" 96 786432 8 0)
    ∷ ("r3", of "r3" 32 0 0 0)
    ∷ ("r3.2xlarge", of "r3.2xlarge" 8 62464 0 58)
    ∷ ("r3.4xlarge", of "r3.4xlarge" 16 124928 0 234)
    ∷ ("r3.8xlarge", of "r3.8xlarge" 32 249856 0 234)
    ∷ ("r3.large", of "r3.large" 2 15616 0 29)
    ∷ ("r3.xlarge", of "r3.xlarge" 4 31232 0 58)
    ∷ ("r4", of "r4" 64 0 0 0)
    ∷ ("r4.16xlarge", of "r4.16xlarge" 64 499712 0 737)
    ∷ ("r4.2xlarge", of "r4.2xlarge" 8 62464 0 58)
    ∷ ("r4.4xlarge", of "r4.4xlarge" 16 124928 0 234)
    ∷ ("r4.8xlarge", of "r4.8xlarge" 32 249856 0 234)
    ∷ ("r4.large", of "r4.large" 2 15616 0 29)
    ∷ []
