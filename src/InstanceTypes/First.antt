-- ===== src/InstanceTypes/First.antt =====
-- pkg/awsapi/ec2/instance_types.go: the rows from a1 to m1.large.
use aws_k8s_tester.Common.{String, List, [], ◌∷◌}
use aws_k8s_tester.InstanceTypes.Row.{InstanceType, of}

abbrev pub types_from_a1 : List (String × InstanceType)
types_from_a1 =
    ("a1", of "a1" 16 0 0 0)
    ∷ ("a1.2xlarge", of "a1.2xlarge" 8 16384 0 0)
    ∷ ("a1.4xlarge", of "a1.4xlarge" 16 32768 0 0)
    ∷ ("a1.large", of "a1.large" 2 4096 0 0)
    ∷ ("a1.medium", of "a1.medium" 1 2048 0 0)
    ∷ ("a1.xlarge", of "a1.xlarge" 4 8192 0 0)
    ∷ ("c1.medium", of "c1.medium" 2 1740 0 12)
    ∷ ("c1.xlarge", of "c1.xlarge" 8 7168 0 58)
    ∷ ("c3", of "c3" 32 0 0 0)
    ∷ ("c3.2xlarge", of "c3.2xlarge" 8 15360 0 58)
    ∷ ("c3.4xlarge", of "c3.4xlarge" 16 30720 0 234)
    ∷ ("c3.8xlarge", of "c3.8xlarge" 32 61440 0 234)
    ∷ ("c3.large", of "c3.large" 2 3840 0 29)
    ∷ ("c3.xlarge", of "c3.xlarge" 4 7680 0 58)
    ∷ ("c4", of "c4" 36 0 0 0)
    ∷ ("c4.2xlarge", of "c4.2xlarge" 8 15360 0 58)
    ∷ ("c4.4xlarge", of "c4.4xlarge" 16 30720 0 234)
    ∷ ("c4.8xlarge", of "c4.8xlarge" 36 61440 0 234)
    ∷ ("c4.large", of "c4.large" 2 3840 0 29)
    ∷ ("c4.xlarge", of "c4.xlarge" 4 7680 0 58)
    ∷ []

abbrev pub types_from_c5 : List (String × InstanceType)
types_from_c5 =
    ("c5", of "c5" 72 0 0 0)
    ∷ ("c5.18xlarge", of "c5.18xlarge" 72 147456 0 737)
    ∷ ("c5.2xlarge", of "c5.2xlarge" 8 16384 0 58)
    ∷ ("c5.4xlarge", of "c5.4xlarge" 16 32768 0 234)
    ∷ ("c5.9xlarge", of "c5.9xlarge" 36 73728 0 234)
    ∷ ("c5.large", of "c5.large" 2 4096 0 29)
    ∷ ("c5.xlarge", of "c5.xlarge" 4 8192 0 58)
    ∷ ("c5d", of "c5d" 72 0 0 0)
    ∷ ("c5d.18xlarge", of "c5d.18xlarge" 72 147456 0 737)
    ∷ ("c5d.2xlarge", of "c5d.2xlarge" 8 16384 0 58)
    ∷ ("c5d.4xlarge", of "c5d.4xlarge" 16 32768 0 234)
    ∷ ("c5d.9xlarge", of "c5d.9xlarge" 36 73728 0 234)
    ∷ ("c5d.large", of "c5d.large" 2 4096 0 29)
    ∷ ("c5d.xlarge", of "c5d.xlarge" 4 8192 0 58)
    ∷ ("c5n", of "c5n" 72 0 0 0)
    ∷ ("c5n.18xlarge", of "c5n.18xlarge" 72 196608 0 0)
    ∷ ("c5n.2xlarge", of "c5n.2xlarge" 8 21504 0 0)
    ∷ ("c5n.4xlarge", of "c5n.4xlarge" 16 43008 0 0)
    ∷ ("c5n.9xlarge", of "c5n.9xlarge" 36 98304 0 0)
    ∷ ("c5n.large", of "c5n.large" 2 5376 0 0)
    ∷ []

abbrev pub types_from_c5n_xlarge : List (String × InstanceType)
types_from_c5n_xlarge =
    ("c5n.xlarge", of "c5n.xlarge" 4 10752 0 0)
    ∷ ("cc2.8xlarge", of "cc2.8xlarge" 32 61952 0 234)
    ∷ ("cr1.8xlarge", of "cr1.8xlarge" 32 249856 0 234)
    ∷ ("d2", of "d2" 36 0 0 0)
    ∷ ("d2.2xlarge", of "d2.2xlarge" 8 62464 0 58)
    ∷ ("d2.4xlarge", of "d2.4xlarge" 16 124928 0 234)
    ∷ ("d2.8xlarge", of "d2.8xlarge" 36 249856 0 234)
    ∷ ("d2.xlarge", of "d2.xlarge" 4 31232 0 58)
    ∷ ("f1", of "f1" 64 0 0 0)
    ∷ ("f1.16xlarge", of "f1.16xlarge" 64 999424 0 394)
    ∷ ("f1.2xlarge", of "f1.2xlarge" 8 124928 0 58)
    ∷ ("f1.4xlarge", of "f1.4xlarge" 16 249856 0 234)
    ∷ ("g2", of "g2" 32 0 4 0)
    ∷ ("g2.2xlarge", of "g2.2xlarge" 8 15360 1 58)
    ∷ ("g2.8xlarge", of "g2.8xlarge" 32 61440 4 234)
    ∷ ("g3", of "g3" 64 0 4 0)
    ∷ ("g3.16xlarge", of "g3.16xlarge" 64 499712 4 737)
    ∷ ("g3.4xlarge", of "g3.4xlarge" 16 124928 1 234)
    ∷ ("g3.8xlarge", of "g3.8xlarge" 32 249856 2 234)
    ∷ ("g3s.xlarge", of "g3s.xlarge" 4 31232 0 58)
    ∷ []

abbrev pub types_from_h1 : List (String × InstanceType)
types_from_h1 =
    ("h1", of "h1" 64 0 0 0)
    ∷ ("h1.16xlarge", of "h1.16xlarge" 64 262144 0 737)
    ∷ ("h1.2xlarge", of "h1.2xlarge" 8 32768 0 58)
    ∷ ("h1.4xlarge", of "h1.4xlarge" 16 65536 0 234)
    ∷ ("h1.8xlarge", of "h1.8xlarge" 32 131072 0 234)
    ∷ ("hs1.8xlarge", of "hs1.8xlarge" 17 119808 0 234)
    ∷ ("i2", of "i2" 32 0 0 0)
    ∷ ("i2.2xlarge", of "i2.2xlarge" 8 62464 0 58)
    ∷ ("i2.4xlarge", of "i2.4xlarge" 16 124928 0 234)
    ∷ ("i2.8xlarge", of "i2.8xlarge" 32 249856 0 234)
    ∷ ("i2.xlarge", of "i2.xlarge" 4 31232 0 58)
    ∷ ("i3", of "i3" 64 0 0 0)
    ∷ ("i3.16xlarge", of "i3.16xlarge" 64 499712 0 737)
    ∷ ("i3.2xlarge", of "i3.2xlarge" 8 62464 0 58)
    ∷ ("i3.4xlarge", of "i3.4xlarge" 16 124928 0 234)
    ∷ ("i3.8xlarge", of "i3.8xlarge" 32 249856 0 234)
    ∷ ("i3.large", of "i3.large" 2 15616 0 29)
    ∷ ("i3.metal", of "i3.metal" 72 524288 0 737)
    ∷ ("i3.xlarge", of "i3.xlarge" 4 31232 0 58)
    ∷ ("m1.large", of "m1.large" 2 7680 0 29)
    ∷ []
