-- ===== src/Eks/KeyPair/Steady.antt =====
-- The creation of the key pair, and the state of the cluster.
use aws_k8s_tester.Runtime.Keeps.{Keeps, keeps_rules}
use aws_k8s_tester.Eks.Cluster.Ready.{IsUsable}
use aws_k8s_tester.Eks.Worker.Steady.{raise_flag-IsUsable}
use aws_k8s_tester.Eks.KeyPair.{create_key_pair}
use aws_k8s_tester.Eks.KeyPair.Tracks.{store_key-Keeps}

pub create_key_pair-IsUsable : Keeps IsUsable create_key_pair
unfolding create_key_pair
create_key_pair-IsUsable = search (keeps_rules, raise_flag-IsUsable, store_key-Keeps) depth 14
