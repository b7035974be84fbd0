-- ===== src/Eks/Worker/Flags.antt =====
-- The deletion of the worker nodes and the flags.
use aws_k8s_tester.Common.{String, List, [], ◌∷◌, Option}
use aws_k8s_tester.Config.{ClusterState}
use aws_k8s_tester.Runtime.Outside.{Reply, done, failed, Stack}
use aws_k8s_tester.Runtime.Action.{World}
use aws_k8s_tester.Runtime.Keeps.{Holds, Keeps, keeps_rules, Keeps-sync}
use aws_k8s_tester.Eks.Flag.{worker_node, lower_flag}
use aws_k8s_tester.Eks.Flag.Rules.{
  IsDown, Below, lower_flag-Below, lower_flag_lowers, releasing-Keeps, releasing_lowers,
}
use aws_k8s_tester.Eks.Vpc.Flags.{after_loop-Keeps}
use aws_k8s_tester.Eks.Worker.{
  delete_described, delete_round, deletion_started, delete_nodes_body, delete_worker_node,
}

module _ (b : ClusterState) where
  delete_described-Below :
      (n : String) (r : Reply (List Stack)) → Keeps (Below b) (delete_described n r)
  unfolding delete_described
  delete_described-Below n (done []) = search keeps_rules
  delete_described-Below n (done (s ∷ rest)) = search keeps_rules
  delete_described-Below n (failed e) = search (keeps_rules, Keeps-sync) depth 10

  delete_round-Below : (n : String) (last : Option String) → Keeps (Below b) (delete_round n last)
  unfolding delete_round
  delete_round-Below n last = search (keeps_rules, delete_described-Below) depth 10

  deletion_started-Below : (n : String) (r : Reply Unit) → Keeps (Below b) (deletion_started n r)
  unfolding deletion_started
  deletion_started-Below n (failed e) = search keeps_rules
  deletion_started-Below n (done a) =
      search (keeps_rules, Keeps-sync, delete_round-Below, after_loop-Keeps) depth 12

  delete_nodes_body-Below : Keeps (Below b) delete_nodes_body
  unfolding delete_nodes_body
  delete_nodes_body-Below = search (keeps_rules, deletion_started-Below) depth 8

  pub delete_worker_node-Below : Keeps (Below b) delete_worker_node
  unfolding delete_worker_node
  delete_worker_node-Below = search (releasing-Keeps, lower_flag-Below, delete_nodes_body-Below)

pub delete_worker_node_lowers : (w : World) → Holds (IsDown worker_node) (delete_worker_node w).1
unfolding delete_worker_node
delete_worker_node_lowers =
    releasing_lowers worker_node (lower_flag worker_node) delete_nodes_body
      (lower_flag_lowers worker_node)
