-- ===== src/Eks/Cluster/Flags.antt =====
-- The deletion of the cluster and the flags.
use aws_k8s_tester.Common.{String, Bool, Option}
use aws_k8s_tester.Config.{ClusterState}
use aws_k8s_tester.Runtime.Outside.{Reply, done, failed, Cluster}
use aws_k8s_tester.Runtime.Action.{World}
use aws_k8s_tester.Runtime.Keeps.{Holds, Keeps, keeps_rules, Keeps-sync}
use aws_k8s_tester.Eks.Flag.{cluster, lower_flag}
use aws_k8s_tester.Eks.Flag.Rules.{
  IsDown, Below, lower_flag-Below, lower_flag_lowers, releasing-Keeps, releasing_lowers,
}
use aws_k8s_tester.Eks.Upload.Rules.{upload_tester_logs-Keeps}
use aws_k8s_tester.Eks.Vpc.Flags.{after_loop-Keeps}
use aws_k8s_tester.Eks.Cluster.{
  upload_error, delete_described, delete_round, unless_gone, remove_kubeconfig, delete_cluster_body,
  delete_cluster, store_cluster,
}

module _ (b : ClusterState) where
  store_cluster-Below : (d : Cluster) → Keeps (Below b) (store_cluster d)
  unfolding store_cluster
  store_cluster-Below d = search keeps_rules

  upload_error-Below : (e : Bool) → Keeps (Below b) (upload_error e)
  unfolding upload_error
  upload_error-Below e = search (keeps_rules, upload_tester_logs-Keeps)

  delete_described-Below : (r : Reply Cluster) → Keeps (Below b) (delete_described r)
  unfolding delete_described
  delete_described-Below (done d) =
      search (keeps_rules, store_cluster-Below, Keeps-sync, upload_error-Below) depth 12
  delete_described-Below (failed e) = search (keeps_rules, Keeps-sync) depth 10

  delete_round-Below : (n : String) (last : Option String) → Keeps (Below b) (delete_round n last)
  unfolding delete_round
  delete_round-Below n last = search (keeps_rules, delete_described-Below) depth 10

  unless_gone-Below : (r : Reply Unit) → Keeps (Below b) (unless_gone r)
  unfolding unless_gone
  unless_gone-Below (done a) = search keeps_rules
  unless_gone-Below (failed e) = search keeps_rules

  remove_kubeconfig-Below : (path : String) → Keeps (Below b) (remove_kubeconfig path)
  unfolding remove_kubeconfig
  remove_kubeconfig-Below path = search keeps_rules

  delete_cluster_body-Below : Keeps (Below b) delete_cluster_body
  unfolding delete_cluster_body
  delete_cluster_body-Below =
      search
        (
          keeps_rules, remove_kubeconfig-Below, unless_gone-Below, delete_round-Below,
          after_loop-Keeps,
        )
        depth 16

  pub delete_cluster-Below : Keeps (Below b) delete_cluster
  unfolding delete_cluster
  delete_cluster-Below = search (releasing-Keeps, lower_flag-Below, delete_cluster_body-Below)

pub delete_cluster_lowers : (w : World) → Holds (IsDown cluster) (delete_cluster w).1
unfolding delete_cluster
delete_cluster_lowers =
    releasing_lowers cluster (lower_flag cluster) delete_cluster_body (lower_flag_lowers cluster)
