-- ===== src/Eks/Cluster/Rules.antt =====
-- The ends of the operations of eks.go.
use aws_k8s_tester.Common.{String, Bool, true, false, List, Option, none, some}
use aws_k8s_tester.Config.{Config}
use aws_k8s_tester.Runtime.Outside.{Reply, done, failed, Cluster, Outside}
use aws_k8s_tester.Runtime.Good.{Good, good_rules, Good-sync, Busy, busy_rules}
use aws_k8s_tester.Runtime.Poll.{Finish, ended, left}
use aws_k8s_tester.Eks.Flag.Rules.{lower_flag-Good, releasing-Good}
use aws_k8s_tester.Eks.Upload.Rules.{upload-Good, upload_tester_logs-Good, upload_if-Good}
use aws_k8s_tester.Eks.Vpc.Rules.{after_loop-Good}
use aws_k8s_tester.Eks.Cluster.{
  upload_logs_if_enabled, upload_error, create_described, create_round, write_kubeconfig,
  run_kubectl, info_round, answered, connect, check_active, after_creation, start_creation,
  create_cluster, delete_described, delete_round, unless_gone, remove_kubeconfig,
  delete_cluster_body, delete_cluster, store_cluster,
}

pub store_cluster-Good : (d : Cluster) → Good (store_cluster d)
unfolding store_cluster
store_cluster-Good d = search good_rules

upload_logs_if_enabled-Good : Good upload_logs_if_enabled
unfolding upload_logs_if_enabled
upload_logs_if_enabled-Good = search (good_rules, upload_tester_logs-Good, upload_if-Good)

upload_error-Good : (b : Bool) → Good (upload_error b)
unfolding upload_error
upload_error-Good b = search (good_rules, upload_tester_logs-Good)

create_described-Good :
    (o : Outside) (n : String) (r : Reply Cluster) → Good (create_described o n r)
unfolding create_described
create_described-Good o n (failed e) = search good_rules
create_described-Good o n (done d) =
    search (good_rules, store_cluster-Good, Good-sync, upload_error-Good) depth 16

create_round-Busy : (o : Outside) (n : String) (last : Option String) → Busy (create_round o n last)
unfolding create_round
create_round-Busy o n last = search (good_rules, busy_rules, create_described-Good) depth 10

write_kubeconfig-Good : Good write_kubeconfig
unfolding write_kubeconfig
write_kubeconfig-Good = search good_rules depth 14

pub run_kubectl-Busy : (args : List String) → Busy (run_kubectl args)
unfolding run_kubectl
run_kubectl-Busy args = search (good_rules, busy_rules)

info_round-Busy : (last : Option String × Bool) → Busy (info_round last)
unfolding info_round
info_round-Busy last = search (good_rules, busy_rules) depth 12

answered-Good : (finish : Finish (Option String × Bool)) → Good (answered finish)
unfolding answered
answered-Good left = search good_rules
answered-Good (ended (none, true)) = search Good-sync
answered-Good (ended (none, false)) = search good_rules
answered-Good (ended (some e, b)) = search good_rules

connect-Good : Good connect
unfolding connect
connect-Good =
    search
      (
        good_rules, write_kubeconfig-Good, upload-Good, upload_if-Good, info_round-Busy,
        answered-Good,
      )
      depth 14

check_active-Good : (o : Outside) → Good (check_active o)
unfolding check_active
check_active-Good o = search good_rules depth 8

after_creation-Good :
    (o : Outside) (finish : Finish (Option String)) → Good (after_creation o finish)
unfolding after_creation
after_creation-Good o left = search good_rules
after_creation-Good o (ended e) = search (good_rules, check_active-Good, connect-Good)

start_creation-Good : (o : Outside) (c : Config) → Good (start_creation o c)
unfolding start_creation
start_creation-Good o c =
    search
      (good_rules, Good-sync, upload_logs_if_enabled-Good, create_round-Busy, after_creation-Good)
      depth 16

-- The creation of the cluster ends.
pub create_cluster-Good : Good create_cluster
unfolding create_cluster
create_cluster-Good = search (good_rules, start_creation-Good) depth 12

delete_described-Good : (r : Reply Cluster) → Good (delete_described r)
unfolding delete_described
delete_described-Good (done d) =
    search (good_rules, store_cluster-Good, Good-sync, upload_error-Good) depth 12
delete_described-Good (failed e) = search (good_rules, Good-sync) depth 10

delete_round-Busy : (n : String) (last : Option String) → Busy (delete_round n last)
unfolding delete_round
delete_round-Busy n last = search (good_rules, busy_rules, delete_described-Good) depth 10

unless_gone-Good : (r : Reply Unit) → Good (unless_gone r)
unfolding unless_gone
unless_gone-Good (done a) = search good_rules
unless_gone-Good (failed e) = search good_rules

remove_kubeconfig-Good : (path : String) → Good (remove_kubeconfig path)
unfolding remove_kubeconfig
remove_kubeconfig-Good path = search good_rules

delete_cluster_body-Good : Good delete_cluster_body
unfolding delete_cluster_body
delete_cluster_body-Good =
    search
      (good_rules, remove_kubeconfig-Good, unless_gone-Good, delete_round-Busy, after_loop-Good)
      depth 16

-- The deletion of the cluster ends.
pub delete_cluster-Good : Good delete_cluster
unfolding delete_cluster
delete_cluster-Good = search (releasing-Good, lower_flag-Good, delete_cluster_body-Good)
