-- ===== src/Eks/Worker/Rules.antt =====
-- The ends of the operations of worker_node.go.
use aws_k8s_tester.Common.{ℕ, String, Bool, true, false, List, [], ◌∷◌, Option, none, some}
use aws_k8s_tester.Config.{Config}
use aws_k8s_tester.Runtime.Outside.{Reply, done, failed, Stack, IpPermission, Node, Outside}
use aws_k8s_tester.Runtime.Good.{Good, good_rules, Good-sync, Busy, busy_rules, Busy-Good}
use aws_k8s_tester.Runtime.Poll.{Finish, ended, left}
use aws_k8s_tester.Eks.Flag.Rules.{raise_flag-Good, lower_flag-Good, releasing-Good}
use aws_k8s_tester.Eks.Vpc.Rules.{after_loop-Good}
use aws_k8s_tester.Eks.Cluster.Rules.{run_kubectl-Busy}
use aws_k8s_tester.Eks.Asg.Rules.{check_asg-Good}
use aws_k8s_tester.Eks.Worker.{
  subnets, store_outputs, authorize_ssh, check_ssh, authorize_privileged, asg_checked, open_ports,
  stack_complete, stack_described, stack_round, wait_nodes, nodes_decoded, nodes_listed, list_nodes,
  map_applied, apply_or_list, join_round, joined, join_nodes, after_stack, start_nodes,
  create_worker_node, delete_described, delete_round, deletion_started, delete_nodes_body,
  delete_worker_node,
}

subnets-Good : (ha : Bool) (ids : List String) → Good (subnets ha ids)
unfolding subnets
subnets-Good true ids = search good_rules
subnets-Good false [] = search good_rules
subnets-Good false (id ∷ ids) = search good_rules

store_outputs-Good : (outputs : List (String × String)) → Good (store_outputs outputs)
unfolding store_outputs
store_outputs-Good outputs = search good_rules

authorize_ssh-Good :
    (o : Outside) (n : String) (gs : List (List IpPermission)) → Good (authorize_ssh o n gs)
unfolding authorize_ssh
authorize_ssh-Good o n [] = search good_rules
authorize_ssh-Good o n (g ∷ gs) = search good_rules

check_ssh-Good : (o : Outside) (n : String) (b : Bool) → Good (check_ssh o n b)
unfolding check_ssh
check_ssh-Good o n false = search good_rules
check_ssh-Good o n true = search (good_rules, authorize_ssh-Good)

authorize_privileged-Good : (n m : String) (b : Bool) → Good (authorize_privileged n m b)
unfolding authorize_privileged
authorize_privileged-Good n m false = search good_rules
authorize_privileged-Good n m true = search good_rules

asg_checked-Good : (r : Reply Unit) → Good (asg_checked r)
unfolding asg_checked
asg_checked-Good (done a) = search good_rules
asg_checked-Good (failed e) = search good_rules

open_ports-Good : (o : Outside) (n : String) → Good (open_ports o n)
unfolding open_ports
open_ports-Good o n =
    search (good_rules, check_ssh-Good, authorize_privileged-Good, check_asg-Good, asg_checked-Good)
      depth 12

stack_complete-Good : (o : Outside) (s : Stack) → Good (stack_complete o s)
unfolding stack_complete
stack_complete-Good o s =
    search (good_rules, store_outputs-Good, Good-sync, open_ports-Good) depth 12

stack_described-Good :
    (o : Outside) (n : String) (r : Reply (List Stack)) → Good (stack_described o n r)
unfolding stack_described
stack_described-Good o n (failed e) = search (good_rules, Good-sync) depth 8
stack_described-Good o n (done []) = search good_rules
stack_described-Good o n (done (s ∷ [])) = search (good_rules, stack_complete-Good) depth 10
stack_described-Good o n (done (s ∷ t ∷ rest)) = search good_rules

stack_round-Busy : (o : Outside) (n : String) (last : Option String) → Busy (stack_round o n last)
unfolding stack_round
stack_round-Busy o n last = search (good_rules, busy_rules, stack_described-Good) depth 10

wait_nodes-Good : (status : String) (d : ℕ) (b : Bool) → Good (wait_nodes status d b)
unfolding wait_nodes
wait_nodes-Good status d b = search (good_rules, Good-sync) depth 10

nodes_decoded-Good : (o : Outside) (r : Reply (List Node)) → Good (nodes_decoded o r)
unfolding nodes_decoded
nodes_decoded-Good o (failed e) = search wait_nodes-Good
nodes_decoded-Good o (done nodes) = search (good_rules, Good-sync, wait_nodes-Good) depth 10

nodes_listed-Good :
    (o : Outside) (output : String) (e : Option String) → Good (nodes_listed o output e)
unfolding nodes_listed
nodes_listed-Good o output (some e) = search (good_rules, wait_nodes-Good)
nodes_listed-Good o output none = search nodes_decoded-Good

list_nodes-Good : (o : Outside) → Good (list_nodes o)
unfolding list_nodes
list_nodes-Good o = search (good_rules, run_kubectl-Busy, Busy-Good, nodes_listed-Good)

map_applied-Good :
    (o : Outside) (output : String) (e : Option String) → Good (map_applied o output e)
unfolding map_applied
map_applied-Good o output (some e) = search (good_rules, wait_nodes-Good)
map_applied-Good o output none = search list_nodes-Good

apply_or_list-Good : (o : Outside) (path : String) (b : Bool) → Good (apply_or_list o path b)
unfolding apply_or_list
apply_or_list-Good o path true = search list_nodes-Good
apply_or_list-Good o path false = search (good_rules, run_kubectl-Busy, Busy-Good, map_applied-Good)

join_round-Busy : (o : Outside) (path : String) (b : Bool) → Busy (join_round o path b)
unfolding join_round
join_round-Busy o path b = search (good_rules, busy_rules, apply_or_list-Good) depth 8

joined-Good : (o : Outside) (finish : Finish Bool) → Good (joined o finish)
unfolding joined
joined-Good o left = search good_rules
joined-Good o (ended b) = search (good_rules, Good-sync) depth 8

join_nodes-Good : (o : Outside) (limit : ℕ) → Good (join_nodes o limit)
unfolding join_nodes
join_nodes-Good o limit = search (good_rules, join_round-Busy, joined-Good) depth 12

after_stack-Good :
    (o : Outside) (limit : ℕ) (finish : Finish (Option String)) → Good (after_stack o limit finish)
unfolding after_stack
after_stack-Good o limit left = search good_rules
after_stack-Good o limit (ended (some e)) = search good_rules
after_stack-Good o limit (ended none) = search join_nodes-Good

start_nodes-Good : (o : Outside) (c : Config) → Good (start_nodes o c)
unfolding start_nodes
start_nodes-Good o c =
    search (good_rules, subnets-Good, raise_flag-Good, stack_round-Busy, after_stack-Good) depth 16

-- The creation of the worker nodes ends.
pub create_worker_node-Good : Good create_worker_node
unfolding create_worker_node
create_worker_node-Good = search (good_rules, start_nodes-Good) depth 8

delete_described-Good : (n : String) (r : Reply (List Stack)) → Good (delete_described n r)
unfolding delete_described
delete_described-Good n (done []) = search good_rules
delete_described-Good n (done (s ∷ rest)) = search good_rules
delete_described-Good n (failed e) = search (good_rules, Good-sync) depth 10

delete_round-Busy : (n : String) (last : Option String) → Busy (delete_round n last)
unfolding delete_round
delete_round-Busy n last = search (good_rules, busy_rules, delete_described-Good) depth 10

deletion_started-Good : (n : String) (r : Reply Unit) → Good (deletion_started n r)
unfolding deletion_started
deletion_started-Good n (failed e) = search good_rules
deletion_started-Good n (done a) =
    search (good_rules, Good-sync, delete_round-Busy, after_loop-Good) depth 12

delete_nodes_body-Good : Good delete_nodes_body
unfolding delete_nodes_body
delete_nodes_body-Good = search (good_rules, deletion_started-Good) depth 8

-- The deletion of the worker nodes ends.
pub delete_worker_node-Good : Good delete_worker_node
unfolding delete_worker_node
delete_worker_node-Good = search (releasing-Good, lower_flag-Good, delete_nodes_body-Good)
