-- ===== src/Eks/Worker/Steady.antt =====
-- The creation of the worker nodes, and the state of the cluster.
use aws_k8s_tester.Common.{
  ℕ, String, Bool, true, false, List, [], ◌∷◌, Option, none, some, str_eq, Bool-cases, inl, inr,
}
use aws_k8s_tester.Config.{Config, ClusterState}
use aws_k8s_tester.Runtime.Outside.{Reply, done, failed, Stack, IpPermission, Node, Outside}
use aws_k8s_tester.Runtime.Action.{modify_state}
use aws_k8s_tester.Runtime.Poll.{Finish, ended, left}
use aws_k8s_tester.Runtime.Keeps.{Predicate, Keeps, keeps_rules, Keeps-sync, Keeps-modify_state}
use aws_k8s_tester.Eks.Flag.{
  Flag, role, policy, vpc, cluster, key_pair, worker_node, with_flag, raise_flag,
}
use aws_k8s_tester.Eks.Cluster.{run_kubectl}
use aws_k8s_tester.Eks.Cluster.Ready.{IsUsable}
use aws_k8s_tester.Eks.Asg.Steady.{check_asg-IsUsable}
use aws_k8s_tester.Eks.Worker.{
  set_stack_status, set_node_status, store_output, store_outputs, subnets, authorize_ssh, check_ssh,
  authorize_privileged, asg_checked, wait_nodes, joined, map_applied, apply_or_list, join_round,
  join_nodes, after_stack, start_nodes, stack_round, stack_described, stack_complete, open_ports,
  nodes_listed, nodes_decoded, list_nodes, create_worker_node,
}

with_flag-IsUsable :
    (f : Flag) (b : Bool) (o : Outside) (s : ClusterState)
    → IsUsable o s
    → IsUsable o (with_flag f b s)
with_flag-IsUsable role b o s h = h
with_flag-IsUsable policy b o s h = h
with_flag-IsUsable vpc b o s h = h
with_flag-IsUsable cluster b o s h = h
with_flag-IsUsable key_pair b o s h = h
with_flag-IsUsable worker_node b o s h = h

pub raise_flag-IsUsable : (f : Flag) → Keeps IsUsable (raise_flag f)
unfolding raise_flag
raise_flag-IsUsable f = search (keeps_rules, with_flag-IsUsable, Keeps-sync)

store_output-IsUsable :
    (x : String × String) (o : Outside) (s : ClusterState)
    → IsUsable o s
    → IsUsable o (store_output x s)
store_output-IsUsable (k, v) o s h = elim (Bool-cases (str_eq k "NodeInstanceRole")) [
  | inl is_role ↦ rw is_role h
  | inr other ↦ elim (Bool-cases (str_eq k "NodeSecurityGroup")) [
    | inl is_group ↦ rw (other, is_group) h
    | inr neither ↦ rw (other, neither) h
  ]
]

store_outputs-IsUsable : (xs : List (String × String)) → Keeps IsUsable (store_outputs xs)
unfolding store_outputs
store_outputs-IsUsable xs = search (keeps_rules, store_output-IsUsable)

subnets-IsUsable : (b : Bool) (ids : List String) → Keeps IsUsable (subnets b ids)
unfolding subnets
subnets-IsUsable true ids = search keeps_rules
subnets-IsUsable false [] = search keeps_rules
subnets-IsUsable false (id ∷ ids) = search keeps_rules

authorize_ssh-IsUsable :
    (o : Outside) (g : String) (gs : List (List IpPermission))
    → Keeps IsUsable (authorize_ssh o g gs)
unfolding authorize_ssh
authorize_ssh-IsUsable o g [] = search keeps_rules
authorize_ssh-IsUsable o g (p ∷ gs) = search keeps_rules

check_ssh-IsUsable : (o : Outside) (g : String) (b : Bool) → Keeps IsUsable (check_ssh o g b)
unfolding check_ssh
check_ssh-IsUsable o g false = search keeps_rules
check_ssh-IsUsable o g true = search (keeps_rules, authorize_ssh-IsUsable)

authorize_privileged-IsUsable :
    (g c : String) (b : Bool) → Keeps IsUsable (authorize_privileged g c b)
unfolding authorize_privileged
authorize_privileged-IsUsable g c false = search keeps_rules
authorize_privileged-IsUsable g c true = search keeps_rules

asg_checked-IsUsable : (r : Reply Unit) → Keeps IsUsable (asg_checked r)
unfolding asg_checked
asg_checked-IsUsable (done a) = search keeps_rules
asg_checked-IsUsable (failed e) = search keeps_rules

open_ports-IsUsable : (o : Outside) (group : String) → Keeps IsUsable (open_ports o group)
unfolding open_ports
open_ports-IsUsable o group =
    search
      (
        keeps_rules, check_ssh-IsUsable, authorize_privileged-IsUsable, asg_checked-IsUsable,
        check_asg-IsUsable,
      )
      depth 10

stack_complete-IsUsable : (o : Outside) (s : Stack) → Keeps IsUsable (stack_complete o s)
unfolding stack_complete
stack_complete-IsUsable o s =
    search (keeps_rules, Keeps-sync, store_outputs-IsUsable, open_ports-IsUsable) depth 10

set_stack_status-IsUsable : (e : String) → Keeps IsUsable (modify_state (set_stack_status e))
set_stack_status-IsUsable e = Keeps-modify_state _ (λ o s h. h)

set_node_status-IsUsable : (e : String) → Keeps IsUsable (modify_state (set_node_status e))
set_node_status-IsUsable e = Keeps-modify_state _ (λ o s h. h)

ruleset status_rules =
    (set_stack_status-IsUsable, set_node_status-IsUsable, keeps_rules, Keeps-sync)

stack_described-IsUsable :
    (o : Outside) (name : String) (r : Reply (List Stack))
    → Keeps IsUsable (stack_described o name r)
unfolding stack_described
stack_described-IsUsable o name (failed e) = search status_rules depth 10
stack_described-IsUsable o name (done []) = search keeps_rules
stack_described-IsUsable o name (done (s ∷ [])) =
    search (status_rules, stack_complete-IsUsable) depth 10
stack_described-IsUsable o name (done (s ∷ t ∷ rest)) = search keeps_rules

stack_round-IsUsable :
    (o : Outside) (name : String) (last : Option String) → Keeps IsUsable (stack_round o name last)
unfolding stack_round
stack_round-IsUsable o name last = search (keeps_rules, stack_described-IsUsable) depth 10

wait_nodes-IsUsable : (status : String) (d : ℕ) (b : Bool) → Keeps IsUsable (wait_nodes status d b)
unfolding wait_nodes
wait_nodes-IsUsable status d b = search status_rules depth 10

nodes_decoded-IsUsable : (o : Outside) (r : Reply (List Node)) → Keeps IsUsable (nodes_decoded o r)
unfolding nodes_decoded
nodes_decoded-IsUsable o (failed e) = search wait_nodes-IsUsable
nodes_decoded-IsUsable o (done nodes) = search (status_rules, wait_nodes-IsUsable) depth 10

nodes_listed-IsUsable :
    (o : Outside) (output : String) (e : Option String) → Keeps IsUsable (nodes_listed o output e)
unfolding nodes_listed
nodes_listed-IsUsable o output none = search (keeps_rules, nodes_decoded-IsUsable)
nodes_listed-IsUsable o output (some e) = search (keeps_rules, wait_nodes-IsUsable)

run_kubectl-Keeps : {P : Predicate} (args : List String) → Keeps P (run_kubectl args)
unfolding run_kubectl
run_kubectl-Keeps args = search keeps_rules

list_nodes-IsUsable : (o : Outside) → Keeps IsUsable (list_nodes o)
unfolding list_nodes
list_nodes-IsUsable o = search (keeps_rules, run_kubectl-Keeps, nodes_listed-IsUsable)

map_applied-IsUsable :
    (o : Outside) (output : String) (e : Option String) → Keeps IsUsable (map_applied o output e)
unfolding map_applied
map_applied-IsUsable o output none = list_nodes-IsUsable o
map_applied-IsUsable o output (some e) = search (keeps_rules, wait_nodes-IsUsable)

apply_or_list-IsUsable :
    (o : Outside) (path : String) (b : Bool) → Keeps IsUsable (apply_or_list o path b)
unfolding apply_or_list
apply_or_list-IsUsable o path true = list_nodes-IsUsable o
apply_or_list-IsUsable o path false = search (keeps_rules, run_kubectl-Keeps, map_applied-IsUsable)

join_round-IsUsable :
    (o : Outside) (path : String) (b : Bool) → Keeps IsUsable (join_round o path b)
unfolding join_round
join_round-IsUsable o path b = search (keeps_rules, apply_or_list-IsUsable)

joined-IsUsable : (o : Outside) (finish : Finish Bool) → Keeps IsUsable (joined o finish)
unfolding joined
joined-IsUsable o left = search keeps_rules
joined-IsUsable o (ended b) = search (keeps_rules, Keeps-sync)

join_nodes-IsUsable : (o : Outside) (limit : ℕ) → Keeps IsUsable (join_nodes o limit)
unfolding join_nodes
join_nodes-IsUsable o limit = search (keeps_rules, join_round-IsUsable, joined-IsUsable) depth 12

after_stack-IsUsable :
    (o : Outside) (limit : ℕ) (finish : Finish (Option String))
    → Keeps IsUsable (after_stack o limit finish)
unfolding after_stack
after_stack-IsUsable o limit left = search keeps_rules
after_stack-IsUsable o limit (ended none) = join_nodes-IsUsable o limit
after_stack-IsUsable o limit (ended (some e)) = search keeps_rules

start_nodes-IsUsable : (o : Outside) (c : Config) → Keeps IsUsable (start_nodes o c)
unfolding start_nodes
start_nodes-IsUsable o c =
    search
      (
        keeps_rules, subnets-IsUsable, raise_flag-IsUsable, stack_round-IsUsable,
        after_stack-IsUsable,
      )
      depth 16

pub create_worker_node-IsUsable : Keeps IsUsable create_worker_node
unfolding create_worker_node
create_worker_node-IsUsable = search (keeps_rules, start_nodes-IsUsable) depth 10
