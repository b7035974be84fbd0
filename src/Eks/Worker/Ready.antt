-- ===== src/Eks/Worker/Ready.antt =====
-- What the creation of the worker nodes keeps, and what its success means.
use aws_k8s_tester.Common.{
  ℕ, String, Bool, true, false, ◌≡◌, ◌⊎◌, inl, inr, List, [], ◌∷◌, Option, none, some, str_eq,
  Bool-cases,
}
use aws_k8s_tester.Config.{Config}
use aws_k8s_tester.Runtime.Outside.{
  Reply, done, failed, Stack, remove_all, Node, Outside, poll_stopc,
}
use aws_k8s_tester.Runtime.Action.{World, ok, raise, gets, ◌>>=◌, ignore, call, acknowledge, sync}
use aws_k8s_tester.Runtime.Poll.{Finish, ended, left}
use aws_k8s_tester.Runtime.Keeps.{SawStop, Predicate, Keeps, keeps_rules, Keeps-sync}
use aws_k8s_tester.Runtime.Triple.{
  Triple, Any, Triple-bind, Triple-then, Triple-Keeps, Triple-pure, Triple-raise, Triple-if,
  Triple-poll, triple_rules, Triple-select, Triple-ok, Triple-deferring, OnLeave, OnLeft, Never,
}
use aws_k8s_tester.Eks.Worker.{
  asg_checked, wait_nodes, joined, map_applied, apply_or_list, join_round, join_nodes, after_stack,
  start_nodes, stack_round, stack_described, stack_complete, open_ports, nodes_listed,
  nodes_decoded, list_nodes, create_worker_node,
}

-- The nodes have joined the cluster.
abbrev pub HasNodes : Predicate
HasNodes o s = str_eq s.worker_node_group_status "READY" ≡ true

asg_checked_leaves : (r : Reply Unit) → Triple Any (asg_checked r) (OnLeave Never)
unfolding asg_checked
asg_checked_leaves (done a) = search triple_rules
asg_checked_leaves (failed e) = search triple_rules

open_ports_leaves : (o : Outside) (group : String) → Triple Any (open_ports o group) (OnLeave Never)
unfolding open_ports
open_ports_leaves o group = search (triple_rules, asg_checked_leaves) depth 10

stack_complete_leaves : (o : Outside) (s : Stack) → Triple Any (stack_complete o s) (OnLeave Never)
unfolding stack_complete
stack_complete_leaves o s = search (triple_rules, open_ports_leaves) depth 10

stack_described_leaves :
    (o : Outside) (name : String) (r : Reply (List Stack))
    → Triple Any (stack_described o name r) (OnLeave Never)
unfolding stack_described
stack_described_leaves o name (failed e) = search triple_rules depth 10
stack_described_leaves o name (done []) = search triple_rules
stack_described_leaves o name (done (s ∷ [])) =
    search (triple_rules, stack_complete_leaves) depth 10
stack_described_leaves o name (done (s ∷ t ∷ rest)) = search triple_rules

stack_round_leaves :
    (o : Outside) (name : String) (last : Option String)
    → Triple Any (stack_round o name last) (OnLeave Never)
unfolding stack_round
stack_round_leaves o name last =
    Triple-select poll_stopc _ _ tt (Triple-pure _ (λ w h. h))
      (Triple-then _ _ (λ r. stack_described_leaves o name r))

wait_nodes_leaves :
    (status : String) (d : ℕ) (applied : Bool)
    → Triple Any (wait_nodes status d applied) (OnLeave Never)
unfolding wait_nodes
wait_nodes_leaves status d applied = search triple_rules depth 10

nodes_decoded_leaves :
    (o : Outside) (r : Reply (List Node)) → Triple Any (nodes_decoded o r) (OnLeave Never)
unfolding nodes_decoded
nodes_decoded_leaves o (failed e) = search wait_nodes_leaves
nodes_decoded_leaves o (done nodes) = search (triple_rules, wait_nodes_leaves) depth 10

nodes_listed_leaves :
    (o : Outside) (output : String) (e : Option String)
    → Triple Any (nodes_listed o output e) (OnLeave Never)
unfolding nodes_listed
nodes_listed_leaves o output none = search (triple_rules, nodes_decoded_leaves)
nodes_listed_leaves o output (some e) = search (triple_rules, wait_nodes_leaves)

list_nodes_leaves : (o : Outside) → Triple Any (list_nodes o) (OnLeave Never)
unfolding list_nodes
list_nodes_leaves o = search (triple_rules, nodes_listed_leaves)

map_applied_leaves :
    (o : Outside) (output : String) (e : Option String)
    → Triple Any (map_applied o output e) (OnLeave Never)
unfolding map_applied
map_applied_leaves o output none = list_nodes_leaves o
map_applied_leaves o output (some e) = search (triple_rules, wait_nodes_leaves)

apply_or_list_leaves :
    (o : Outside) (path : String) (applied : Bool)
    → Triple Any (apply_or_list o path applied) (OnLeave Never)
unfolding apply_or_list
apply_or_list_leaves o path true = list_nodes_leaves o
apply_or_list_leaves o path false = search (triple_rules, map_applied_leaves)

join_round_leaves :
    (o : Outside) (path : String) (applied : Bool)
    → Triple Any (join_round o path applied) (OnLeave Never)
unfolding join_round
join_round_leaves o path applied =
    Triple-select poll_stopc _ _ tt (Triple-pure _ (λ w h. h)) (apply_or_list_leaves o path applied)

joined_ready :
    (o : Outside) (finish : Finish Bool)
    → Triple (OnLeft Never finish) (joined o finish) (λ _. HasNodes)
unfolding joined ◌>>=◌ gets raise
joined_ready o left = Triple-pure tt (λ w h. elim h [ ])
joined_ready o (ended applied) = record {
  at = λ w h. elim (Bool-cases (str_eq w.cfg.cluster_state.worker_node_group_status "READY")) [
    | inl ready ↦ rw ready ((Triple-Keeps {P = HasNodes} sync Keeps-sync).at w (inl ready))
    | inr waiting ↦ rw waiting tt
  ];
}

remove_map-Keeps :
    {P : Predicate} (path : String) → Keeps P (ignore (call (remove_all path) acknowledge))
remove_map-Keeps path = search keeps_rules

join_nodes_ready : (o : Outside) (limit : ℕ) → Triple Any (join_nodes o limit) (λ _. HasNodes)
unfolding join_nodes
join_nodes_ready o limit = Triple-then _ _ λ arn. Triple-if _ _ _ (Triple-raise _) (
    Triple-then _ _ λ path.
      Triple-deferring _ _ (λ a. remove_map-Keeps path)
        (Triple-bind (OnLeft Never) _ _
          (Triple-poll limit (join_round o path) false (join_round_leaves o path))
          (joined_ready o)))

after_stack_ready :
    (o : Outside) (limit : ℕ) (finish : Finish (Option String))
    → Triple (OnLeft Never finish) (after_stack o limit finish) (λ _. HasNodes)
unfolding after_stack
after_stack_ready o limit left = Triple-pure tt (λ w h. elim h [ ])
after_stack_ready o limit (ended none) = join_nodes_ready o limit
after_stack_ready o limit (ended (some e)) = Triple-raise e

start_nodes_ready : (o : Outside) (c : Config) → Triple Any (start_nodes o c) (λ _. HasNodes)
unfolding start_nodes
start_nodes_ready o c = Triple-then _ _ λ _. Triple-then _ _ λ _. Triple-then _ _ λ _.
    Triple-then _ _ λ _. Triple-select _ _ _ tt (Triple-pure tt (λ w h. elim h [ ])) (
      Triple-then _ _ λ _.
        Triple-bind (OnLeft Never) _ _
          (Triple-poll _ (stack_round o _) none (stack_round_leaves o _)) (after_stack_ready o _))

pub create_worker_node_ready : Triple Any create_worker_node (λ _. HasNodes)
unfolding create_worker_node
create_worker_node_ready = search (triple_rules, start_nodes_ready) depth 12

-- A creation of the worker nodes that returns no error leaves their status READY, unless a `select` of
-- the run has found the stop channel closed, which also ends the waiting without an error.
pub create_worker_node_ok :
    (w : World)
    → (create_worker_node w).0 ≡ ok tt
    → HasNodes (create_worker_node w).1.outside (create_worker_node w).1.cfg.cluster_state
      ⊎ SawStop (create_worker_node w).1
create_worker_node_ok w h = Triple-ok tt w create_worker_node_ready (inl tt) h
