-- ===== src/Eks/Worker.antt =====
-- internal/eks/worker_node.go: the CloudFormation stack of the worker nodes, and their joining.
pub mod Rules
pub mod Access
pub mod Steady
pub mod Ready
pub mod Flags
use aws_k8s_tester.Common.{
  ℕ, ◌*◌, String, ◌<>◌, Bool, true, false, not, ◌&&◌, List, [], ◌∷◌, Option, none, some, str_eq,
  contains, join, length, ◌==◌, if◌then◌else◌,
}
use aws_k8s_tester.Common.Int.{ℤ, pos, pos_part, add64, mul64, eqb_ℤ}
use aws_k8s_tester.Config.{Config, ClusterState}
use aws_k8s_tester.Runtime.Outside.{
  Stack, IpPermission, ExecResult, Node, cf_create_stack, cf_describe_stacks, cf_delete_stack,
  ec2_describe_security_groups, ec2_authorize_ingress, ec2_authorize_egress, worker_template,
  poll_stopc, await_stopc, write_temp_file, remove_all,
}
use aws_k8s_tester.Runtime.Words.{
  Reply, done, failed, Outside, M, acknowledge, pure, raise, crash, gets, for_each, attempt, ◌>>=◌,
  ◌>>◌, deferring, ask, call, sleep, modify_state, ignore, sync, Next, again, stop, leave, Finish,
  ended, left, poll,
}
use aws_k8s_tester.Runtime.Time.{second, minute}
use aws_k8s_tester.Eks.Flag.{worker_node, raise_flag, lower_flag, releasing}
use aws_k8s_tester.Eks.Vpc.{is_cf_create_failed, is_cf_deleted, after_loop, error_of}
use aws_k8s_tester.Eks.Cluster.{run_kubectl}
use aws_k8s_tester.Eks.Nodes.{count_ready_nodes}
use aws_k8s_tester.Eks.Asg.{check_asg}

abbrev pub set_stack_status : String → ClusterState → ClusterState
set_stack_status e s = record s { cf_stack_worker_node_group_status = e }

abbrev pub set_node_status : String → ClusterState → ClusterState
set_node_status e s = record s { worker_node_group_status = e }

abbrev pub set_both_status : String → ClusterState → ClusterState
set_both_status e s = record s {
  cf_stack_worker_node_group_status = e;
  worker_node_group_status = e;
}

-- `base + 2*time.Duration(WorkerNodeASGMax)*time.Minute`; a loop sees a negative limit as 0.
unfoldable pub wait_time : ℕ → ℤ → ℕ
wait_time base asg_max = pos_part (add64 (pos base) (mul64 (mul64 (pos 2) asg_max) (pos minute)))

-- `subnetIDs[:1]`, which panics on an empty slice, unless high availability is on.
subnets : Bool → List String → M (List String)
subnets true ids = pure ids
subnets false [] = crash "slice bounds out of range"
subnets false (id ∷ _) = pure (id ∷ [])

stack_parameters : Outside → Config → List String → List (String × String)
stack_parameters o c ids =
    ("ClusterName", c.cluster_name)
    ∷ ("NodeGroupName", c.cluster_state.cf_stack_worker_node_group_name)
    ∷ ("KeyName", c.cluster_state.cf_stack_worker_node_group_key_pair_name)
    ∷ ("NodeImageId", c.worker_node_ami)
    ∷ ("NodeInstanceType", c.worker_node_instance_type)
    ∷ ("NodeAutoScalingGroupMinSize", o.decimal_ℤ c.worker_node_asg_min)
    ∷ ("NodeAutoScalingGroupMaxSize", o.decimal_ℤ c.worker_node_asg_max)
    ∷ ("NodeAutoScalingGroupDesiredCapacity", o.decimal_ℤ c.worker_node_asg_desired_capacity)
    ∷ ("NodeVolumeSize", o.decimal_ℤ c.worker_node_volume_size_gb)
    ∷ ("VpcId", c.vpc_id)
    ∷ ("Subnets", join "," ids)
    ∷ ("ClusterControlPlaneSecurityGroup", c.security_group_id)
    ∷ []

abbrev store_output : String × String → ClusterState → ClusterState
store_output (key, value) s =
    if str_eq key "NodeInstanceRole"
    then record s { cf_stack_worker_node_group_worker_node_instance_role_arn = value }
    else if str_eq key "NodeSecurityGroup"
    then record s { cf_stack_worker_node_group_security_group_id = value }
    else s

store_outputs : List (String × String) → M (Unit {0})
store_outputs outputs = for_each outputs (λ output. modify_state (store_output output))

is_port : Option ℤ → ℕ → Bool
is_port none n = false
is_port (some p) n = eqb_ℤ p (pos n)

-- `rg`: the one range, or nothing.
only_range : List String → String
only_range (cidr ∷ []) = cidr
only_range _ = ""

unfoldable pub allows_ssh : IpPermission → Bool
unfolding is_port only_range
allows_ssh p =
    is_port p.from_port 22 && (is_port p.to_port 22 && str_eq (only_range p.ip_ranges) "0.0.0.0/0")

any_allows_ssh : List IpPermission → Bool
any_allows_ssh [] = false
any_allows_ssh (p ∷ rest) = if allows_ssh p then true else any_allows_ssh rest

unfoldable pub found_ssh_access : List (List IpPermission) → Bool
unfolding any_allows_ssh
found_ssh_access [] = false
found_ssh_access (g ∷ rest) = if any_allows_ssh g then true else found_ssh_access rest

authorize_ssh : Outside → String → List (List IpPermission) → M (Unit {0})
authorize_ssh o group [] = raise "expected at least 1 worker node group security group, got 0 ([])"
authorize_ssh o group (g ∷ groups) =
    if not (found_ssh_access (g ∷ groups))
    then call (ec2_authorize_ingress group 22 22) acknowledge
    else pure tt

check_ssh : Outside → String → Bool → M (Unit {0})
unfolding authorize_ssh
check_ssh o group false = pure tt
check_ssh o group true = do
  groups ← call (ec2_describe_security_groups group) (λ o. o.security_groups)
  authorize_ssh o group groups

authorize_privileged : String → String → Bool → M (Unit {0})
authorize_privileged group control_plane false = pure tt
authorize_privileged group control_plane true = do
  call (ec2_authorize_ingress group 1 1024) acknowledge
  call (ec2_authorize_egress control_plane 1 1024) acknowledge

asg_checked : Reply (Unit {0}) → M (Next (Option String))
asg_checked (done _) = pure (stop none)
asg_checked (failed e) = pure (again (some e))

-- The stack is complete and has a security group.
open_ports : Outside → String → M (Next (Option String))
unfolding check_ssh authorize_privileged asg_checked
open_ports o group = do
  c ← gets (λ w. w.cfg)
  check_ssh o group c.enable_worker_node_ssh
  authorize_privileged group c.security_group_id c.enable_worker_node_privileged_port_access
  r ← attempt check_asg
  asg_checked r

stack_complete : Outside → Stack → M (Next (Option String))
unfolding store_outputs open_ports
stack_complete o s = do
  store_outputs s.outputs
  ignore sync
  group ← gets (λ w. w.cfg.cluster_state.cf_stack_worker_node_group_security_group_id)
  if str_eq group "" then (do sleep (5 * second); pure (again none)) else open_ports o group

stack_described : Outside → String → Reply (List Stack) → M (Next (Option String))
unfolding stack_complete
stack_described o name (failed e) = do
  modify_state (set_stack_status e)
  ignore sync
  sleep (20 * second)
  pure (again (some e))
stack_described o name (done (s ∷ [])) = do
  modify_state (set_stack_status s.stack_status)
  if is_cf_create_failed s.stack_status
      then raise
          ("failed to create " <> (o.quoted name <> (" (" <> (o.quoted s.stack_status <> ")"))))
      else if not (str_eq s.stack_status "CREATE_COMPLETE")
      then (do sleep (20 * second); pure (again none))
      else stack_complete o s
stack_described o name (done stacks) =
    raise (o.quoted name <> (" expects 1 Stack, got " <> o.stacks_text stacks))

stack_round : Outside → String → Option String → M (Next (Option String))
unfolding stack_described
stack_round o name last = do
  stopped ← ask poll_stopc (λ o. o.stopped)
  if stopped
      then pure leave
      else do r ← attempt (call (cf_describe_stacks name) (λ o. o.stacks)); stack_described o name r

-- `WorkerNodeGroupStatus = status; Sync(); Sleep(d); continue`
wait_nodes : String → ℕ → Bool → M (Next Bool)
wait_nodes status d applied = do
  modify_state (set_node_status status)
  ignore sync
  sleep d
  pure (again applied)

nodes_decoded : Outside → Reply (List Node) → M (Next Bool)
unfolding wait_nodes count_ready_nodes
nodes_decoded o (failed e) =
    wait_nodes ("error parsing kubectl get nodes output: " <> e) (10 * second) true
nodes_decoded o (done nodes) = do
  asg_max ← gets (λ w. w.cfg.worker_node_asg_max)
  if eqb_ℤ (pos (count_ready_nodes nodes)) asg_max
      then (do modify_state (set_node_status "READY"); ignore sync; pure (stop true))
      else wait_nodes (o.decimal (length nodes) <> " AVAILABLE") (15 * second) true

nodes_listed : Outside → String → Option String → M (Next Bool)
unfolding nodes_decoded wait_nodes
nodes_listed o output (some e) =
    if contains e "unknown flag:"
    then raise ("unknown flag " <> output)
    else wait_nodes e (5 * second) true
nodes_listed o output none = nodes_decoded o (o.decode_nodes output)

list_nodes : Outside → M (Next Bool)
unfolding nodes_listed
list_nodes o = do r ← run_kubectl ("get" ∷ "nodes" ∷ "-ojson" ∷ []); nodes_listed o r.output r.error

map_applied : Outside → String → Option String → M (Next Bool)
unfolding list_nodes wait_nodes
map_applied o output (some e) =
    if contains e "unknown flag:"
    then raise ("unknown flag " <> output)
    else wait_nodes e (5 * second) false
map_applied o output none = list_nodes o

apply_or_list : Outside → String → Bool → M (Next Bool)
unfolding map_applied list_nodes
apply_or_list o path true = list_nodes o
apply_or_list o path false = do
  r ← run_kubectl ("apply" ∷ ("--filename=" <> path) ∷ [])
  map_applied o r.output r.error

-- One round of the second loop; its state is the variable `applied`.
join_round : Outside → String → Bool → M (Next Bool)
unfolding apply_or_list
join_round o path applied = do
  stopped ← ask poll_stopc (λ o. o.stopped)
  if stopped then pure leave else apply_or_list o path applied

joined : Outside → Finish Bool → M (Unit {0})
joined o left = pure tt
joined o (ended _) = do
  c ← gets (λ w. w.cfg)
  if not (str_eq c.cluster_state.worker_node_group_status "READY")
      then raise (
          "worker nodes are not ready (status "
          <> (o.quoted c.cluster_state.worker_node_group_status
              <> (", ASG max " <> (o.decimal_ℤ c.worker_node_asg_max <> ")"))))
      else sync

-- From the config map on: its file is removed on every way out.
join_nodes : Outside → ℕ → M (Unit {0})
unfolding join_round joined
join_nodes o limit = do
  arn ← gets (λ w. w.cfg.cluster_state.cf_stack_worker_node_group_worker_node_instance_role_arn)
  if str_eq arn "" then raise "cannot find node group instance role ARN" else do
    path ← call (write_temp_file arn) (λ o. o.text)
    deferring (ignore (call (remove_all path) acknowledge))
        (do finish ← poll limit (join_round o path) false; joined o finish)

after_stack : Outside → ℕ → Finish (Option String) → M (Unit {0})
unfolding join_nodes
after_stack o limit left = pure tt
after_stack o limit (ended (some e)) = raise e
after_stack o limit (ended none) = join_nodes o limit

start_nodes : Outside → Config → M (Unit {0})
unfolding subnets stack_parameters stack_round after_stack wait_time join
start_nodes o c = do
  let name = c.cluster_state.cf_stack_worker_node_group_name
  template ← call worker_template (λ o. o.text)
  ids ← subnets c.enable_worker_node_ha c.subnet_ids
  call (cf_create_stack name (stack_parameters o c ids)) acknowledge
  raise_flag worker_node
  interrupted ← ask (await_stopc (2 * minute)) (λ o. o.stopped)
  if interrupted then pure tt else do
    sleep (2 * minute)
    let limit = wait_time (7 * minute) c.worker_node_asg_max
    finish ← poll limit (stack_round o name) none
    after_stack o limit finish

unfoldable pub create_worker_node : M (Unit {0})
unfolding start_nodes
create_worker_node = do
  o ← gets (λ w. w.outside)
  c ← gets (λ w. w.cfg)
  if str_eq c.cluster_state.cf_stack_worker_node_group_key_pair_name ""
      then raise "cannot create worker node without key name"
      else if str_eq c.cluster_state.cf_stack_worker_node_group_name ""
      then raise "cannot create empty worker node"
      else start_nodes o c

delete_described : String → Reply (List Stack) → M (Next (Option String))
delete_described name (done []) = crash "index out of range"
delete_described name (done (s ∷ _)) = do
  modify_state (set_both_status s.stack_status)
  sleep (5 * second)
  pure (again none)
delete_described name (failed e) =
    if is_cf_deleted name e
    then (do modify_state (set_both_status "DELETE_COMPLETE"); pure (stop none))
    else do
      modify_state (set_both_status e)
      ignore sync
      sleep (10 * second)
      pure (again (some e))

delete_round : String → Option String → M (Next (Option String))
unfolding delete_described
delete_round name last = do
  r ← attempt (call (cf_describe_stacks name) (λ o. o.stacks))
  delete_described name r

deletion_started : String → Reply (Unit {0}) → M (Unit {0})
unfolding delete_round wait_time after_loop
deletion_started name (failed e) = do modify_state (set_both_status e); raise e
deletion_started name (done _) = do
  ignore sync
  sleep minute
  asg_max ← gets (λ w. w.cfg.worker_node_asg_max)
  finish ← poll (wait_time (5 * minute) asg_max) (delete_round name) none
  after_loop finish

delete_nodes_body : M (Unit {0})
unfolding deletion_started
delete_nodes_body = do
  name ← gets (λ w. w.cfg.cluster_state.cf_stack_worker_node_group_name)
  if str_eq name ""
      then raise "cannot delete empty worker node"
      else do r ← attempt (call (cf_delete_stack name) acknowledge); deletion_started name r

unfoldable pub delete_worker_node : M (Unit {0})
unfolding delete_nodes_body
delete_worker_node = releasing worker_node (lower_flag worker_node) delete_nodes_body
