-- ===== src/Eks/Asg.antt =====
-- internal/eks/worker_node.go, `checkASG`: the auto scaling group of the worker nodes.
pub mod Rules
pub mod Group
pub mod Batches
pub mod Steady
use aws_k8s_tester.Common.{
  ℕ, zero, suc, ◌*◌, String, ◌<>◌, Bool, true, false, not, List, [], ◌∷◌, ◌++◌, Option, none, some,
  str_eq, ltb, leb, ◌==◌, length, take, if◌then◌else◌,
}
use aws_k8s_tester.Common.Int.{ℤ, pos, eqb_ℤ}
use aws_k8s_tester.Config.{Config, Instance}
use aws_k8s_tester.Runtime.Outside.{
  Described, StackResource, AsgInstance, AutoScalingGroup, cf_describe_stack_resources,
  asg_describe, ec2_describe_instances,
}
use aws_k8s_tester.Runtime.Words.{
  Reply, done, failed, Outside, M, pure, raise, spin, gets, attempt, ◌>>=◌, ◌>>◌, call, sleep,
  modify_state,
}
use aws_k8s_tester.Runtime.Time.{second}

-- The physical id of the first auto scaling group among the resources.
find_asg : List StackResource → Option String
find_asg [] = none
find_asg (r ∷ rest) =
    if str_eq r.resource_type "AWS::AutoScaling::AutoScalingGroup"
    then some r.physical_resource_id
    else find_asg rest

store_asg : Option String → M (Unit {0})
store_asg none = pure tt
store_asg (some id) =
    modify_state (λ s. record s { cf_stack_worker_node_group_auto_scaling_group_name = id })

unfoldable pub healthy : List AsgInstance → ℕ
healthy [] = 0
healthy (i ∷ rest) = let n = healthy rest in if str_eq i.health_status "Healthy" then suc n else n

unfoldable pub instance_ids : List AsgInstance → List String
instance_ids [] = []
instance_ids (i ∷ rest) = i.instance_id ∷ instance_ids rest

unfoldable pub flatten : List (List Described) → List Described
flatten [] = []
flatten (xs ∷ rest) = xs ++ flatten rest

unfoldable pub running : List Described → ℕ
running [] = 0
running (i ∷ rest) = let n = running rest in if str_eq i.state_name "running" then suc n else n

-- The size, the bounds and the health of the group.
unfoldable pub check_group : Outside → Config → AutoScalingGroup → M (Unit {0})
unfolding healthy
check_group o c g =
    if not (eqb_ℤ g.min_size c.worker_node_asg_min)
    then raise (
        "ASG min size expected "
        <> (o.decimal_ℤ c.worker_node_asg_min <> (", got " <> o.decimal_ℤ g.min_size)))
    else if not (eqb_ℤ g.max_size c.worker_node_asg_max)
    then raise (
        "ASG max size expected "
        <> (o.decimal_ℤ c.worker_node_asg_max <> (", got " <> o.decimal_ℤ g.max_size)))
    else if not (eqb_ℤ (pos (length g.instances)) c.worker_node_asg_max)
    then raise (
        "instances expected "
        <> (o.decimal_ℤ c.worker_node_asg_max <> (", got " <> o.decimal (length g.instances))))
    else if not (healthy g.instances == length g.instances)
    then raise (
        "instances health count expected "
        <> (o.decimal (length g.instances) <> (", got " <> o.decimal (healthy g.instances))))
    else pure tt

-- `iss`: the ids of one call.
unfoldable pub batch : List String → List String
batch ids = if ltb 10 (length ids) then take 10 ids else ids

-- `rest` is the loop after this round.
batch_described :
    Outside
    → List String
    → List Described
    → (List String → List Described → M (List Described))
    → Reply (List (List Described))
    → M (List Described)
unfolding batch flatten running
batch_described o ids found rest (failed e) = raise ("failed to describe instances " <> e)
batch_described o ids found rest (done reservations) =
    if not (running (flatten reservations) == length (batch ids))
    then raise (
        "running instances expected "
        <> (o.decimal (length (batch ids))
            <> (", got " <> o.decimal (running (flatten reservations)))))
    else if leb (length ids) 10
    then pure (found ++ flatten reservations)
    else (do sleep (5 * second); rest (take 10 ids) (found ++ flatten reservations))

-- `for len(ids) > 0`. The source goes on with `ids[:10]`, so that the second round is the last.
unfoldable pub describe_batches : ℕ → Outside → List String → List Described → M (List Described)
unfolding batch_described
describe_batches fuel o [] found = pure found
describe_batches zero o (id ∷ ids) found = spin
describe_batches (suc fuel) o (id ∷ ids) found = do
  r ← attempt (call (ec2_describe_instances (batch (id ∷ ids))) (λ o. o.instances))
  batch_described o (id ∷ ids) found (describe_batches fuel o) r

or_empty : Option String → String
or_empty none = ""
or_empty (some s) = s

-- `ConvertEC2Instance` of internal/ec2/ec2.go, on the fields of `Instance`.
unfoldable pub convert_ec2_instance : Described → Instance
unfolding or_empty
convert_ec2_instance i = record {
  instance_id = i.instance_id;
  public_dns_name = or_empty i.public_dns_name;
  public_ip = or_empty i.public_ip;
  state_name = i.state_name;
}

-- `m[k] = v` of a map.
unfoldable pub insert_node : String → Instance → List (String × Instance) → List (String × Instance)
insert_node k v [] = (k, v) ∷ []
insert_node k v ((j, w) ∷ m) = if str_eq j k then (k, v) ∷ m else (j, w) ∷ insert_node k v m

unfoldable pub nodes_by_id : List Described → List (String × Instance) → List (String × Instance)
unfolding insert_node convert_ec2_instance
nodes_by_id [] m = m
nodes_by_id (i ∷ rest) m = nodes_by_id rest (insert_node i.instance_id (convert_ec2_instance i) m)

groups_described : Outside → Config → String → Reply (List AutoScalingGroup) → M (Unit {0})
unfolding check_group describe_batches nodes_by_id instance_ids
groups_described o c name (failed e) =
    raise ("ASG not found for " <> (o.quoted name <> (" (" <> (e <> ")"))))
groups_described o c name (done (g ∷ [])) = do
  check_group o c g
  sleep (3 * second)
  found ← describe_batches 2 o (instance_ids g.instances) []
  modify_state (λ s. record s { worker_nodes = nodes_by_id found [] })
groups_described o c name (done groups) =
    raise ("expected only 1 ASG, got " <> o.groups_text groups)

resources_described : Outside → String → List StackResource → M (Unit {0})
unfolding find_asg store_asg groups_described
resources_described o stack [] = raise ("stack resources not found for " <> o.quoted stack)
resources_described o stack (r ∷ rest) = do
  store_asg (find_asg (r ∷ rest))
  c ← gets (λ w. w.cfg)
  let name = c.cluster_state.cf_stack_worker_node_group_auto_scaling_group_name
  if str_eq name "" then raise "can't find physical resource ID for ASG" else do
    sleep (5 * second)
    groups ← attempt (call (asg_describe name) (λ o. o.auto_scaling_groups))
    groups_described o c name groups

unfoldable pub check_asg : M (Unit {0})
unfolding resources_described
check_asg = do
  o ← gets (λ w. w.outside)
  stack ← gets (λ w. w.cfg.cluster_state.cf_stack_worker_node_group_name)
  resources ← call (cf_describe_stack_resources stack) (λ o. o.stack_resources)
  resources_described o stack resources
