-- ===== src/Eks/Alb.antt =====
-- internal/eks/alb: `DeleteSecurityGroup` and `DeleteIngressObjects`.
pub mod Rules
use aws_k8s_tester.Common.{
  ℕ, ◌*◌, String, ◌<>◌, Bool, true, false, not, ◌&&◌, ◌||◌, List, [], ◌∷◌, Option, none, some,
  lookup, str_eq, contains, if◌then◌else◌,
}
use aws_k8s_tester.Config.{AlbIngressController}
use aws_k8s_tester.Runtime.Outside.{
  ExecResult, ec2_revoke_ingress, ec2_delete_security_group, elb_delete_load_balancer,
  elb_describe_listeners, elb_delete_listener, elb_describe_target_groups, elb_delete_target_group,
}
use aws_k8s_tester.Runtime.Words.{
  Reply, done, failed, Outside, M, acknowledge, pure, raise, gets, for_each, attempt, ◌>>=◌, ◌>>◌,
  call, sleep, modify_alb, ignore, sync, Next, again, stop, poll,
}
use aws_k8s_tester.Runtime.Time.{second, minute}
use aws_k8s_tester.Eks.Cluster.{run_kubectl}

-- `isSecurityGroupHasDependencyGoClient` and `isSecurityGroupDeletedGoClient`, on the error's text.
abbrev has_dependency : String → String → Bool
has_dependency e id =
    contains e ("DependencyViolation: resource " <> (id <> " has a dependent object"))

abbrev is_expected : String → String → Bool
is_expected e id = has_dependency e id || contains e "does not exist"

abbrev set_group_status : String → AlbIngressController → AlbIngressController
set_group_status e a = record a { elbv2_security_group_status = e }

-- The error of a revocation is kept in the status only.
revoked : String → String → Reply (Unit {0}) → M (Unit {0})
revoked id port (done _) = pure tt
revoked id port (failed e) =
    if is_expected e id then pure tt else do modify_alb (set_group_status (e <> port)); ignore sync

group_deleted : String → Reply (Unit {0}) → M (Unit {0})
group_deleted id (done _) = do modify_alb (set_group_status "DELETE_COMPLETE"); sync
group_deleted id (failed e) =
    if is_expected e id
    then (do modify_alb (set_group_status "DELETE_COMPLETE"); sync)
    else do modify_alb (set_group_status e); ignore sync; raise e

-- `DeleteSecurityGroup`
unfoldable pub delete_security_group : M (Unit {0})
unfolding revoked group_deleted
delete_security_group = do
  id ← gets (λ w. w.cfg.alb_ingress_controller.elbv2_security_group_id_port_open)
  if str_eq id "" then raise "ALB Ingress Controller security group ID does not exist" else do
    modify_alb (set_group_status "DELETING")
    r ← attempt (call (ec2_revoke_ingress id 80) acknowledge)
    revoked id " for port 80" r
    r' ← attempt (call (ec2_revoke_ingress id 443) acknowledge)
    revoked id " for port 443" r'
    r'' ← attempt (call (ec2_delete_security_group id) acknowledge)
    group_deleted id r''

abbrev set_rules : String → String → AlbIngressController → AlbIngressController
set_rules system default a = record a {
  ingress_rule_status_kube_system = system;
  ingress_rule_status_default = default;
}

abbrev deleting_system : AlbIngressController → AlbIngressController
deleting_system a = record a {
  ingress_rule_status_kube_system = "DELETING (DELETED kube-system Ingress)";
}

abbrev or_empty : Option String → String
or_empty none = ""
or_empty (some s) = s

abbrev succeeded : Option String → Bool
succeeded none = true
succeeded (some e) = false

-- A listing without an error that lacks a name.
abbrev lacks : String → ExecResult → Bool
lacks name r = succeeded r.error && not (contains r.output name)

abbrev is_gone : String → ExecResult → Bool
is_gone addr r =
    (lacks addr r || (succeeded r.error && contains r.output "No resources found."))
    || contains r.output "no such host"

ingress_round :
    String → (AlbIngressController → AlbIngressController) → Unit {0} → M (Next (Unit {0}))
unfolding run_kubectl
ingress_round namespace mark _ = do
  r ← run_kubectl ("get" ∷ "ingress" ∷ "-o=wide" ∷ ("--namespace=" <> namespace) ∷ [])
  names ← gets (λ w. w.cfg.alb_ingress_controller.elbv2_namespace_to_dns_name)
  if is_gone (or_empty (lookup namespace names)) r
      then (do modify_alb mark; ignore sync; pure (stop tt))
      else do sleep (5 * second); pure (again tt)

listing_round : String → String → Unit {0} → M (Next (Unit {0}))
unfolding run_kubectl
listing_round kind name _ = do
  r ← run_kubectl ("get" ∷ kind ∷ "--namespace=kube-system" ∷ [])
  if lacks name r then pure (stop tt) else do sleep (5 * second); pure (again tt)

file_deleted : Option String → M (Unit {0})
file_deleted none = pure tt
file_deleted (some e) = raise e

-- `kubectl delete` of a file, whose error ends the deletion.
delete_file : String → M (Unit {0})
unfolding run_kubectl file_deleted
delete_file path = do
  r ← run_kubectl ("delete" ∷ ("--filename=" <> path) ∷ [])
  file_deleted r.error

found_listeners : Reply (List String) → M (Unit {0})
found_listeners (done arns) =
    for_each arns (λ arn. ignore (call (elb_delete_listener arn) acknowledge))
found_listeners (failed e) = pure tt

collect_listeners : String × String → M (Unit {0})
unfolding found_listeners
collect_listeners (name, arn) = do
  r ← attempt (call (elb_describe_listeners arn) (λ o. o.arns))
  found_listeners r

delete_group_if : Bool → String → M (Unit {0})
delete_group_if b arn =
    if b then ignore (call (elb_delete_target_group arn) acknowledge) else pure tt

-- A target group is its VPC and its ARN.
found_groups : (String → Bool) → Reply (List (String × String)) → M (Unit {0})
unfolding delete_group_if
found_groups in_vpc (done groups) = for_each groups (λ g. delete_group_if (in_vpc g.0) g.1)
found_groups in_vpc (failed e) = pure tt

collect_groups : String × String → M (Unit {0})
unfolding found_groups
collect_groups (name, arn) = do
  r ← attempt (call (elb_describe_target_groups arn) (λ o. o.target_groups))
  found_groups (λ _. true) r
  all ← attempt (call (elb_describe_target_groups "") (λ o. o.target_groups))
  id ← gets (λ w. w.cfg.vpc_id)
  found_groups (λ vpc. str_eq vpc id) all

balancer_deleted : Reply (Unit {0}) → M (Unit {0})
balancer_deleted (done _) = pure tt
balancer_deleted (failed e) = do modify_alb (set_rules e e); ignore sync

delete_balancer : String × String → M (Unit {0})
unfolding balancer_deleted
delete_balancer (name, arn) = do
  r ← attempt (call (elb_delete_load_balancer arn) acknowledge)
  balancer_deleted r

for_balancers : (String × String → M (Unit {0})) → M (Unit {0})
for_balancers body = do
  arns ← gets (λ w. w.cfg.alb_ingress_controller.elbv2_name_to_arn)
  for_each arns body

-- What follows the two guards. The loops over the map of ARNs go through it in one order.
delete_objects_body : M (Unit {0})
unfolding ingress_round listing_round delete_file collect_listeners collect_groups delete_balancer
    for_balancers
delete_objects_body = do
  modify_alb (set_rules "DELETING" "DELETING")
  objects ← gets (λ w. w.cfg.alb_ingress_controller.ingress_object_spec_path)
  delete_file objects
  system ← poll (5 * minute) (ingress_round "kube-system" deleting_system) tt
  default ←
      poll (5 * minute)
        (ingress_round "default" (
          set_rules "DELETED Ingress objects in all namespace"
            "DELETED Ingress objects in all namespace"))
        tt
  controller ← gets (λ w. w.cfg.alb_ingress_controller.ingress_controller_spec_path)
  delete_file controller
  pods ← poll (5 * minute) (listing_round "pods" "alb-ingress-controller-") tt
  services ← poll (5 * minute) (listing_round "svc" "alb-ingress-controller-service") tt
  sleep (5 * second)
  for_balancers collect_listeners
  sleep (5 * second)
  for_balancers collect_groups
  sleep (5 * second)
  for_balancers delete_balancer
  modify_alb (set_rules "DELETE_COMPLETE" "DELETE_COMPLETE")
  sync

-- `len(m) == 0`
abbrev is_empty : List (String × String) → Bool
is_empty [] = true
is_empty (_ ∷ _) = false

-- `DeleteIngressObjects`
unfoldable pub delete_ingress_objects : M (Unit {0})
unfolding delete_objects_body
delete_ingress_objects = do
  a ← gets (λ w. w.cfg.alb_ingress_controller)
  if is_empty a.elbv2_namespace_to_dns_name
      then raise "cannot find any ELBv2 DNS names (previous step might have failed)"
      else if is_empty a.elbv2_name_to_arn
      then raise "cannot find ELBv2 ARNs to delete (previous step might have failed)"
      else delete_objects_body
