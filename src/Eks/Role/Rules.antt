-- ===== src/Eks/Role/Rules.antt =====
-- The ends of the operations of service_role.go.
use aws_k8s_tester.Common.{String}
use aws_k8s_tester.Runtime.Outside.{Reply, done, failed, Outside}
use aws_k8s_tester.Runtime.Action.{World}
use aws_k8s_tester.Config.{ClusterState}
use aws_k8s_tester.Runtime.Good.{Good, good_rules, Good-sync}
use aws_k8s_tester.Runtime.Keeps.{Holds, Keeps, keeps_rules, Keeps-sync}
use aws_k8s_tester.Eks.Flag.{role, policy, lower_flag}
use aws_k8s_tester.Eks.Flag.Rules.{
  IsDown, raise_flag-Good, lower_flag-Good, lower_flag-Below, lower_flag_lowers, releasing_lowers,
  Below, releasing-Good, releasing-Keeps,
}
use aws_k8s_tester.Eks.Role.{
  store_role_arn, create_service_role, check_role_deleted, unless_deleted, delete_role_body,
  delete_service_role, attach_one, attach_policies, detach_one, detach_body, detach_policies,
}

store_role_arn-Good : (o : Outside) (a b : String) → Good (store_role_arn o a b)
unfolding store_role_arn
store_role_arn-Good o a b = search (good_rules, Good-sync)

pub create_service_role-Good : Good create_service_role
unfolding create_service_role
create_service_role-Good = search (good_rules, raise_flag-Good, store_role_arn-Good) depth 12

check_role_deleted-Good :
    (o : Outside) (n : String) (r : Reply String) → Good (check_role_deleted o n r)
unfolding check_role_deleted
check_role_deleted-Good o n (done a) = search good_rules
check_role_deleted-Good o n (failed e) = search (good_rules, Good-sync)

unless_deleted-Good : (r : Reply Unit) → Good (unless_deleted r)
unfolding unless_deleted
unless_deleted-Good (done a) = search good_rules
unless_deleted-Good (failed e) = search good_rules

delete_role_body-Good : Good delete_role_body
unfolding delete_role_body
delete_role_body-Good = search (good_rules, unless_deleted-Good, check_role_deleted-Good) depth 14

pub delete_service_role-Good : Good delete_service_role
unfolding delete_service_role
delete_service_role-Good = search (releasing-Good, lower_flag-Good, delete_role_body-Good)

attach_one-Good : (name pv : String) → Good (attach_one name pv)
unfolding attach_one
attach_one-Good name pv = search (good_rules, raise_flag-Good)

pub attach_policies-Good : Good attach_policies
unfolding attach_policies
attach_policies-Good = search (good_rules, attach_one-Good) depth 12

detach_one-Good : (name pv : String) → Good (detach_one name pv)
unfolding detach_one
detach_one-Good name pv = search (good_rules, unless_deleted-Good)

detach_body-Good : Good detach_body
unfolding detach_body
detach_body-Good = search (good_rules, detach_one-Good) depth 12

pub detach_policies-Good : Good detach_policies
unfolding detach_policies
detach_policies-Good = search (releasing-Good, lower_flag-Good, detach_body-Good)

module _ (b : ClusterState) where
  check_role_deleted-Below :
      (o : Outside) (n : String) (r : Reply String) → Keeps (Below b) (check_role_deleted o n r)
  unfolding check_role_deleted
  check_role_deleted-Below o n (done a) = search keeps_rules
  check_role_deleted-Below o n (failed e) = search (keeps_rules, Keeps-sync)

  unless_deleted-Below : (r : Reply Unit) → Keeps (Below b) (unless_deleted r)
  unfolding unless_deleted
  unless_deleted-Below (done a) = search keeps_rules
  unless_deleted-Below (failed e) = search keeps_rules

  delete_role_body-Below : Keeps (Below b) delete_role_body
  unfolding delete_role_body
  delete_role_body-Below =
      search (keeps_rules, unless_deleted-Below, check_role_deleted-Below) depth 14

  pub delete_service_role-Below : Keeps (Below b) delete_service_role
  unfolding delete_service_role
  delete_service_role-Below = search (releasing-Keeps, lower_flag-Below, delete_role_body-Below)

  detach_one-Below : (name pv : String) → Keeps (Below b) (detach_one name pv)
  unfolding detach_one
  detach_one-Below name pv = search (keeps_rules, unless_deleted-Below)

  detach_body-Below : Keeps (Below b) detach_body
  unfolding detach_body
  detach_body-Below = search (keeps_rules, detach_one-Below) depth 12

  pub detach_policies-Below : Keeps (Below b) detach_policies
  unfolding detach_policies
  detach_policies-Below = search (releasing-Keeps, lower_flag-Below, detach_body-Below)

pub delete_service_role_lowers : (w : World) → Holds (IsDown role) (delete_service_role w).1
unfolding delete_service_role
delete_service_role_lowers =
    releasing_lowers role (lower_flag role) delete_role_body (lower_flag_lowers role)

pub detach_policies_lowers : (w : World) → Holds (IsDown policy) (detach_policies w).1
unfolding detach_policies
detach_policies_lowers =
    releasing_lowers policy (lower_flag policy) detach_body (lower_flag_lowers policy)
