-- ===== src/Eks/Role.antt =====
-- internal/eks/service_role.go: the IAM role of the cluster and its policies.
pub mod Rules
pub mod Tracks
use aws_k8s_tester.Common.{
  String, ◌<>◌, Bool, true, false, not, ◌&&◌, List, [], ◌∷◌, Option, none, some, str_eq, contains,
  if◌then◌else◌,
}
use aws_k8s_tester.Runtime.Outside.{
  iam_create_role, iam_get_role, iam_delete_role, iam_attach_role_policy, iam_detach_role_policy,
}
use aws_k8s_tester.Runtime.Words.{
  Reply, done, failed, Outside, M, acknowledge, pure, raise, gets, for_each, attempt, ◌>>=◌, ◌>>◌,
  call, modify_state, ignore, sync,
}
use aws_k8s_tester.Eks.Flag.{role, policy, raise_flag, lower_flag, releasing}

-- `isIAMRoleDeletedGoClient`, on the error's text.
unfoldable pub is_iam_role_deleted : String → Bool
is_iam_role_deleted e = contains e "cannot be found"

store_role_arn : Outside → String → String → M (Unit {0})
store_role_arn o arn1 arn2 =
    if not (str_eq arn1 arn2)
    then raise (
        "'aws iam create-role' Role.Arn "
        <> (o.quoted arn1 <> (" != 'aws iam get-role' Role.Arn " <> o.quoted arn2)))
    else do modify_state (λ s. record s { service_role_with_policy_arn = arn1 }); sync

unfoldable pub create_service_role : M (Unit {0})
unfolding store_role_arn
create_service_role = do
  o ← gets (λ w. w.outside)
  name ← gets (λ w. w.cfg.cluster_state.service_role_with_policy_name)
  if str_eq name "" then raise "cannot create empty service role" else do
    arn1 ← call (iam_create_role name) (λ o. o.arn)
    raise_flag role
    arn2 ← call (iam_get_role name) (λ o. o.arn)
    store_role_arn o arn1 arn2

-- The role must not be found once it has been deleted.
check_role_deleted : Outside → String → Reply String → M (Unit {0})
check_role_deleted o name (done arn) =
    raise (name <> " still exists after 'DeleteRole' call (error <nil>)")
check_role_deleted o name (failed e) =
    if not (is_iam_role_deleted e)
    then raise (name <> (" still exists after 'DeleteRole' call (error " <> (e <> ")")))
    else do modify_state (λ s. record s { service_role_with_policy_arn = "" }); sync

-- An error is returned unless it says that the role is gone.
unless_deleted : Reply (Unit {0}) → M (Unit {0})
unless_deleted (done _) = pure tt
unless_deleted (failed e) = if not (is_iam_role_deleted e) then raise e else pure tt

delete_role_body : M (Unit {0})
unfolding unless_deleted check_role_deleted
delete_role_body = do
  o ← gets (λ w. w.outside)
  name ← gets (λ w. w.cfg.cluster_state.service_role_with_policy_name)
  if str_eq name "" then raise "cannot delete empty service role" else do
    r ← attempt (call (iam_delete_role name) acknowledge)
    unless_deleted r
    g ← attempt (call (iam_get_role name) (λ o. o.arn))
    check_role_deleted o name g

unfoldable pub delete_service_role : M (Unit {0})
unfolding delete_role_body
delete_service_role = releasing role (lower_flag role) delete_role_body

attach_one : String → String → M (Unit {0})
attach_one name pv = do call (iam_attach_role_policy name pv) acknowledge; raise_flag policy

unfoldable pub attach_policies : M (Unit {0})
unfolding attach_one
attach_policies = do
  name ← gets (λ w. w.cfg.cluster_state.service_role_with_policy_name)
  policies ← gets (λ w. w.cfg.cluster_state.service_role_policies)
  if str_eq name ""
      then raise "cannot attach to empty service role"
      else for_each policies (attach_one name)

detach_one : String → String → M (Unit {0})
unfolding unless_deleted
detach_one name pv = do
  r ← attempt (call (iam_detach_role_policy name pv) acknowledge)
  unless_deleted r

detach_body : M (Unit {0})
unfolding detach_one
detach_body = do
  name ← gets (λ w. w.cfg.cluster_state.service_role_with_policy_name)
  policies ← gets (λ w. w.cfg.cluster_state.service_role_policies)
  if str_eq name ""
      then raise "cannot detach from empty service role"
      else for_each policies (detach_one name)

unfoldable pub detach_policies : M (Unit {0})
unfolding detach_body
detach_policies = releasing policy (lower_flag policy) detach_body
