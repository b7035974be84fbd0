-- ===== src/Eks/Role/Tracks.antt =====
-- The flag of the service role during its creation.
use aws_k8s_tester.Common.{String, true, false, ◌≡◌, ◌∷◌, str_eq}
use aws_k8s_tester.Runtime.Outside.{done, Outside, iam_create_role}
use aws_k8s_tester.Runtime.Action.{World, gets, call, calling, ◌>>=◌, modify_state}
use aws_k8s_tester.Runtime.Keeps.{Keeps, keeps_rules, Keeps-sync, Keeps-modify_state}
use aws_k8s_tester.Eks.Flag.{role, raised}
use aws_k8s_tester.Eks.Flag.Rules.{IsRaised, raised_then}
use aws_k8s_tester.Eks.Role.{create_service_role, store_role_arn}

set_arn_tracked :
    (arn : String)
    → Keeps (IsRaised role) (modify_state (λ s. record s { service_role_with_policy_arn = arn }))
set_arn_tracked arn = Keeps-modify_state _ (λ o s h. h)

store_role_arn_tracked : (o : Outside) (a b : String) → Keeps (IsRaised role) (store_role_arn o a b)
unfolding store_role_arn
store_role_arn_tracked o a b = search (set_arn_tracked, keeps_rules, Keeps-sync) depth 8

-- Once IAM has created the service role, its flag is up however the creation ends, so that a rollback
-- deletes the role: also when the role is then not found, or has another ARN. The role
-- has a name.
pub create_service_role_tracks :
    (w : World) (arn : String)
    → str_eq w.cfg.cluster_state.service_role_with_policy_name "" ≡ false
    → w.outside.arn (iam_create_role w.cfg.cluster_state.service_role_with_policy_name ∷ w.history)
      ≡ done arn
    → raised role (create_service_role w).1.cfg.cluster_state ≡ true
unfolding create_service_role ◌>>=◌ gets call calling
create_service_role_tracks w arn named created =
    rw (named, created)
      (raised_then role _ _ (λ u. search (keeps_rules, store_role_arn_tracked) depth 8))
