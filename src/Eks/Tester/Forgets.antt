-- ===== src/Eks/Tester/Forgets.antt =====
-- What `Down` leaves for a second one.
use aws_k8s_tester.Common.{String, Bool, true, false, ◌≡◌, ◌&&◌, inl, inr, Bool-cases, List, []}
use aws_k8s_tester.Runtime.Action.{ok, World, M, pure, gets, modify_alb, sync, ◌>>=◌, ◌>>◌}
use aws_k8s_tester.Runtime.Keeps.{Keeps, AlbClosed, keeps_rules, Keeps-sync, Keeps-bind}
use aws_k8s_tester.Runtime.Always.{
  Returns, Always, sure_rules, Always-of, Always-later, Always-first,
}
use aws_k8s_tester.Eks.Flag.{role}
use aws_k8s_tester.Eks.Flag.Rules.{IsDown}
use aws_k8s_tester.Eks.Role.{delete_service_role, detach_policies}
use aws_k8s_tester.Eks.KeyPair.{delete_key_pair}
use aws_k8s_tester.Eks.Vpc.{delete_vpc}
use aws_k8s_tester.Eks.Cluster.{delete_cluster}
use aws_k8s_tester.Eks.Upload.{upload_worker_node_logs, upload_tester_logs, upload_if}
use aws_k8s_tester.Eks.Upload.Rules.{upload_tester_logs-Keeps, upload_if-Keeps}
use aws_k8s_tester.Eks.Tester.Cleanup.{
  delete_key_pair-stage-Keeps, delete_cluster-stage-Keeps, delete_vpc-stage-Keeps,
  detach_policies-stage-Keeps, delete_service_role-stage-Keeps, closed_without, stage-Sure,
  upload_if-Sure, delete_objects-Sure, finish_down-Keeps, down_runs, down_lowers,
}
use aws_k8s_tester.Eks.Tester.Outcome.{delete_all_idle}
use aws_k8s_tester.Eks.Tester.{
  stage, finish_down, delete_group, delete_all, tear_down, down, refuses_down,
}

module _ {B : Type 0} (errs : List String) (rest : List String → M B)
    (kept : (e : List String) (w : World) → AlbClosed w → AlbClosed (rest e w).1) where
  set_closed :
      (e : List String)
      → Always AlbClosed (modify_alb (λ a. record a { created = false }) >>= λ _. pure e)
  unfolding ◌>>=◌ modify_alb pure
  set_closed e = Always-of _ λ w. closed_without w.cfg.alb_ingress_controller.enable

  delete_group_closes : Always AlbClosed (delete_group true errs >>= rest)
  unfolding delete_group
  delete_group_closes = Always-first _ _ (Always-later _ _ (stage-Sure _ errs) set_closed) kept

  -- The security group is deleted, or there were no ALB resources.
  group_closes : Always AlbClosed (
      gets (λ w. w.cfg.alb_ingress_controller) >>= λ a.
      delete_group (a.enable && a.created) errs >>= rest)
  unfolding ◌>>=◌ gets delete_group pure
  group_closes = record {
    at = λ w t.
        elim (Bool-cases
          (w.cfg.alb_ingress_controller.enable && w.cfg.alb_ingress_controller.created)) [
            | inl noted ↦ rw noted (delete_group_closes.at w (rw noted at t))
            | inr closed ↦ rw closed (kept errs w closed)
          ];
  }

later_steps :
    (errs2 : List String)
    → Keeps (IsDown role) (do
      errs3 ← stage delete_key_pair errs2
      errs4 ← stage delete_cluster errs3
      errs5 ← stage delete_vpc errs4
      errs6 ← stage detach_policies errs5
      stage delete_service_role errs6)
later_steps errs2 =
    search
      (
        Keeps-bind, delete_key_pair-stage-Keeps, delete_cluster-stage-Keeps, delete_vpc-stage-Keeps,
        detach_policies-stage-Keeps, delete_service_role-stage-Keeps,
      )
      depth 12

last_steps :
    (errs : List String)
    → Keeps (IsDown role) (do
      sync
      enabled ← gets (λ w. w.cfg.upload_tester_logs)
      upload_if enabled upload_tester_logs
      finish_down errs)
last_steps errs =
    search (keeps_rules, Keeps-sync, upload_if-Keeps, upload_tester_logs-Keeps, finish_down-Keeps)
      depth 12

delete_all_closes : Always AlbClosed delete_all
unfolding delete_all
delete_all_closes = Always-later _ _ (search sure_rules) λ a.
    Always-later _ _ (delete_objects-Sure _ []) λ errs0.
      Always-later _ _ (stage-Sure _ errs0)
        λ errs1. group_closes errs1 _ λ errs2. (later_steps errs2).closed

tear_down_closes : (b : Bool) → Always AlbClosed (tear_down b)
unfolding tear_down
tear_down_closes b =
    Always-later _ _ (upload_if-Sure b upload_worker_node_logs)
      λ _. Always-first _ _ delete_all_closes λ errs. (last_steps errs).closed

-- After a `Down` that was neither refused nor ended by a panic, its steps find nothing to delete, even
-- when that `Down` returned errors: what it failed to delete is no longer known.
pub down_forgets :
    (w : World)
    → refuses_down w.cfg.cluster_state ≡ false
    → Returns (down w).0
    → delete_all (down w).1 ≡ (ok [], (down w).1)
down_forgets w runs returned =
    delete_all_idle (down w).1 (λ f. down_lowers f w runs returned)
      (rw (down_runs w runs)
        ((tear_down_closes w.cfg.upload_worker_node_logs).at w (rw (down_runs w runs) at returned)))
