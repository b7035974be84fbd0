-- ===== src/Eks/Tester/Outcome.antt =====
-- How `Down` ends, and `Up` when a step of it fails.
use aws_k8s_tester.Common.{
  String, true, false, ◌≡◌, refl, ◌∙◌, ◌&&◌, inl, inr, Bool-cases, subst, sym, List, [], str_eq,
}
use aws_k8s_tester.Runtime.Action.{Result, ok, err, World, M, pure, raise, gets, attempt, ◌>>=◌}
use aws_k8s_tester.Runtime.Good.{Ends}
use aws_k8s_tester.Eks.Flag.{
  Flag, role, policy, vpc, cluster, key_pair, worker_node, raised, releasing,
}
use aws_k8s_tester.Eks.Role.{delete_service_role, detach_policies}
use aws_k8s_tester.Eks.KeyPair.{delete_key_pair}
use aws_k8s_tester.Eks.Vpc.{delete_vpc}
use aws_k8s_tester.Eks.Cluster.{delete_cluster}
use aws_k8s_tester.Eks.Worker.{delete_worker_node}
use aws_k8s_tester.Eks.Tester.Rules.{tear_down-Good}
use aws_k8s_tester.Eks.Tester.Cleanup.{failed_at, up_runs, down_runs}
use aws_k8s_tester.Eks.Tester.{
  Plugin, stage, delete_objects, delete_group, delete_all, down, tear_down, refuses_down, settle,
  after_rollback, open_access_logs, wait_and_create, up,
}

-- With the upload of the worker nodes' logs switched off, `Down` comes to an end on every world: none of
-- its loops, those of the ALB's deletion included, runs for ever.
pub down-Ends : (w : World) → w.cfg.upload_worker_node_logs ≡ false → Ends (down w).0
unfolding down ◌>>=◌ gets raise
down-Ends w quiet = elim (Bool-cases (refuses_down w.cfg.cluster_state)) [
  | inl refused ↦ rw refused tt
  | inr runs ↦
      rw (down_runs w runs)
        (subst (λ b. Ends (tear_down b w).0) (sym quiet) (tear_down-Good.ends w))
]

down_refused : (w : World) → refuses_down w.cfg.cluster_state ≡ true → (down w).1 ≡ w
unfolding down ◌>>=◌ gets raise
down_refused w refused = rw refused refl

down_refused_err :
    (w : World) (e : String)
    → refuses_down w.cfg.cluster_state ≡ true
    → after_rollback e (down w).0 ≡ err e
unfolding down ◌>>=◌ gets raise after_rollback
down_refused_err w e refused = rw refused refl

settle_refused :
    (r : Result Unit) (w : World) (e : String)
    → r ≡ err e
    → refuses_down w.cfg.cluster_state ≡ true
    → settle r w ≡ (err e, w)
unfolding settle
settle_refused r w e failed_with refused =
    rw failed_with λ i. (down_refused_err w e refused i, down_refused w refused i)

-- When a step of `Up` fails and leaves the status DELETING or FAILED, as `createCluster` does on a
-- cluster that has FAILED, the rollback deletes nothing: `Up` ends in the world of the failure.
pub up_leaves_failed :
    (p : Plugin) (w : World) (e : String)
    → str_eq w.cfg.cluster_state.status "ACTIVE" ≡ false
    → (open_access_logs w.cfg.log_access w).0 ≡ ok tt
    → (wait_and_create p w.cfg.wait_before_down (open_access_logs w.cfg.log_access w).1).0 ≡ err e
    → refuses_down (failed_at p w).cfg.cluster_state ≡ true
    → up p w ≡ (err e, failed_at p w)
up_leaves_failed p w e inactive opened creating refused =
    up_runs p w inactive opened ∙ settle_refused _ (failed_at p w) e creating refused

releasing_idle :
    (f : Flag) (cleanup body : M Unit) (errs : List String) (w : World)
    → raised f w.cfg.cluster_state ≡ false
    → stage (releasing f cleanup body) errs w ≡ (ok errs, w)
unfolding releasing stage ◌>>=◌ gets attempt pure
releasing_idle f cleanup body errs w down = rw down refl

-- With no flag raised and no ALB resources, the steps of `Down` do nothing and keep no error.
pub delete_all_idle :
    (w : World)
    → ((f : Flag) → raised f w.cfg.cluster_state ≡ false)
    → w.cfg.alb_ingress_controller.enable && w.cfg.alb_ingress_controller.created ≡ false
    → delete_all w ≡ (ok [], w)
unfolding delete_all ◌>>=◌ gets delete_objects delete_group pure delete_worker_node delete_key_pair
    delete_cluster delete_vpc detach_policies delete_service_role
delete_all_idle w down closed =
    rw
      (
        closed,
        releasing_idle worker_node _ _ [] w (down worker_node),
        closed,
        releasing_idle key_pair _ _ [] w (down key_pair),
        releasing_idle cluster _ _ [] w (down cluster),
        releasing_idle vpc _ _ [] w (down vpc),
        releasing_idle policy _ _ [] w (down policy),
        releasing_idle role _ _ [] w (down role),
      )
      refl
