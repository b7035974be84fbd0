-- ===== src/Eks/Tester/Cleanup.antt =====
-- `Down`, the flags, and the rollback of an `Up` that fails.
use aws_k8s_tester.Common.{
  String, Bool, true, false, ◌&&◌, ◌≡◌, refl, ◌⊎◌, inl, inr, List, [], ◌∷◌, str_eq, Bool-cases,
}
use aws_k8s_tester.Config.{ClusterState}
use aws_k8s_tester.Runtime.Action.{Result, ok, err, panic, hung, World, M, pure, ◌>>=◌, gets}
use aws_k8s_tester.Runtime.Keeps.{
  Predicate, Holds, Keeps, keeps_rules, Keeps-sync, Keeps-bind, Keeps-gets, Keeps-pure,
  Keeps-modify_alb,
}
use aws_k8s_tester.Runtime.Always.{
  Returns, Always, Sure, Sure-bind, sure_rules, Always-of, Always-attempt, Always-later,
  Always-first,
}
use aws_k8s_tester.Eks.Flag.{Flag, role, policy, vpc, cluster, key_pair, worker_node, raised}
use aws_k8s_tester.Eks.Flag.Rules.{IsDown, Below, Below_refl, Below-IsDown}
use aws_k8s_tester.Eks.Role.Rules.{
  delete_service_role-Below, detach_policies-Below, delete_service_role_lowers,
  detach_policies_lowers,
}
use aws_k8s_tester.Eks.KeyPair.Rules.{delete_key_pair-Below, delete_key_pair_lowers}
use aws_k8s_tester.Eks.Upload.Rules.{upload_tester_logs-Keeps, upload_if-Keeps}
use aws_k8s_tester.Eks.Upload.{upload_if, upload_worker_node_logs}
use aws_k8s_tester.Eks.Vpc.Flags.{delete_vpc-Below, delete_vpc_lowers}
use aws_k8s_tester.Eks.Cluster.Flags.{delete_cluster-Below, delete_cluster_lowers}
use aws_k8s_tester.Eks.Worker.Flags.{delete_worker_node_lowers}
use aws_k8s_tester.Eks.Role.{delete_service_role, detach_policies}
use aws_k8s_tester.Eks.KeyPair.{delete_key_pair}
use aws_k8s_tester.Eks.Vpc.{delete_vpc}
use aws_k8s_tester.Eks.Cluster.{delete_cluster}
use aws_k8s_tester.Eks.Alb.Rules.{delete_security_group-Keeps}
use aws_k8s_tester.Eks.Tester.{
  Plugin, stage, finish_down, delete_objects, delete_group, delete_all, tear_down, down,
  refuses_down, settle, reverting, after_rollback, open_access_logs, wait_and_create, up,
}

-- The state in which the creation ends, before a rollback.
abbrev pub failed_at : Plugin → World → World
failed_at p w = (wait_and_create p w.cfg.wait_before_down (open_access_logs w.cfg.log_access w).1).1

-- An action that raises no flag keeps each flag that is down.
Below-Keeps :
    {A : Type 0} (f : Flag) (m : M A)
    → ((b : ClusterState) → Keeps (Below b) m)
    → Keeps (IsDown f) m
Below-Keeps f m k = record {
  at = λ w h.
      Below-IsDown f w.cfg.cluster_state (m w).1.outside (m w).1.cfg.cluster_state
        ((k w.cfg.cluster_state).at w (Below_refl w.outside w.cfg.cluster_state)) h;
  seen = λ w h. (k w.cfg.cluster_state).seen w h;
  closed = λ w h. (k w.cfg.cluster_state).closed w h;
}

stage-Keeps : {P : Predicate} (m : M Unit) (errs : List String) → Keeps P m → Keeps P (stage m errs)
unfolding stage
stage-Keeps m errs k = search keeps_rules

stage-Always :
    {P : World → Type 0} (m : M Unit) (errs : List String)
    → ((w : World) → P (m w).1)
    → Always P (stage m errs)
unfolding stage pure
stage-Always m errs h = Always-first _ _ (Always-attempt m (Always-of m h)) λ r v k. k

pub stage-Sure : (m : M Unit) (errs : List String) → Sure (stage m errs)
unfolding stage
stage-Sure m errs = search sure_rules

pub upload_if-Sure : (b : Bool) (m : M Unit) → Sure (upload_if b m)
unfolding upload_if
upload_if-Sure b m = search sure_rules

pub delete_objects-Sure : (b : Bool) (errs : List String) → Sure (delete_objects b errs)
unfolding delete_objects
delete_objects-Sure false errs = search sure_rules
delete_objects-Sure true errs = Sure-bind _ _ (stage-Sure _ errs) (λ errs'. search sure_rules)

delete_group-Sure : (b : Bool) (errs : List String) → Sure (delete_group b errs)
unfolding delete_group
delete_group-Sure false errs = search sure_rules
delete_group-Sure true errs = Sure-bind _ _ (stage-Sure _ errs) (λ errs'. search sure_rules)

delete_all-Sure : Sure delete_all
unfolding delete_all
delete_all-Sure = search (sure_rules, stage-Sure, delete_objects-Sure, delete_group-Sure) depth 14

pub closed_without : (b : Bool) → (b && false) ≡ false
closed_without true = refl
closed_without false = refl

pub finish_down-Keeps : {P : Predicate} (errs : List String) → Keeps P (finish_down errs)
unfolding finish_down
finish_down-Keeps [] = search keeps_rules
finish_down-Keeps (e ∷ errs) = search keeps_rules

-- Each flag stays down under the steps that follow.
module _ (f : Flag) where
  delete_group-Keeps : (b : Bool) (errs : List String) → Keeps (IsDown f) (delete_group b errs)
  unfolding delete_group
  delete_group-Keeps false errs = search keeps_rules
  delete_group-Keeps true errs =
      Keeps-bind _ _ (stage-Keeps _ errs delete_security_group-Keeps) (λ errs'.
        Keeps-bind _ _ (Keeps-modify_alb _ λ a h. closed_without a.enable) (λ _. Keeps-pure errs'))

  pub delete_key_pair-stage-Keeps :
      (errs : List String) → Keeps (IsDown f) (stage delete_key_pair errs)
  delete_key_pair-stage-Keeps errs =
      stage-Keeps delete_key_pair errs (Below-Keeps f delete_key_pair delete_key_pair-Below)

  pub delete_cluster-stage-Keeps :
      (errs : List String) → Keeps (IsDown f) (stage delete_cluster errs)
  delete_cluster-stage-Keeps errs =
      stage-Keeps delete_cluster errs (Below-Keeps f delete_cluster delete_cluster-Below)

  pub delete_vpc-stage-Keeps : (errs : List String) → Keeps (IsDown f) (stage delete_vpc errs)
  delete_vpc-stage-Keeps errs =
      stage-Keeps delete_vpc errs (Below-Keeps f delete_vpc delete_vpc-Below)

  pub detach_policies-stage-Keeps :
      (errs : List String) → Keeps (IsDown f) (stage detach_policies errs)
  detach_policies-stage-Keeps errs =
      stage-Keeps detach_policies errs (Below-Keeps f detach_policies detach_policies-Below)

  pub delete_service_role-stage-Keeps :
      (errs : List String) → Keeps (IsDown f) (stage delete_service_role errs)
  delete_service_role-stage-Keeps errs =
      stage-Keeps delete_service_role errs
        (Below-Keeps f delete_service_role delete_service_role-Below)

ruleset sure_stages = (sure_rules, stage-Sure, delete_objects-Sure, delete_group-Sure)

-- What comes first makes it true, and the rest keeps it.
then_kept :
    {A B : Type 0} {P : Predicate} (m : M A) (f : A → M B)
    → Always (Holds P) m
    → ((a : A) → Keeps P (f a))
    → Always (Holds P) (m >>= f)
then_kept m f a k = Always-first m f a (λ x. (k x).at)

-- Each flag is lowered by its own step, and what follows that step keeps it down.
delete_all-Always : (f : Flag) → Always (Holds (IsDown f)) delete_all
unfolding delete_all
delete_all-Always worker_node =
    search
      (
        Always-later,
        then_kept,
        sure_stages,
        stage-Always,
        delete_worker_node_lowers,
        Keeps-bind,
        Keeps-gets,
        delete_group-Keeps worker_node,
        delete_key_pair-stage-Keeps worker_node,
        delete_cluster-stage-Keeps worker_node,
        delete_vpc-stage-Keeps worker_node,
        detach_policies-stage-Keeps worker_node,
        delete_service_role-stage-Keeps worker_node,
      )
      depth 24
delete_all-Always key_pair =
    search
      (
        Always-later,
        then_kept,
        sure_stages,
        stage-Always,
        delete_key_pair_lowers,
        Keeps-bind,
        Keeps-gets,
        delete_cluster-stage-Keeps key_pair,
        delete_vpc-stage-Keeps key_pair,
        detach_policies-stage-Keeps key_pair,
        delete_service_role-stage-Keeps key_pair,
      )
      depth 24
delete_all-Always cluster =
    search
      (
        Always-later,
        then_kept,
        sure_stages,
        stage-Always,
        delete_cluster_lowers,
        Keeps-bind,
        Keeps-gets,
        delete_vpc-stage-Keeps cluster,
        detach_policies-stage-Keeps cluster,
        delete_service_role-stage-Keeps cluster,
      )
      depth 24
delete_all-Always vpc =
    search
      (
        Always-later,
        then_kept,
        sure_stages,
        stage-Always,
        delete_vpc_lowers,
        Keeps-bind,
        Keeps-gets,
        detach_policies-stage-Keeps vpc,
        delete_service_role-stage-Keeps vpc,
      )
      depth 24
delete_all-Always policy =
    search
      (
        Always-later,
        then_kept,
        sure_stages,
        stage-Always,
        detach_policies_lowers,
        Keeps-bind,
        Keeps-gets,
        delete_service_role-stage-Keeps policy,
      )
      depth 24
delete_all-Always role =
    search
      (
        Always-later, then_kept, sure_stages, stage-Always, delete_service_role_lowers, Keeps-bind,
        Keeps-gets,
      )
      depth 24

after_rollback_returned :
    (d : String) (r : Result Unit) (e : String) → after_rollback d r ≡ err e → Returns r
unfolding after_rollback
after_rollback_returned d (ok a) e h = tt
after_rollback_returned d (err c) e h = tt
after_rollback_returned d (panic c) e h = cc
after_rollback_returned d hung e h = cc

pub up_runs :
    (p : Plugin) (w : World)
    → str_eq w.cfg.cluster_state.status "ACTIVE" ≡ false
    → (open_access_logs w.cfg.log_access w).0 ≡ ok tt
    → up p w
      ≡ settle
          (wait_and_create p w.cfg.wait_before_down (open_access_logs w.cfg.log_access w).1).0
          (failed_at p w)
unfolding up reverting ◌>>=◌ gets
up_runs p w inactive opened = rw inactive (rw opened)

pub down_runs :
    (w : World)
    → refuses_down w.cfg.cluster_state ≡ false
    → down w ≡ tear_down w.cfg.upload_worker_node_logs w
unfolding down ◌>>=◌ gets
down_runs w runs = rw runs

module _ (f : Flag) where
  tear_down-Always : (b : Bool) → Always (Holds (IsDown f)) (tear_down b)
  unfolding tear_down
  tear_down-Always b = Always-later _ _ (upload_if-Sure b upload_worker_node_logs) λ _.
      then_kept _ _ (delete_all-Always f) (
        search
          (keeps_rules, Keeps-sync, upload_if-Keeps, upload_tester_logs-Keeps, finish_down-Keeps))

  -- `Down` lowers each of the six `Status…` flags, whatever its steps answer, errors included,
  -- when the cluster's status is neither DELETING nor FAILED, and no step panics.
  pub down_lowers :
      (w : World)
      → refuses_down w.cfg.cluster_state ≡ false
      → Returns (down w).0
      → raised f (down w).1.cfg.cluster_state ≡ false
  down_lowers w runs returned =
      rw (down_runs w runs)
        ((tear_down-Always w.cfg.upload_worker_node_logs).at w (rw (down_runs w runs) at returned))

  settle_rolls_back :
      (r : Result Unit) (w : World) (e : String)
      → (settle r w).0 ≡ err e
      → (raised f (settle r w).1.cfg.cluster_state ≡ false)
        ⊎ (refuses_down w.cfg.cluster_state ≡ true)
  unfolding settle
  settle_rolls_back (ok a) w e h = cc
  settle_rolls_back (err d) w e h = elim (Bool-cases (refuses_down w.cfg.cluster_state)) [
    | inl refused ↦ inr refused
    | inr runs ↦ inl (down_lowers w runs (after_rollback_returned d (down w).0 e h))
  ]
  settle_rolls_back (panic d) w e h = cc
  settle_rolls_back hung w e h = cc

  -- When `Up` fails after its guards, not by a signal of the operating system, every flag is down at
  -- the end, so that nothing that the tester knows of is left, or the status at the failure was
  -- DELETING or FAILED, and the rollback was refused.
  pub up_rolls_back :
      (p : Plugin) (w : World) (e : String)
      → str_eq w.cfg.cluster_state.status "ACTIVE" ≡ false
      → (open_access_logs w.cfg.log_access w).0 ≡ ok tt
      → (up p w).0 ≡ err e
      → (raised f (up p w).1.cfg.cluster_state ≡ false)
        ⊎ (refuses_down (failed_at p w).cfg.cluster_state ≡ true)
  up_rolls_back p w e inactive opened h =
      let runs = up_runs p w inactive opened in
      rw runs (settle_rolls_back _ (failed_at p w) e (rw runs at h))
