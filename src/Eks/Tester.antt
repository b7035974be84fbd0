-- ===== src/Eks/Tester.antt =====
-- internal/eks/tester.go: `Up`, `Down` and `IsUp`. What the interface of internal/eks/alb/plugin.go
-- creates is a parameter here; what it deletes is `Eks/Alb`.
pub mod Rules
pub mod Cleanup
pub mod Saves
pub mod Ready
pub mod Checks
pub mod Outcome
pub mod Forgets
use aws_k8s_tester.Common.{
  ℕ, ◌-◌, String, ◌<>◌, Bool, true, false, not, ◌&&◌, ◌||◌, List, [], ◌∷◌, ◌++◌, Option, none, some,
  str_eq, join, if◌then◌else◌,
}
use aws_k8s_tester.Common.Int.{ℤ, pos, pos_part, ltb_ℤ}
use aws_k8s_tester.Config.{Config, ClusterState, AlbIngressController}
use aws_k8s_tester.Runtime.Outside.{
  Cluster, Signal, finished, stopc_closed, termination, select_run, eks_describe_cluster,
  s3_create_bucket_for_access_logs,
}
use aws_k8s_tester.Runtime.Words.{
  Reply, done, failed, Outside, Result, ok, err, panic, hung, World, M, acknowledge, pure, raise,
  crash, gets, attempt, ◌>>=◌, ◌>>◌, deferring, ask, call, sleep, modify_state, modify_alb, ignore,
  sync,
}
use aws_k8s_tester.Eks.Role.{
  create_service_role, delete_service_role, attach_policies, detach_policies,
}
use aws_k8s_tester.Eks.KeyPair.{create_key_pair, delete_key_pair}
use aws_k8s_tester.Eks.Upload.{
  upload_tester_logs, upload_worker_node_logs, upload_alb_tester_logs, upload_if,
}
use aws_k8s_tester.Eks.Vpc.{create_vpc, delete_vpc}
use aws_k8s_tester.Eks.Cluster.{create_cluster, delete_cluster, store_cluster}
use aws_k8s_tester.Eks.Cni.{upgrade_cni, create_aws_credential_secret}
use aws_k8s_tester.Eks.Worker.{create_worker_node, delete_worker_node}
use aws_k8s_tester.Eks.Alb.{delete_security_group, delete_ingress_objects}

pub record Plugin : Type 0 where
  pub deploy_backend : M (Unit {0})
  pub create_rbac : M (Unit {0})
  pub deploy_ingress_controller : M (Unit {0})
  pub create_security_group : M (Unit {0})
  pub create_ingress_objects : M (Unit {0})

-- The case of the `select` that is taken.
conclude : Outside → Reply (Unit {0}) → Signal → M (Unit {0})
conclude o (done _) finished = pure tt
conclude o (failed e) finished = raise e
conclude o (done _) stopc_closed = raise "interrupted (run function returned <nil>)"
conclude o (failed e) stopc_closed = raise ("interrupted (run function returned " <> (e <> ")"))
conclude o r (termination name) = crash ("operating system: " <> name)

-- `catchStopc`. When a signal of the operating system is selected, the source goes on without waiting
-- for `run`, which no sequence of steps shows: the model of the program ends there, with a `panic`.
unfoldable pub catch_stopc : M (Unit {0}) → M (Unit {0})
unfolding conclude
catch_stopc run = do
  o ← gets (λ w. w.outside)
  r ← attempt run
  signal ← ask select_run (λ o. o.selected)
  conclude o r signal

-- `errs = append(errs, err.Error())`
append_error : List String → Reply (Unit {0}) → List String
append_error errs (done _) = errs
append_error errs (failed e) = errs ++ e ∷ []

-- A step of `down`: its error is kept, and the next step follows.
unfoldable pub stage : M (Unit {0}) → List String → M (List String)
unfolding append_error
stage m errs = do r ← attempt m; pure (append_error errs r)

pub finish_down : List String → M (Unit {0})
finish_down [] = pure tt
finish_down (e ∷ errs) = raise (join ", " (e ∷ errs))

-- The guard of `down`.
abbrev pub refuses_down : ClusterState → Bool
refuses_down s = str_eq s.status "DELETING" || str_eq s.status "FAILED"

-- How the deferred rollback ends: its error is only logged.
after_rollback : String → Result (Unit {0}) → Result (Unit {0})
after_rollback e (ok _) = err e
after_rollback e (err _) = err e
after_rollback e (panic p) = panic p
after_rollback e hung = hung

wait_before : ℤ → M (Unit {0})
wait_before d = if ltb_ℤ (pos 0) d then sleep (pos_part d) else pure tt

unfoldable pub open_access_logs : Bool → M (Unit {0})
open_access_logs enabled =
    if enabled then call s3_create_bucket_for_access_logs acknowledge else pure tt

-- The seven operations of `Up` that create the cluster.
unfoldable pub create_stages : M (Unit {0})
unfolding catch_stopc
create_stages = do
  catch_stopc create_service_role
  catch_stopc attach_policies
  catch_stopc create_vpc
  catch_stopc create_cluster
  catch_stopc upgrade_cni
  catch_stopc create_key_pair
  catch_stopc create_worker_node

pub delete_objects : Bool → List String → M (List String)
unfolding stage
delete_objects false errs = pure errs
delete_objects true errs = do
  errs' ← stage delete_ingress_objects errs
  ignore delete_security_group
  pure errs'

pub delete_group : Bool → List String → M (List String)
unfolding stage
delete_group false errs = pure errs
delete_group true errs = do
  errs' ← stage delete_security_group errs
  modify_alb (λ a. record a { created = false })
  pure errs'

-- The steps of `down` from the ingress objects to the service role, and their errors.
unfoldable pub delete_all : M (List String)
unfolding delete_objects delete_group
delete_all = do
  a ← gets (λ w. w.cfg.alb_ingress_controller)
  errs0 ← delete_objects (a.enable && a.created) []
  errs1 ← stage delete_worker_node errs0
  a' ← gets (λ w. w.cfg.alb_ingress_controller)
  errs2 ← delete_group (a'.enable && a'.created) errs1
  errs3 ← stage delete_key_pair errs2
  errs4 ← stage delete_cluster errs3
  errs5 ← stage delete_vpc errs4
  errs6 ← stage detach_policies errs5
  stage delete_service_role errs6

pub tear_down : Bool → M (Unit {0})
unfolding finish_down
tear_down upload_nodes = do
  upload_if upload_nodes upload_worker_node_logs
  errs ← delete_all
  sync
  enabled ← gets (λ w. w.cfg.upload_tester_logs)
  upload_if enabled upload_tester_logs
  finish_down errs

unfoldable pub down : M (Unit {0})
unfolding tear_down
down = do
  o ← gets (λ w. w.outside)
  c ← gets (λ w. w.cfg)
  if refuses_down c.cluster_state
      then raise (
          "cluster "
          <> (o.quoted c.cluster_name
              <> (" status is already " <> o.quoted c.cluster_state.status)))
      else tear_down c.upload_worker_node_logs

pub settle : Result (Unit {0}) → World → Result (Unit {0}) × World
unfolding after_rollback
settle (ok a) w = (ok a, w)
settle (err e) w = let (r, w') = down w in (after_rollback e r, w')
settle (panic p) w = (panic p, w)
settle hung w = (hung, w)

-- `defer func() { if err != nil { md.down() } }()`
unfoldable pub reverting : M (Unit {0}) → M (Unit {0})
unfolding settle
reverting m w = let (r, w') = m w in settle r w'

module _ (plugin : Plugin) where
  up_alb : M (Unit {0})
  up_alb = do
    start ← gets (λ w. w.clock)
    catch_stopc plugin.deploy_backend
    catch_stopc plugin.create_rbac
    catch_stopc plugin.deploy_ingress_controller
    catch_stopc plugin.create_security_group
    catch_stopc plugin.create_ingress_objects
    modify_alb (λ a. record a { created = true })
    ignore sync
    o ← gets (λ w. w.outside)
    now ← gets (λ w. w.clock)
    modify_alb (λ a. record a {
      ingress_up_took = o.duration_text (now - start);
      ingress_up_took_duration = pos (now - start);
    })

  -- The credential's secret, the times, the logs and the ALB, once the cluster stands.
  finish_up : ℕ → M (Unit {0})
  unfolding up_alb
  finish_up start = do
    c ← gets (λ w. w.cfg)
    if not (str_eq c.aws_credential_to_mount_path "") then create_aws_credential_secret else pure tt
    ignore sync
    o ← gets (λ w. w.outside)
    now ← gets (λ w. w.clock)
    modify_state (λ s. record s {
      up_took = o.duration_text (now - start);
      up_took_duration = pos (now - start);
    })
    upload_if c.upload_worker_node_logs upload_worker_node_logs
    a ← gets (λ w. w.cfg.alb_ingress_controller)
    if a.enable then up_alb else pure tt
    sync
    c' ← gets (λ w. w.cfg)
    upload_if c'.upload_tester_logs upload_tester_logs
    upload_if (c'.alb_ingress_controller.enable && c'.alb_ingress_controller.upload_tester_logs)
        upload_alb_tester_logs

  create_all : M (Unit {0})
  unfolding finish_up create_stages
  create_all = do
    start ← gets (λ w. w.clock)
    deferring (ignore sync) (do create_stages; finish_up start)

  unfoldable pub wait_and_create : ℤ → M (Unit {0})
  unfolding wait_before create_all
  wait_and_create d = do wait_before d; create_all

  unfoldable pub up : M (Unit {0})
  unfolding open_access_logs reverting wait_and_create
  up = do
    o ← gets (λ w. w.outside)
    c ← gets (λ w. w.cfg)
    if str_eq c.cluster_state.status "ACTIVE"
        then raise (o.quoted c.cluster_name <> (" is already " <> o.quoted c.cluster_state.status))
        else do open_access_logs c.log_access; reverting (wait_and_create c.wait_before_down)

up_described : Outside → String → Cluster → M (Unit {0})
unfolding store_cluster
up_described o name d = do
  store_cluster d
  if str_eq d.status "ACTIVE"
      then sync
      else raise ("cluster " <> (o.quoted name <> (" status is " <> o.quoted d.status)))

unfoldable pub is_up : M (Unit {0})
unfolding up_described
is_up = do
  o ← gets (λ w. w.outside)
  name ← gets (λ w. w.cfg.cluster_name)
  if str_eq name ""
      then raise "cannot check empty cluster"
      else do d ← call (eks_describe_cluster name) (λ o. o.cluster); up_described o name d
