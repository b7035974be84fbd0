-- ===== src/Eks/Upload.antt =====
-- internal/eks/tester.go and worker_node_log.go: the uploads of logs. `UploadToBucketForTests` of
-- internal/eks/s3 is one call that answers; the fetching of the logs by SSH is one that may not.
pub mod Rules
use aws_k8s_tester.Common.{
  ◌*◌, String, Bool, true, false, not, List, [], ◌∷◌, if◌then◌else◌, Option, none, some,
}
use aws_k8s_tester.Config.{AlbIngressController}
use aws_k8s_tester.Runtime.Outside.{s3_upload, fetch_logs}
use aws_k8s_tester.Runtime.Words.{
  Reply, done, failed, M, acknowledge, pure, raise, spin, gets, for_each, attempt, ◌>>=◌, ◌>>◌, ask,
  call, sleep, modify_state, ignore, sync,
}
use aws_k8s_tester.Runtime.Time.{second, millisecond}

unfoldable pub upload : String → String → M (Unit {0})
upload path remote = call (s3_upload path remote) acknowledge

unfoldable pub upload_tester_logs : M (Unit {0})
unfolding upload
upload_tester_logs = do
  c ← gets (λ w. w.cfg)
  upload c.config_path c.config_path_bucket
  upload c.log_output_to_upload_path c.log_output_to_upload_path_bucket

store_logs : Option (List (String × String)) → M (Unit {0})
store_logs none = spin
store_logs (some logs) = do modify_state (λ s. record s { worker_node_logs = logs }); ignore sync

-- The error of the fetching is overwritten by the `return nil` of the source.
unfoldable pub get_worker_node_logs : M (Unit {0})
unfolding store_logs
get_worker_node_logs = do
  enabled ← gets (λ w. w.cfg.enable_worker_node_ssh)
  if not enabled then raise "node SSH is not enabled" else do
    nodes ← gets (λ w. w.cfg.cluster_state.worker_nodes)
    logs ← ask (fetch_logs nodes) (λ o. o.fetched_logs)
    store_logs logs

pause_after_upload : Reply (Unit {0}) → M (Unit {0})
pause_after_upload (done _) = sleep (30 * millisecond)
pause_after_upload (failed e) = sleep (3 * second)

upload_one : String × String → M (Unit {0})
unfolding upload pause_after_upload
upload_one (path, s3_path) = do r ← attempt (upload path s3_path); pause_after_upload r

-- The loop takes the map in the order in which it is delivered.
unfoldable pub upload_worker_node_logs : M (Unit {0})
unfolding upload_one get_worker_node_logs
upload_worker_node_logs = do
  enabled ← gets (λ w. w.cfg.enable_worker_node_ssh)
  if not enabled then pure tt else do
    get_worker_node_logs
    logs ← gets (λ w. w.cfg.cluster_state.worker_node_logs)
    for_each logs upload_one

upload_scalability : AlbIngressController → M (Unit {0})
unfolding upload
upload_scalability a =
    if a.test_scalability
    then upload a.scalability_output_to_upload_path a.scalability_output_to_upload_path_bucket
    else pure tt

upload_metrics : AlbIngressController → M (Unit {0})
unfolding upload
upload_metrics a =
    if a.test_metrics
    then upload a.metrics_output_to_upload_path a.metrics_output_to_upload_path_bucket
    else pure tt

unfoldable pub upload_alb_tester_logs : M (Unit {0})
unfolding upload upload_scalability upload_metrics
upload_alb_tester_logs = do
  a ← gets (λ w. w.cfg.alb_ingress_controller)
  upload a.ingress_test_server_deployment_service_spec_path
      a.ingress_test_server_deployment_service_spec_path_bucket
  upload a.ingress_controller_spec_path a.ingress_controller_spec_path_bucket
  upload a.ingress_object_spec_path a.ingress_object_spec_path_bucket
  upload_scalability a
  upload_metrics a

-- `if err = upload(); err != nil { lg.Warn(…) }` under a flag of the configuration.
unfoldable pub upload_if : Bool → M (Unit {0}) → M (Unit {0})
upload_if enabled m = if enabled then ignore m else pure tt
