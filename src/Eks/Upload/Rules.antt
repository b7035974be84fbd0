-- ===== src/Eks/Upload/Rules.antt =====
-- The uploads and the flags.
use aws_k8s_tester.Common.{String, Bool, List, Option, none, some}
use aws_k8s_tester.Config.{ClusterState}
use aws_k8s_tester.Runtime.Outside.{Reply, done, failed}
use aws_k8s_tester.Runtime.Action.{M, spin}
use aws_k8s_tester.Runtime.Good.{Good, good_rules}
use aws_k8s_tester.Runtime.Keeps.{Predicate, Keeps, keeps_rules, Keeps-sync}
use aws_k8s_tester.Eks.Flag.Rules.{Below}
use aws_k8s_tester.Eks.Upload.{
  store_logs, upload, upload_tester_logs, get_worker_node_logs, pause_after_upload, upload_one,
  upload_worker_node_logs, upload_if,
}

pub upload-Good : (path remote : String) → Good (upload path remote)
unfolding upload
upload-Good path remote = search good_rules

pub upload_tester_logs-Good : Good upload_tester_logs
unfolding upload_tester_logs
upload_tester_logs-Good = search (good_rules, upload-Good)

pub upload_if-Good : (b : Bool) (m : M Unit) → Good m → Good (upload_if b m)
unfolding upload_if
upload_if-Good b m g = search good_rules

module _ {P : Predicate} where
  pub upload-Keeps : (path remote : String) → Keeps P (upload path remote)
  unfolding upload
  upload-Keeps path remote = search keeps_rules

  pub upload_tester_logs-Keeps : Keeps P upload_tester_logs
  unfolding upload_tester_logs
  upload_tester_logs-Keeps = search (keeps_rules, upload-Keeps)

  pub upload_if-Keeps : (b : Bool) (m : M Unit) → Keeps P m → Keeps P (upload_if b m)
  unfolding upload_if
  upload_if-Keeps b m k = search keeps_rules

  pause_after_upload-Keeps : (r : Reply Unit) → Keeps P (pause_after_upload r)
  unfolding pause_after_upload
  pause_after_upload-Keeps (done a) = search keeps_rules
  pause_after_upload-Keeps (failed e) = search keeps_rules

  upload_one-Keeps : (p : String × String) → Keeps P (upload_one p)
  unfolding upload_one
  upload_one-Keeps p = search (keeps_rules, upload-Keeps, pause_after_upload-Keeps)

module _ (b : ClusterState) where
  store_logs-Below : (logs : Option (List (String × String))) → Keeps (Below b) (store_logs logs)
  unfolding store_logs spin
  store_logs-Below none = record { at = λ w h. h; seen = λ w h. h; closed = λ w h. h }
  store_logs-Below (some logs) = search (keeps_rules, Keeps-sync)

  get_worker_node_logs-Below : Keeps (Below b) get_worker_node_logs
  unfolding get_worker_node_logs
  get_worker_node_logs-Below = search (keeps_rules, store_logs-Below) depth 10

  pub upload_worker_node_logs-Below : Keeps (Below b) upload_worker_node_logs
  unfolding upload_worker_node_logs
  upload_worker_node_logs-Below =
      search (keeps_rules, get_worker_node_logs-Below, upload_one-Keeps) depth 10
