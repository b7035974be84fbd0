-- ===== src/EksConfig/Load.antt =====
-- eksconfig/config.go: `Load` and `BackupConfig`.
pub mod Restored
use aws_k8s_tester.Common.{String, ◌<>◌, Option, none, some, str_eq, if◌then◌else◌}
use aws_k8s_tester.Config.{Config, ClusterState, AlbIngressController}
use aws_k8s_tester.Runtime.Outside.{Decoded, read_file, abs_path, write_text}
use aws_k8s_tester.Runtime.Words.{
  Reply, done, failed, Outside, M, acknowledge, pure, raise, gets, ◌>>=◌, ◌>>◌, call,
}
use aws_k8s_tester.EksConfig.Empty.{empty_state, empty_alb}

-- The result of a function that calls nothing.
unfoldable pub returned {ℓ} : {A : Type ℓ} → Reply A → M A
returned (done a) = pure a
returned (failed e) = raise e

abbrev pub or_empty {ℓ} : {A : Type ℓ} → A → Option A → A
or_empty empty none = empty
or_empty empty (some a) = a

-- The two pointers are not nil any more, and the path is set.
abbrev pub at_path : String → Decoded → Config
at_path path d = record d.fields {
  config_path = path;
  cluster_state = or_empty empty_state d.cluster_state;
  alb_ingress_controller = or_empty empty_alb d.alb_ingress_controller;
}

unfoldable pub parse_up_took : Outside → ClusterState → M ClusterState
parse_up_took o s =
    if str_eq s.up_took ""
    then pure s
    else (do d ← returned (o.parse_duration s.up_took); pure (record s { up_took_duration = d }))

unfoldable pub parse_ingress_up_took : Outside → AlbIngressController → M AlbIngressController
parse_ingress_up_took o a = if str_eq a.ingress_up_took "" then pure a else (do
  d ← returned (o.parse_duration a.ingress_up_took)
  pure (record a { ingress_up_took_duration = d }))

unfoldable pub load : String → M Config
load p = do
  o ← gets (λ w. w.outside)
  text ← call (read_file p) (λ o. o.text)
  decoded ← returned (o.decode_config text)
  path ← call (abs_path p) (λ o. o.text)
  let c = at_path path decoded
  s ← parse_up_took o c.cluster_state
  a ← parse_ingress_up_took o c.alb_ingress_controller
  pure (record c { cluster_state = s; alb_ingress_controller = a })

-- The contents of the file are copied to a new one, whose path is returned.
unfoldable pub backup_config : M String
backup_config = do
  o ← gets (λ w. w.outside)
  path ← gets (λ w. w.cfg.config_path)
  text ← call (read_file path) (λ o. o.text)
  now ← gets (λ w. w.clock)
  let p = path <> ("." <> (o.nanoseconds_hex now <> ".backup.yaml"))
  call (write_text p text) acknowledge
  pure p
