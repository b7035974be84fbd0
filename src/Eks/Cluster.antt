-- ===== src/Eks/Cluster.antt =====
-- internal/eks/eks.go: the EKS cluster itself, and the KUBECONFIG of its clients.
pub mod Rules
pub mod Ready
pub mod Flags
use aws_k8s_tester.Common.{
  ℕ, ◌*◌, String, ◌<>◌, Bool, true, false, not, ◌&&◌, ◌||◌, List, [], ◌∷◌, Option, none, some,
  str_eq, contains, if◌then◌else◌,
}
use aws_k8s_tester.Config.{Config, ClusterState}
use aws_k8s_tester.Runtime.Outside.{
  Cluster, ExecResult, eks_create_cluster, eks_describe_cluster, eks_delete_cluster, kubectl,
  poll_stopc, await_stopc, set_env, write_file, remove_all,
}
use aws_k8s_tester.Runtime.Words.{
  Reply, done, failed, Outside, World, M, acknowledge, pure, raise, gets, attempt, ◌>>=◌, ◌>>◌, ask,
  call, sleep, modify, modify_state, ignore, sync, Next, again, stop, leave, Finish, ended, left,
  poll,
}
use aws_k8s_tester.Runtime.Time.{second, minute}
use aws_k8s_tester.Eks.Flag.{cluster, raise_flag, lower_flag, releasing}
use aws_k8s_tester.Eks.Upload.{upload, upload_tester_logs, upload_if}
use aws_k8s_tester.Eks.Vpc.{after_loop, error_of}

-- `isEKSDeletedGoClient`, on the error's text.
unfoldable pub is_eks_deleted : String → Bool
is_eks_deleted e = contains e "No cluster found for name: "

abbrev pub set_status : String → ClusterState → ClusterState
set_status e s = record s { status = e }

-- What each description of the cluster is copied to.
unfoldable pub store_cluster : Cluster → M (Unit {0})
store_cluster d = do
  modify_state (λ s. record s { status = d.status; created = d.created_at })
  modify (λ c. record c { platform_version = d.platform_version })

or_keep : Option String → String → String
or_keep none old = old
or_keep (some new) old = new

upload_logs_if_enabled : M (Unit {0})
upload_logs_if_enabled = do
  enabled ← gets (λ w. w.cfg.upload_tester_logs)
  upload_if enabled upload_tester_logs

-- `err` at the end of a round is the error of the upload, if that was tried.
upload_error : Bool → M (Option String)
upload_error enabled =
    if enabled then (do r ← attempt upload_tester_logs; pure (error_of r)) else pure none

create_described : Outside → String → Reply Cluster → M (Next (Option String))
unfolding store_cluster or_keep upload_error
create_described o name (failed e) = do sleep (10 * second); pure (again (some e))
create_described o name (done d) = do
  store_cluster d
  ignore sync
  if str_eq d.status "FAILED"
      then raise ("failed to create " <> o.quoted name)
      else if str_eq d.status "ACTIVE"
      then (do
        modify_state (λ s. record s {
          endpoint = or_keep d.endpoint s.endpoint;
          ca = or_keep d.certificate_authority s.ca;
        })
        ignore sync
        pure (stop none))
      else (do
        ignore sync
        enabled ← gets (λ w. w.cfg.upload_tester_logs)
        e ← upload_error enabled
        sleep (30 * second)
        pure (again e))

create_round : Outside → String → Option String → M (Next (Option String))
unfolding create_described
create_round o name last = do
  stopped ← ask poll_stopc (λ o. o.stopped)
  if stopped then pure leave else do
    r ← attempt (call (eks_describe_cluster name) (λ o. o.cluster))
    create_described o name r

-- `writeKUBECONFIG`: five effects; the template's text is left out.
unfoldable pub write_kubeconfig : M (Unit {0})
write_kubeconfig = do
  c ← gets (λ w. w.cfg)
  ignore (call (set_env "KUBECTL" c.kubectl_path) acknowledge)
  ignore (call (set_env "KUBE_MASTER_URL" c.cluster_state.endpoint) acknowledge)
  ignore (call (set_env "KUBECONFIG" c.kube_config_path) acknowledge)
  ignore (call (set_env "KUBE_CONFIG_FILE" c.kube_config_path) acknowledge)
  call (write_file c.kube_config_path) acknowledge

unfoldable pub run_kubectl : List String → M ExecResult
run_kubectl args = do
  path ← gets (λ w. w.cfg.kube_config_path)
  ask (kubectl (("--kubeconfig=" <> path) ∷ args)) (λ o. o.executed)

-- The variables `err` and `done` of the loop that waits for `kubectl cluster-info`.
info_round : Option String × Bool → M (Next (Option String × Bool))
unfolding run_kubectl
info_round last = do
  version ← run_kubectl ("version" ∷ [])
  info ← run_kubectl ("cluster-info" ∷ [])
  if contains info.output "is running at"
      then pure (stop (info.error, true))
      else do sleep (10 * second); pure (again (info.error, false))

answered : Finish (Option String × Bool) → M (Unit {0})
answered left = pure tt
answered (ended (none, true)) = sync
answered (ended (none, false)) = raise "'kubectl get all' output unexpected:  (<nil>)"
answered (ended (some e, _)) = raise ("'kubectl get all' output unexpected:  (" <> (e <> ")"))

-- What follows the waiting for an active cluster.
connect : M (Unit {0})
unfolding write_kubeconfig info_round answered
connect = do
  write_kubeconfig
  c ← gets (λ w. w.cfg)
  upload_if c.upload_kube_config (upload c.kube_config_path c.kube_config_path_bucket)
  sleep (5 * second)
  finish ← poll (5 * minute) info_round (none, false)
  answered finish

-- The checks after the loop. How long it took is left out of the message.
check_active : Outside → M (Unit {0})
check_active o = do
  s ← gets (λ w. w.cfg.cluster_state)
  if not (str_eq s.status "ACTIVE")
      then raise ("cluster creation took too long (status " <> (o.quoted s.status <> ")"))
      else if str_eq s.endpoint "" || str_eq s.ca ""
      then raise "cannot find cluster endpoint or cluster CA"
      else pure tt

after_creation : Outside → Finish (Option String) → M (Unit {0})
unfolding check_active connect
after_creation o left = pure tt
after_creation o (ended _) = do check_active o; connect

-- From the call of `CreateCluster` on.
start_creation : Outside → Config → M (Unit {0})
unfolding create_round after_creation upload_logs_if_enabled
start_creation o c = do
  call
      (eks_create_cluster c.cluster_name c.kubernetes_version
        c.cluster_state.service_role_with_policy_arn c.subnet_ids c.security_group_id)
      acknowledge
  modify_state (λ s. record s { status_cluster_created = true; status = "CREATING" })
  ignore sync
  upload_logs_if_enabled
  interrupted ← ask (await_stopc (7 * minute)) (λ o. o.stopped)
  if interrupted then pure tt else do
    sleep (7 * minute)
    finish ← poll (20 * minute) (create_round o c.cluster_name) none
    after_creation o finish

no_subnets : List String → Bool
no_subnets [] = true
no_subnets (_ ∷ _) = false

unfoldable pub create_cluster : M (Unit {0})
unfolding start_creation no_subnets
create_cluster = do
  o ← gets (λ w. w.outside)
  c ← gets (λ w. w.cfg)
  if str_eq c.cluster_name ""
      then raise "cannot create empty cluster"
      else if str_eq c.cluster_state.service_role_with_policy_arn ""
      then raise "can't create cluster without service role ARN"
      else if no_subnets c.subnet_ids
      then raise "can't create cluster without subnet IDs"
      else if str_eq c.security_group_id ""
      then raise "can't create cluster without security group ID"
      else start_creation o c

delete_described : Reply Cluster → M (Next (Option String))
unfolding store_cluster upload_error
delete_described (done d) = do
  store_cluster d
  ignore sync
  enabled ← gets (λ w. w.cfg.upload_tester_logs)
  e ← upload_error enabled
  sleep (30 * second)
  pure (again e)
delete_described (failed e) =
    if is_eks_deleted e
    then (do modify_state (set_status "DELETE_COMPLETE"); pure (stop none))
    else do modify_state (set_status e); ignore sync; sleep (30 * second); pure (again (some e))

delete_round : String → Option String → M (Next (Option String))
unfolding delete_described
delete_round name last = do
  r ← attempt (call (eks_describe_cluster name) (λ o. o.cluster))
  delete_described r

unless_gone : Reply (Unit {0}) → M (Unit {0})
unless_gone (done _) = pure tt
unless_gone (failed e) =
    if not (is_eks_deleted e) then (do modify_state (set_status e); raise e) else pure tt

remove_kubeconfig : String → M (Unit {0})
remove_kubeconfig path =
    if not (str_eq path "") then ignore (call (remove_all path) acknowledge) else pure tt

-- The parameter `deleteKubeconfig` is true at the one call.
delete_cluster_body : M (Unit {0})
unfolding remove_kubeconfig unless_gone delete_round
delete_cluster_body = do
  name ← gets (λ w. w.cfg.cluster_name)
  path ← gets (λ w. w.cfg.kube_config_path)
  if str_eq name "" then raise "cannot delete empty cluster" else do
    remove_kubeconfig path
    r ← attempt (call (eks_delete_cluster name) acknowledge)
    unless_gone r
    sleep (4 * minute)
    finish ← poll (15 * minute) (delete_round name) none
    after_loop finish

unfoldable pub delete_cluster : M (Unit {0})
unfolding delete_cluster_body
delete_cluster = releasing cluster (lower_flag cluster) delete_cluster_body
