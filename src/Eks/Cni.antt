-- ===== src/Eks/Cni.antt =====
-- internal/eks/cni.go and secrets.go: what is applied to the new cluster with kubectl.
pub mod Rules
pub mod Steady
use aws_k8s_tester.Common.{
  ℕ, ◌*◌, String, ◌<>◌, Bool, true, false, not, List, [], ◌∷◌, Option, none, some, str_eq, contains,
  if◌then◌else◌,
}
use aws_k8s_tester.Runtime.Outside.{ExecResult, download, write_temp_file, poll_stopc}
use aws_k8s_tester.Runtime.Words.{
  M, acknowledge, pure, raise, gets, ◌>>=◌, ◌>>◌, ask, call, sleep, Next, again, stop, leave,
  Finish, ended, left, poll,
}
use aws_k8s_tester.Runtime.Time.{second, minute}
use aws_k8s_tester.Eks.Cluster.{run_kubectl}

-- A failed command is tried again, unless kubectl does not know the flag.
retry_unless_unknown_flag : String → Option String → M (Next String)
retry_unless_unknown_flag output none = pure (stop output)
retry_unless_unknown_flag output (some e) =
    if contains e "unknown flag:"
    then raise ("unknown flag " <> output)
    else (do sleep (5 * second); pure (again output))

apply_round : String → String → M (Next String)
unfolding run_kubectl retry_unless_unknown_flag
apply_round path last = do
  stopped ← ask poll_stopc (λ o. o.stopped)
  if stopped then pure leave else do
    r ← run_kubectl ("apply" ∷ ("--filename=" <> path) ∷ [])
    retry_unless_unknown_flag r.output r.error

abbrev pub cni_url : String
cni_url =
    "https://raw.githubusercontent.com/aws/amazon-vpc-cni-k8s/master/config/v1.3/aws-k8s-cni.yaml"

-- `return nil` follows the loop, also when every round failed.
unfoldable pub upgrade_cni : M (Unit {0})
unfolding apply_round
upgrade_cni = do
  manifest ← call (download cni_url) (λ o. o.text)
  path ← call (write_temp_file "cni-v1.3.yaml") (λ o. o.text)
  finish ← poll (5 * minute) (apply_round path) ""
  pure tt

abbrev pub secret_name : String
secret_name = "aws-cred-aws-k8s-tester"

create_secret_round : String → String → M (Next String)
unfolding run_kubectl retry_unless_unknown_flag
create_secret_round credential last = do
  r ← run_kubectl (
      "create"
      ∷ "secret"
      ∷ "generic"
      ∷ secret_name
      ∷ "--namespace=kube-system"
      ∷ ("--from-file=" <> (secret_name <> ("=" <> credential)))
      ∷ [])
  retry_unless_unknown_flag r.output r.error

again_on_error : String → Option String → M (Next String)
again_on_error output none = pure (stop output)
again_on_error output (some e) = do sleep (5 * second); pure (again output)

get_secret_round : String → M (Next String)
unfolding run_kubectl again_on_error
get_secret_round last = do
  r ←
      run_kubectl
        ("get" ∷ "secret" ∷ secret_name ∷ "--output=yaml" ∷ "--namespace=kube-system" ∷ [])
  again_on_error r.output r.error

-- The variable `kexo` after a loop that nothing leaves.
output_of : Finish String → String
output_of (ended output) = output
output_of left = ""

found_secret : String → M (Unit {0})
found_secret output =
    if not (contains output ("name: " <> secret_name))
    then raise "cannot get secret objects"
    else pure tt

unfoldable pub create_aws_credential_secret : M (Unit {0})
unfolding create_secret_round get_secret_round output_of found_secret
create_aws_credential_secret = do
  c ← gets (λ w. w.cfg)
  if str_eq c.aws_credential_to_mount_path ""
      then pure tt
      else if str_eq c.kube_config_path ""
      then raise "cannot find KUBECONFIG"
      else do
        created ← poll (5 * minute) (create_secret_round c.aws_credential_to_mount_path) ""
        sleep (3 * second)
        found ← poll (5 * minute) get_secret_round (output_of created)
        found_secret (output_of found)
