-- ===== src/Eks/KeyPair.antt =====
-- internal/eks/key_pair.go: the key pair of the worker nodes.
pub mod Rules
pub mod Tracks
pub mod Steady
use aws_k8s_tester.Common.{
  ◌*◌, String, ◌<>◌, Bool, true, false, not, ◌||◌, Option, none, some, str_eq, if◌then◌else◌,
}
use aws_k8s_tester.Runtime.Outside.{
  ec2_create_key_pair, ec2_delete_key_pair, ec2_describe_key_pairs, mkdir_all, write_file,
  remove_all,
}
use aws_k8s_tester.Runtime.Words.{
  Reply, done, failed, Outside, M, acknowledge, pure, raise, gets, rounds, attempt, ◌>>=◌, ◌>>◌,
  call, sleep, ignore, sync,
}
use aws_k8s_tester.Runtime.Time.{second}
use aws_k8s_tester.Eks.Flag.{key_pair, raise_flag, lower_flag, releasing}

pub store_key : Outside → String → String → String → M (Unit {0})
store_key o name path created =
    if not (str_eq created name)
    then raise ("unexpected key name " <> (o.quoted created <> (", expected " <> o.quoted name)))
    else do call (mkdir_all (o.dir_name path)) acknowledge; call (write_file path) acknowledge; sync

unfoldable pub create_key_pair : M (Unit {0})
unfolding store_key
create_key_pair = do
  o ← gets (λ w. w.outside)
  name ← gets (λ w. w.cfg.cluster_state.cf_stack_worker_node_group_key_pair_name)
  path ← gets (λ w. w.cfg.worker_node_private_key_path)
  if str_eq name ""
      then raise "cannot create key pair without key name"
      else if str_eq path ""
      then raise "cannot create key pair without private key path"
      else do
        output ← call (ec2_create_key_pair name) (λ o. o.key_pair)
        raise_flag key_pair
        store_key o name path output.0

is_not_found : Option String → Bool
is_not_found none = false
is_not_found (some code) = str_eq code "InvalidKeyPair.NotFound"

still_exists : Outside → String → M (Unit {0})
still_exists o name = raise ("deleted key pair but " <> (o.quoted name <> " still exists"))

-- One round of the loop that waits until the key pair is gone; `next_round` is the loop after it.
after_describe : Outside → String → M (Unit {0}) → Reply (Unit {0}) → M (Unit {0})
unfolding is_not_found still_exists
after_describe o name next_round (done _) = still_exists o name
after_describe o name next_round (failed e) =
    if o.is_retryable e
    then (do sleep (5 * second); next_round)
    else if is_not_found (o.aws_error_code e)
    then pure tt
    else raise e

await_round : Outside → String → M (Unit {0}) → M (Unit {0})
unfolding after_describe
await_round o name next_round = do
  r ← attempt (call (ec2_describe_key_pairs name) acknowledge)
  after_describe o name next_round r

delete_key_body : M (Unit {0})
unfolding await_round still_exists
delete_key_body = do
  o ← gets (λ w. w.outside)
  name ← gets (λ w. w.cfg.cluster_state.cf_stack_worker_node_group_key_pair_name)
  if str_eq name "" then raise "cannot delete key pair without key name" else do
    call (ec2_delete_key_pair name) acknowledge
    sleep second
    rounds 10 (await_round o name) (still_exists o name)

-- The private key is removed too, with an error dropped.
remove_private_key : M (Unit {0})
remove_private_key = do
  path ← gets (λ w. w.cfg.worker_node_private_key_path)
  ignore (call (remove_all path) acknowledge)
  lower_flag key_pair

unfoldable pub delete_key_pair : M (Unit {0})
unfolding delete_key_body remove_private_key
delete_key_pair = releasing key_pair remove_private_key delete_key_body
