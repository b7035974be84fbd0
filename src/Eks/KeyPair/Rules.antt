-- ===== src/Eks/KeyPair/Rules.antt =====
-- The ends of the operations of key_pair.go.
use aws_k8s_tester.Common.{String, arith}
use aws_k8s_tester.Config.{ClusterState}
use aws_k8s_tester.Runtime.Outside.{Reply, done, failed, Outside, remove_all}
use aws_k8s_tester.Runtime.Action.{World, M, ◌>>=◌, gets, ignore, attempt, call, pure, calling}
use aws_k8s_tester.Runtime.Good.{Good, good_rules, Good-sync, Good-rounds}
use aws_k8s_tester.Runtime.Keeps.{Holds, Keeps, keeps_rules, Keeps-rounds}
use aws_k8s_tester.Eks.Flag.{key_pair}
use aws_k8s_tester.Eks.Flag.Rules.{
  IsDown, Below, raise_flag-Good, lower_flag-Good, lower_flag-Below, lower_flag_lowers,
  releasing-Good, releasing-Keeps, releasing_lowers,
}
use aws_k8s_tester.Eks.KeyPair.{
  store_key, create_key_pair, still_exists, after_describe, await_round, delete_key_body,
  remove_private_key, delete_key_pair,
}

store_key-Good : (o : Outside) (a b c : String) → Good (store_key o a b c)
unfolding store_key
store_key-Good o a b c = search (good_rules, Good-sync) depth 10

pub create_key_pair-Good : Good create_key_pair
unfolding create_key_pair
create_key_pair-Good = search (good_rules, raise_flag-Good, store_key-Good) depth 14

still_exists-Good : (o : Outside) (n : String) → Good (still_exists o n)
unfolding still_exists
still_exists-Good o n = search good_rules

after_describe-Good :
    (o : Outside) (n : String) (rest : M Unit) (r : Reply Unit)
    → Good rest
    → Good (after_describe o n rest r)
unfolding after_describe
after_describe-Good o n rest (done a) g = search (good_rules, still_exists-Good)
after_describe-Good o n rest (failed e) g = search good_rules depth 8

await_round-Good :
    (o : Outside) (n : String) (rest : M Unit) → Good rest → Good (await_round o n rest)
unfolding await_round
await_round-Good o n rest g = search (good_rules, after_describe-Good)

delete_key_body-Good : Good delete_key_body
unfolding delete_key_body
delete_key_body-Good =
    search (good_rules, Good-rounds, await_round-Good, still_exists-Good) depth 14

remove_private_key-Good : Good remove_private_key
unfolding remove_private_key
remove_private_key-Good = search (good_rules, lower_flag-Good) depth 8

pub delete_key_pair-Good : Good delete_key_pair
unfolding delete_key_pair
delete_key_pair-Good = search (releasing-Good, remove_private_key-Good, delete_key_body-Good)

module _ (b : ClusterState) where
  still_exists-Below : (o : Outside) (n : String) → Keeps (Below b) (still_exists o n)
  unfolding still_exists
  still_exists-Below o n = search keeps_rules

  after_describe-Below :
      (o : Outside) (n : String) (rest : M Unit) (r : Reply Unit)
      → Keeps (Below b) rest
      → Keeps (Below b) (after_describe o n rest r)
  unfolding after_describe
  after_describe-Below o n rest (done a) g = search (keeps_rules, still_exists-Below)
  after_describe-Below o n rest (failed e) g = search keeps_rules depth 8

  await_round-Below :
      (o : Outside) (n : String) (rest : M Unit)
      → Keeps (Below b) rest
      → Keeps (Below b) (await_round o n rest)
  unfolding await_round
  await_round-Below o n rest g = search (keeps_rules, after_describe-Below)

  delete_key_body-Below : Keeps (Below b) delete_key_body
  unfolding delete_key_body
  delete_key_body-Below =
      search (keeps_rules, Keeps-rounds, await_round-Below, still_exists-Below) depth 14

  remove_private_key-Below : Keeps (Below b) remove_private_key
  unfolding remove_private_key
  remove_private_key-Below = search (keeps_rules, lower_flag-Below) depth 8

  pub delete_key_pair-Below : Keeps (Below b) delete_key_pair
  unfolding delete_key_pair
  delete_key_pair-Below = search (releasing-Keeps, remove_private_key-Below, delete_key_body-Below)

remove_private_key_lowers : (w : World) → Holds (IsDown key_pair) (remove_private_key w).1
unfolding remove_private_key ◌>>=◌ gets ignore attempt call pure
remove_private_key_lowers w =
    ground (
      arith,
      lower_flag_lowers key_pair (calling w (remove_all w.cfg.worker_node_private_key_path)),
    )

pub delete_key_pair_lowers : (w : World) → Holds (IsDown key_pair) (delete_key_pair w).1
unfolding delete_key_pair
delete_key_pair_lowers =
    releasing_lowers key_pair remove_private_key delete_key_body remove_private_key_lowers
