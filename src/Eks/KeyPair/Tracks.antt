-- ===== src/Eks/KeyPair/Tracks.antt =====
-- The flag of the key pair during its creation.
use aws_k8s_tester.Common.{String, true, false, ◌≡◌, ◌∷◌, str_eq}
use aws_k8s_tester.Runtime.Outside.{done, Outside, ec2_create_key_pair}
use aws_k8s_tester.Runtime.Action.{World, gets, call, calling, ◌>>=◌}
use aws_k8s_tester.Eks.Flag.{key_pair, raised}
use aws_k8s_tester.Eks.Flag.Rules.{raised_then}
use aws_k8s_tester.Runtime.Keeps.{Predicate, Keeps, keeps_rules, Keeps-sync}
use aws_k8s_tester.Eks.KeyPair.{create_key_pair, store_key}

pub store_key-Keeps :
    {P : Predicate} (o : Outside) (name path created : String)
    → Keeps P (store_key o name path created)
unfolding store_key
store_key-Keeps o name path created = search (keeps_rules, Keeps-sync) depth 10

-- Once EC2 has created the key pair, its flag is up however the creation ends, so that a rollback
-- deletes the pair: also when its name is not the expected one or the private key cannot be stored.
-- The pair has a name and the private key a path.
pub create_key_pair_tracks :
    (w : World) (output : String × String)
    → str_eq w.cfg.cluster_state.cf_stack_worker_node_group_key_pair_name "" ≡ false
    → str_eq w.cfg.worker_node_private_key_path "" ≡ false
    → w.outside.key_pair (
        ec2_create_key_pair w.cfg.cluster_state.cf_stack_worker_node_group_key_pair_name
        ∷ w.history)
      ≡ done output
    → raised key_pair (create_key_pair w).1.cfg.cluster_state ≡ true
unfolding create_key_pair ◌>>=◌ gets call calling
create_key_pair_tracks w output named placed created =
    rw (named, placed, created) (raised_then key_pair _ _ (λ u. store_key-Keeps w.outside _ _ _))
