-- ===== src/Eks/Cni/Rules.antt =====
-- The ends of the operations of cni.go and secrets.go.
use aws_k8s_tester.Common.{String, Option, none, some}
use aws_k8s_tester.Runtime.Good.{Good, good_rules, Busy, busy_rules, Busy-Good}
use aws_k8s_tester.Eks.Cluster.Rules.{run_kubectl-Busy}
use aws_k8s_tester.Eks.Cni.{
  retry_unless_unknown_flag, apply_round, upgrade_cni, create_secret_round, again_on_error,
  get_secret_round, found_secret, create_aws_credential_secret,
}

retry_unless_unknown_flag-Good :
    (output : String) (e : Option String) → Good (retry_unless_unknown_flag output e)
unfolding retry_unless_unknown_flag
retry_unless_unknown_flag-Good output none = search good_rules
retry_unless_unknown_flag-Good output (some e) = search good_rules

apply_round-Busy : (path last : String) → Busy (apply_round path last)
unfolding apply_round
apply_round-Busy path last =
    search (good_rules, busy_rules, run_kubectl-Busy, Busy-Good, retry_unless_unknown_flag-Good)
      depth 10

pub upgrade_cni-Good : Good upgrade_cni
unfolding upgrade_cni
upgrade_cni-Good = search (good_rules, apply_round-Busy) depth 10

create_secret_round-Busy : (credential last : String) → Busy (create_secret_round credential last)
unfolding create_secret_round
create_secret_round-Busy credential last =
    search (good_rules, busy_rules, run_kubectl-Busy, retry_unless_unknown_flag-Good) depth 10

again_on_error-Good : (output : String) (e : Option String) → Good (again_on_error output e)
unfolding again_on_error
again_on_error-Good output none = search good_rules
again_on_error-Good output (some e) = search good_rules

get_secret_round-Busy : (last : String) → Busy (get_secret_round last)
unfolding get_secret_round
get_secret_round-Busy last =
    search (good_rules, busy_rules, run_kubectl-Busy, again_on_error-Good) depth 10

found_secret-Good : (output : String) → Good (found_secret output)
unfolding found_secret
found_secret-Good output = search good_rules

pub create_aws_credential_secret-Good : Good create_aws_credential_secret
unfolding create_aws_credential_secret
create_aws_credential_secret-Good =
    search (good_rules, create_secret_round-Busy, get_secret_round-Busy, found_secret-Good) depth 14
