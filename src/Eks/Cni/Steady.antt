-- ===== src/Eks/Cni/Steady.antt =====
-- What is applied with kubectl, and the state of the cluster.
use aws_k8s_tester.Common.{String, Option, none, some}
use aws_k8s_tester.Runtime.Keeps.{Predicate, Keeps, keeps_rules}
use aws_k8s_tester.Eks.Cluster.{run_kubectl}
use aws_k8s_tester.Eks.Cni.{
  upgrade_cni, apply_round, retry_unless_unknown_flag, create_aws_credential_secret,
  create_secret_round, get_secret_round, again_on_error, found_secret,
}

module _ {P : Predicate} where
  retry-Keeps : (output : String) (e : Option String) → Keeps P (retry_unless_unknown_flag output e)
  unfolding retry_unless_unknown_flag
  retry-Keeps output none = search keeps_rules
  retry-Keeps output (some e) = search keeps_rules

  again_on_error-Keeps : (output : String) (e : Option String) → Keeps P (again_on_error output e)
  unfolding again_on_error
  again_on_error-Keeps output none = search keeps_rules
  again_on_error-Keeps output (some e) = search keeps_rules

  apply_round-Keeps : (path last : String) → Keeps P (apply_round path last)
  unfolding apply_round run_kubectl
  apply_round-Keeps path last = search (keeps_rules, retry-Keeps) depth 10

  create_secret_round-Keeps :
      (credential last : String) → Keeps P (create_secret_round credential last)
  unfolding create_secret_round run_kubectl
  create_secret_round-Keeps credential last = search (keeps_rules, retry-Keeps) depth 10

  get_secret_round-Keeps : (last : String) → Keeps P (get_secret_round last)
  unfolding get_secret_round run_kubectl
  get_secret_round-Keeps last = search (keeps_rules, again_on_error-Keeps) depth 10

  pub upgrade_cni-Keeps : Keeps P upgrade_cni
  unfolding upgrade_cni
  upgrade_cni-Keeps = search (keeps_rules, apply_round-Keeps) depth 10

  pub create_aws_credential_secret-Keeps : Keeps P create_aws_credential_secret
  unfolding create_aws_credential_secret found_secret
  create_aws_credential_secret-Keeps =
      search (keeps_rules, create_secret_round-Keeps, get_secret_round-Keeps) depth 14
