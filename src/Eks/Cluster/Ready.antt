-- ===== src/Eks/Cluster/Ready.antt =====
-- What a success of `createCluster` means.
use aws_k8s_tester.Common.{
  String, Bool, true, false, ◌≡◌, ◌⊎◌, inl, inr, Option, none, some, str_eq, Bool-cases,
}
use aws_k8s_tester.Config.{Config}
use aws_k8s_tester.Runtime.Outside.{Reply, done, failed, Cluster, Outside, poll_stopc}
use aws_k8s_tester.Runtime.Action.{World, ok, pure, raise, gets, ◌>>=◌}
use aws_k8s_tester.Runtime.Poll.{Finish, ended, left}
use aws_k8s_tester.Runtime.Keeps.{SawStop, Predicate, Keeps, keeps_rules, Keeps-sync}
use aws_k8s_tester.Runtime.Triple.{
  Triple, Any, Triple-bind, Triple-then, Triple-Keeps, Triple-pure, Triple-poll, triple_rules,
  Triple-select, Triple-ok, OnLeave, OnLeft, Never,
}
use aws_k8s_tester.Eks.Upload.Rules.{upload-Keeps, upload_if-Keeps}
use aws_k8s_tester.Eks.Cluster.{
  create_described, create_round, check_active, connect, answered, info_round, write_kubeconfig,
  run_kubectl, after_creation, start_creation, create_cluster,
}

-- The cluster is active, and its endpoint and its certificate are known.
abbrev pub IsUsable : Predicate
IsUsable o s =
    (str_eq s.status "ACTIVE" ≡ true) × ((str_eq s.endpoint "" ≡ false) × (str_eq s.ca "" ≡ false))

create_described_leaves :
    (o : Outside) (name : String) (r : Reply Cluster)
    → Triple Any (create_described o name r) (OnLeave Never)
unfolding create_described
create_described_leaves o name (failed e) = search triple_rules
create_described_leaves o name (done d) = search triple_rules depth 12

create_round_leaves :
    (o : Outside) (name : String) (last : Option String)
    → Triple Any (create_round o name last) (OnLeave Never)
unfolding create_round
create_round_leaves o name last =
    Triple-select poll_stopc _ _ tt (Triple-pure _ (λ w h. h))
      (Triple-then _ _ (λ r. create_described_leaves o name r))

write_kubeconfig-Keeps : {P : Predicate} → Keeps P write_kubeconfig
unfolding write_kubeconfig
write_kubeconfig-Keeps = search keeps_rules depth 14

info_round-Keeps : {P : Predicate} (last : Option String × Bool) → Keeps P (info_round last)
unfolding info_round run_kubectl
info_round-Keeps last = search keeps_rules depth 12

answered-Keeps :
    {P : Predicate} (finish : Finish (Option String × Bool)) → Keeps P (answered finish)
unfolding answered
answered-Keeps left = search keeps_rules
answered-Keeps (ended (none, true)) = Keeps-sync
answered-Keeps (ended (none, false)) = search keeps_rules
answered-Keeps (ended (some e, b)) = search keeps_rules

connect-Keeps : {P : Predicate} → Keeps P connect
unfolding connect
connect-Keeps =
    search
      (
        keeps_rules, write_kubeconfig-Keeps, upload-Keeps, upload_if-Keeps, info_round-Keeps,
        answered-Keeps,
      )
      depth 14

check_active-IsUsable : (o : Outside) → Triple Any (check_active o) (λ _. IsUsable)
unfolding check_active ◌>>=◌ gets pure raise
check_active-IsUsable o = record {
  at = λ w h.
      let s = w.cfg.cluster_state in
      elim (Bool-cases (str_eq s.status "ACTIVE")) [
        | inr waiting ↦ rw waiting tt
        | inl active ↦ elim (Bool-cases (str_eq s.endpoint "")) [
          | inl missing ↦ rw (active, missing) tt
          | inr endpoint ↦ elim (Bool-cases (str_eq s.ca "")) [
            | inl missing ↦ rw (active, endpoint, missing) tt
            | inr ca ↦ rw (active, endpoint, ca) (inl (active, (endpoint, ca)))
          ]
        ]
      ];
}

after_creation-IsUsable :
    (o : Outside) (finish : Finish (Option String))
    → Triple (OnLeft Never finish) (after_creation o finish) (λ _. IsUsable)
unfolding after_creation
after_creation-IsUsable o left = Triple-pure tt (λ w h. elim h [ ])
after_creation-IsUsable o (ended e) =
    Triple-bind (λ _. IsUsable) _ _ (check_active-IsUsable o) (λ _. Triple-Keeps _ connect-Keeps)

start_creation-IsUsable :
    (o : Outside) (c : Config) → Triple Any (start_creation o c) (λ _. IsUsable)
unfolding start_creation
start_creation-IsUsable o c = Triple-then _ _ λ _. Triple-then _ _ λ _. Triple-then _ _ λ _.
    Triple-then _ _ λ _. Triple-select _ _ _ tt (Triple-pure tt (λ w h. elim h [ ])) (
      Triple-then _ _ λ _.
        Triple-bind (OnLeft Never) _ _
          (Triple-poll _ (create_round o c.cluster_name) none
            (create_round_leaves o c.cluster_name))
          (after_creation-IsUsable o))

pub create_cluster-IsUsable : Triple Any create_cluster (λ _. IsUsable)
unfolding create_cluster
create_cluster-IsUsable = search (triple_rules, start_creation-IsUsable) depth 12

-- A creation of the cluster that returns no error leaves an active cluster, whose endpoint and
-- certificate are known, unless a `select` of the run has found the stop channel closed, which also
-- ends the waiting without an error.
pub create_cluster_ok :
    (w : World)
    → (create_cluster w).0 ≡ ok tt
    → IsUsable (create_cluster w).1.outside (create_cluster w).1.cfg.cluster_state
      ⊎ SawStop (create_cluster w).1
create_cluster_ok w h = Triple-ok tt w create_cluster-IsUsable (inl tt) h
