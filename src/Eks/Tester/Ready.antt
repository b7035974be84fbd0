-- ===== src/Eks/Tester/Ready.antt =====
-- What a success of the seven operations of `Up` that create the cluster means.
use aws_k8s_tester.Common.{◌≡◌, ◌⊎◌, inl}
use aws_k8s_tester.Runtime.Outside.{
  Reply, done, failed, Signal, finished, stopc_closed, termination, Outside,
}
use aws_k8s_tester.Runtime.Action.{World, M, Result, ok, err, panic, hung, attempt, observe}
use aws_k8s_tester.Runtime.Keeps.{
  Predicate, SawStop, Keeps, keeps_rules, Keeps-gets, Keeps-pure, Keeps-ask,
}
use aws_k8s_tester.Runtime.Triple.{
  Triple, Post, Any, Triple-bind, Triple-then, Triple-Keeps, Triple-raise, Triple-and, Triple-ok,
  Triple-crash,
}
use aws_k8s_tester.Eks.KeyPair.Steady.{create_key_pair-IsUsable}
use aws_k8s_tester.Eks.Cluster.Ready.{IsUsable, create_cluster-IsUsable}
use aws_k8s_tester.Eks.Cni.Steady.{upgrade_cni-Keeps}
use aws_k8s_tester.Eks.Worker.Ready.{HasNodes, create_worker_node_ready}
use aws_k8s_tester.Eks.Worker.Steady.{create_worker_node-IsUsable}
use aws_k8s_tester.Eks.Tester.{conclude, catch_stopc, create_stages}

conclude-Keeps :
    {P : Predicate} (o : Outside) (r : Reply Unit) (s : Signal) → Keeps P (conclude o r s)
unfolding conclude
conclude-Keeps o (done a) finished = search keeps_rules
conclude-Keeps o (failed e) finished = search keeps_rules
conclude-Keeps o (done a) stopc_closed = search keeps_rules
conclude-Keeps o (failed e) stopc_closed = search keeps_rules
conclude-Keeps o r (termination s) = search keeps_rules

catch_stopc-Keeps : {P : Predicate} (m : M Unit) → Keeps P m → Keeps P (catch_stopc m)
unfolding catch_stopc
catch_stopc-Keeps m k = search (keeps_rules, conclude-Keeps) depth 8

IfDone : Predicate → Reply (Unit {0}) → Predicate
IfDone Q (done a) = Q
IfDone Q (failed e) = Any

observed :
    (Q : Predicate) (r : Result Unit) (w : World)
    → Post (λ _. Q) r w
    → Post (IfDone Q) (observe r w).0 (observe r w).1
unfolding IfDone
observed Q (ok a) w h = h
observed Q (err e) w h = inl tt
observed Q (panic e) w h = tt
observed Q hung w h = tt

attempt_done :
    {P Q : Predicate} (m : M Unit) → Triple P m (λ _. Q) → Triple P (attempt m) (IfDone Q)
unfolding attempt
attempt_done m t = record { at = λ w h. observed _ (m w).0 (m w).1 (t.at w h) }

conclude_done :
    {Q : Predicate} (o : Outside) (r : Reply Unit) (s : Signal)
    → Triple (IfDone Q r) (conclude o r s) (λ _. Q)
unfolding IfDone conclude
conclude_done o (done a) finished = Triple-Keeps _ (Keeps-pure tt)
conclude_done o (failed e) finished = Triple-raise _
conclude_done o (done a) stopc_closed = Triple-raise _
conclude_done o (failed e) stopc_closed = Triple-raise _
conclude_done o (done a) (termination s) = Triple-crash _
conclude_done o (failed e) (termination s) = Triple-crash _

-- What holds when the function succeeds holds when `catchStopc` does.
catch_stopc_done :
    {P Q : Predicate} (m : M Unit) → Triple P m (λ _. Q) → Triple P (catch_stopc m) (λ _. Q)
unfolding catch_stopc
catch_stopc_done {P} {Q} m t =
    Triple-bind (λ _. P) _ _ (Triple-Keeps _ (Keeps-gets _))
      λ o. Triple-bind (IfDone Q) _ _ (attempt_done m t) λ r.
        Triple-bind (λ _. IfDone Q r) _ _ (Triple-Keeps _ (Keeps-ask _ _)) λ s. conclude_done o r s

-- The cluster is usable and its nodes have joined.
abbrev pub IsUp : Predicate
IsUp o s = IsUsable o s × HasNodes o s

create_stages-IsUp : Triple Any create_stages (λ _. IsUp)
unfolding create_stages
create_stages-IsUp = Triple-then _ _ λ _. Triple-then _ _ λ _. Triple-then _ _ λ _.
    Triple-bind (λ _. IsUsable) _ _ (catch_stopc_done _ create_cluster-IsUsable)
      λ _.
        Triple-bind (λ _. IsUsable) _ _ (Triple-Keeps _ (catch_stopc-Keeps _ upgrade_cni-Keeps))
          λ _.
            Triple-bind (λ _. IsUsable) _ _
              (Triple-Keeps _ (catch_stopc-Keeps _ create_key_pair-IsUsable))
              λ _. catch_stopc_done _ (
                Triple-and _ (Triple-Keeps _ create_worker_node-IsUsable) create_worker_node_ready
                  λ o s u n. (u, n))

-- When the seven operations of `Up` that create the cluster, each under `catchStopc`, return no error,
-- the cluster is active, its endpoint and certificate are known, and the node group is READY, unless a
-- `select` of the run has found the stop channel closed, which also ends the waiting without an error.
pub create_stages_ok :
    (w : World)
    → (create_stages w).0 ≡ ok tt
    → IsUp (create_stages w).1.outside (create_stages w).1.cfg.cluster_state
      ⊎ SawStop (create_stages w).1
create_stages_ok w h = Triple-ok tt w create_stages-IsUp (inl tt) h
