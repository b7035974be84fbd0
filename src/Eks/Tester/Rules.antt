-- ===== src/Eks/Tester/Rules.antt =====
-- The ends of the steps of `Down`, and of the operations of `Up` that create the cluster.
use aws_k8s_tester.Common.{String, Bool, true, false, List, [], ◌∷◌}
use aws_k8s_tester.Runtime.Outside.{
  Reply, done, failed, Outside, Signal, finished, stopc_closed, termination,
}
use aws_k8s_tester.Runtime.Action.{World, M}
use aws_k8s_tester.Runtime.Good.{
  Good, good_rules, Good-sync, Good-bind, Good-ignore, Good-pure, Good-modify_alb, Ends,
}
use aws_k8s_tester.Eks.Role.Rules.{
  create_service_role-Good, delete_service_role-Good, attach_policies-Good, detach_policies-Good,
}
use aws_k8s_tester.Eks.KeyPair.Rules.{create_key_pair-Good, delete_key_pair-Good}
use aws_k8s_tester.Eks.Upload.Rules.{upload_tester_logs-Good, upload_if-Good}
use aws_k8s_tester.Eks.Vpc.Rules.{create_vpc-Good, delete_vpc-Good}
use aws_k8s_tester.Eks.Cluster.Rules.{create_cluster-Good, delete_cluster-Good}
use aws_k8s_tester.Eks.Cni.Rules.{upgrade_cni-Good}
use aws_k8s_tester.Eks.Worker.Rules.{create_worker_node-Good, delete_worker_node-Good}
use aws_k8s_tester.Eks.Alb.Rules.{delete_security_group-Good, delete_ingress_objects-Good}
use aws_k8s_tester.Eks.Upload.{upload_if}
use aws_k8s_tester.Eks.Tester.{
  create_stages, conclude, catch_stopc, stage, finish_down, delete_objects, delete_group,
  delete_all, tear_down,
}

conclude-Good : (o : Outside) (r : Reply Unit) (s : Signal) → Good (conclude o r s)
unfolding conclude
conclude-Good o (done a) finished = search good_rules
conclude-Good o (failed e) finished = search good_rules
conclude-Good o (done a) stopc_closed = search good_rules
conclude-Good o (failed e) stopc_closed = search good_rules
conclude-Good o (done a) (termination s) = search good_rules
conclude-Good o (failed e) (termination s) = search good_rules

catch_stopc-Good : (m : M Unit) → Good m → Good (catch_stopc m)
unfolding catch_stopc
catch_stopc-Good m g = search (good_rules, conclude-Good) depth 8

stage-Good : (m : M Unit) (errs : List String) → Good m → Good (stage m errs)
unfolding stage
stage-Good m errs g = search good_rules

finish_down-Good : (errs : List String) → Good (finish_down errs)
unfolding finish_down
finish_down-Good [] = search good_rules
finish_down-Good (e ∷ errs) = search good_rules

delete_objects-Good : (b : Bool) (errs : List String) → Good (delete_objects b errs)
unfolding delete_objects
delete_objects-Good false errs = search good_rules
delete_objects-Good true errs =
    Good-bind _ _ (stage-Good _ errs delete_ingress_objects-Good)
      (λ errs'. Good-bind _ _ (Good-ignore _ delete_security_group-Good) (λ _. Good-pure errs'))

delete_group-Good : (b : Bool) (errs : List String) → Good (delete_group b errs)
unfolding delete_group
delete_group-Good false errs = search good_rules
delete_group-Good true errs =
    Good-bind _ _ (stage-Good _ errs delete_security_group-Good)
      (λ errs'. Good-bind _ _ (Good-modify_alb _) (λ _. Good-pure errs'))

delete_all-Good : Good delete_all
unfolding delete_all
delete_all-Good =
    search
      (
        good_rules, stage-Good, delete_objects-Good, delete_group-Good, delete_worker_node-Good,
        delete_key_pair-Good, delete_cluster-Good, delete_vpc-Good, detach_policies-Good,
        delete_service_role-Good,
      )
      depth 16

pub tear_down-Good : Good (tear_down false)
unfolding tear_down upload_if
tear_down-Good =
    search
      (
        good_rules, Good-sync, delete_all-Good, upload_if-Good, upload_tester_logs-Good,
        finish_down-Good,
      )
      depth 16

create_stages-Good : Good create_stages
unfolding create_stages
create_stages-Good =
    search
      (
        good_rules, catch_stopc-Good, create_service_role-Good, attach_policies-Good,
        create_vpc-Good, create_cluster-Good, upgrade_cni-Good, create_key_pair-Good,
        create_worker_node-Good,
      )
      depth 20

-- The seven operations of `Up` that create the cluster come to an end on every world: none of their
-- loops runs for ever, however long a stack, the cluster or the nodes take.
pub create_stages-Ends : (w : World) → Ends (create_stages w).0
create_stages-Ends w = create_stages-Good.ends w
