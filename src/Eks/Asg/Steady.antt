-- ===== src/Eks/Asg/Steady.antt =====
-- `checkASG`, and the state of the cluster.
use aws_k8s_tester.Common.{ℕ, zero, suc, String, List, [], ◌∷◌, Option, none, some}
use aws_k8s_tester.Config.{Config}
use aws_k8s_tester.Runtime.Outside.{
  Described, Reply, done, failed, AutoScalingGroup, StackResource, Outside,
}
use aws_k8s_tester.Runtime.Action.{M, spin, modify_state}
use aws_k8s_tester.Runtime.Keeps.{
  Predicate, Keeps, keeps_rules, Keeps-modify_state, Keeps-bind, Keeps-attempt, Keeps-call,
}
use aws_k8s_tester.Eks.Cluster.Ready.{IsUsable}
use aws_k8s_tester.Eks.Asg.{
  check_asg, describe_batches, batch_described, groups_described, resources_described, store_asg,
  check_group, nodes_by_id,
}

store_asg-IsUsable : (id : Option String) → Keeps IsUsable (store_asg id)
unfolding store_asg
store_asg-IsUsable none = search keeps_rules
store_asg-IsUsable (some id) = Keeps-modify_state _ (λ o s h. h)

check_group-Keeps :
    {P : Predicate} (o : Outside) (c : Config) (g : AutoScalingGroup) → Keeps P (check_group o c g)
unfolding check_group
check_group-Keeps o c g = search keeps_rules depth 10

batch_described-Keeps :
    {P : Predicate} (o : Outside) (ids : List String) (found : List Described)
    (rest : List String → List Described → M (List Described)) (r : Reply (List (List Described)))
    → ((ids : List String) (more : List Described) → Keeps P (rest ids more))
    → Keeps P (batch_described o ids found rest r)
unfolding batch_described
batch_described-Keeps o ids found rest (failed e) k = search keeps_rules
batch_described-Keeps o ids found rest (done rs) k = search (keeps_rules, k) depth 10

spin-Keeps : {P : Predicate} → Keeps P (spin {A = List Described})
unfolding spin
spin-Keeps = record { at = λ w h. h; seen = λ w h. h; closed = λ w h. h }

describe_batches-Keeps :
    {P : Predicate} (fuel : ℕ) (o : Outside) (ids : List String) (found : List Described)
    → Keeps P (describe_batches fuel o ids found)
unfolding describe_batches
describe_batches-Keeps fuel o [] found = search keeps_rules
describe_batches-Keeps zero o (id ∷ ids) found = spin-Keeps
describe_batches-Keeps (suc fuel) o (id ∷ ids) found =
    Keeps-bind _ _ (Keeps-attempt _ (Keeps-call _ _)) (λ r.
      batch_described-Keeps o (id ∷ ids) found (describe_batches fuel o) r
        (λ is more. describe_batches-Keeps fuel o is more))

store_nodes-IsUsable :
    (found : List Described)
    → Keeps IsUsable (modify_state (λ s. record s { worker_nodes = nodes_by_id found [] }))
store_nodes-IsUsable found = Keeps-modify_state _ (λ o s h. h)

groups_described-IsUsable :
    (o : Outside) (c : Config) (n : String) (r : Reply (List AutoScalingGroup))
    → Keeps IsUsable (groups_described o c n r)
unfolding groups_described
groups_described-IsUsable o c n (failed e) = search keeps_rules
groups_described-IsUsable o c n (done []) = search keeps_rules
groups_described-IsUsable o c n (done (g ∷ [])) =
    search (store_nodes-IsUsable, keeps_rules, check_group-Keeps, describe_batches-Keeps) depth 8
groups_described-IsUsable o c n (done (g ∷ h ∷ rest)) = search keeps_rules

resources_described-IsUsable :
    (o : Outside) (n : String) (rs : List StackResource)
    → Keeps IsUsable (resources_described o n rs)
unfolding resources_described
resources_described-IsUsable o n [] = search keeps_rules
resources_described-IsUsable o n (r ∷ rs) =
    search (keeps_rules, store_asg-IsUsable, groups_described-IsUsable) depth 10

pub check_asg-IsUsable : Keeps IsUsable check_asg
unfolding check_asg
check_asg-IsUsable = search (keeps_rules, resources_described-IsUsable)
