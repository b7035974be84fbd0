-- ===== src/Eks/Nodes.antt =====
-- internal/eks/worker_node.go: the nodes that `kubectl get nodes` lists.
use aws_k8s_tester.Common.{ℕ, suc, Bool, false, List, [], ◌∷◌, str_eq, if◌then◌else◌}
use aws_k8s_tester.Runtime.Outside.{NodeCondition, Node}

ready_in : List NodeCondition → Bool
ready_in [] = false
ready_in (c ∷ rest) =
    if str_eq c.condition_type "Ready" then str_eq c.status "True" else ready_in rest

-- `isReady`: the first condition of type `Ready` decides.
unfoldable pub is_ready : Node → Bool
unfolding ready_in
is_ready node = ready_in node.conditions

-- `countReadyNodes`
unfoldable pub count_ready_nodes : List Node → ℕ
unfolding is_ready
count_ready_nodes [] = 0
count_ready_nodes (node ∷ rest) =
    let n = count_ready_nodes rest in if is_ready node then suc n else n
