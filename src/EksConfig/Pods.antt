-- ===== src/EksConfig/Pods.antt =====
-- How many pods the nodes hold: the product of `checkMaxPods`.
use native.Mathlib.Nat.{mul-le-mul, mod-eq_of_lt}
use aws_k8s_tester.Common.{ℕ, ◌+◌, ◌*◌, ◌≤◌, ◌<◌, String, true, ◌≡◌, ap, ◌∙◌, ◌↔◌, some, arith}
use aws_k8s_tester.Common.Int.{pos, pos_part, mul64, wrap64, sub_ℕ, int64_min_abs, int64_mod}
use aws_k8s_tester.InstanceTypes.Row.{InstanceType}
use aws_k8s_tester.InstanceTypes.{instance_types, find}
use aws_k8s_tester.InstanceTypes.Rows.{max_pods_bound, max_pods_of_known}
use aws_k8s_tester.EksConfig.Checks.{check_max_pods}

wrap64_small : (n : ℕ) → n < int64_min_abs → wrap64 (pos n) ≡ pos n
unfolding wrap64
wrap64_small n h = rw (mod-eq_of_lt {n = n} {m = int64_mod} (omega arith)) (ground arith)

sub_ℕ-zero : (a b c : ℕ) → a ≡ c → b ≡ 0 → sub_ℕ a b ≡ pos c
sub_ℕ-zero a b c e z = rw (e, z) (ground arith)

mul64_pos : (m n : ℕ) → m * n < int64_min_abs → mul64 (pos m) (pos n) ≡ pos (m * n)
unfolding mul64
mul64_pos m n h =
    ap wrap64 (sub_ℕ-zero (m * n + 0 * 0) (m * 0 + 0 * n) (m * n) (omega arith) (omega arith))
    ∙ wrap64_small (m * n) h

-- The greatest number of nodes for which the product cannot overflow by this argument.
abbrev pub max_nodes : ℕ
max_nodes = 9007199254740992

no_overflow :
    (v : InstanceType) (s : String) (nodes : ℕ)
    → find s instance_types ≡ some v
    → nodes ≤ max_nodes
    → mul64 v.max_pods (pos nodes) ≡ pos (pos_part v.max_pods * nodes)
no_overflow v s nodes e h =
    let (k, known, small) = max_pods_of_known s v e in
    rw known (
      mul64_pos k nodes (
        omega
          (arith, mul-le-mul {n₁ = k} {m₁ = nodes} {n₂ = max_pods_bound} {m₂ = max_nodes} small h)))

-- For up to 2^53 nodes, `checkMaxPods` accepts a number of replicas of a known instance type exactly
-- when the nodes hold as many pods, counted without overflow.
pub check_max_pods_exact :
    (s : String) (v : InstanceType) (nodes replicas : ℕ)
    → find s instance_types ≡ some v
    → nodes ≤ max_nodes
    → (check_max_pods s (pos nodes) (pos replicas) ≡ true)
      ↔ (replicas ≤ pos_part v.max_pods * nodes)
unfolding check_max_pods
check_max_pods_exact s v nodes replicas e h =
    rw (e, no_overflow v s nodes e h) (λ fits. ground arith, λ enough. ground arith)
