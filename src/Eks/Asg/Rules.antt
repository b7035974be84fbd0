-- ===== src/Eks/Asg/Rules.antt =====
-- The ends of `checkASG`, with its loop over the batches.
use aws_k8s_tester.Common.{
  ℕ, zero, suc, ◌≤◌, String, false, ◌≡◌, List, [], ◌∷◌, Option, none, some, arith, inl, inr, leb,
  Bool-cases, length, take,
}
use aws_k8s_tester.Config.{Config}
use aws_k8s_tester.Runtime.Outside.{
  Described, Reply, done, failed, StackResource, AutoScalingGroup, Outside,
}
use aws_k8s_tester.Runtime.Action.{M}
use aws_k8s_tester.Runtime.Good.{Good, good_rules, Good-pure, Good-bind, Good-attempt, Good-call}
use aws_k8s_tester.Eks.Asg.{
  store_asg, check_group, batch_described, describe_batches, groups_described, resources_described,
  check_asg,
}

store_asg-Good : (found : Option String) → Good (store_asg found)
unfolding store_asg
store_asg-Good none = search good_rules
store_asg-Good (some id) = search good_rules

check_group-Good : (o : Outside) (c : Config) (g : AutoScalingGroup) → Good (check_group o c g)
unfolding check_group
check_group-Good o c g = search good_rules depth 8

pub length-take-le : (n : ℕ) (ids : List String) → length (take n ids) ≤ n
length-take-le zero ids = omega arith
length-take-le (suc n) [] = omega arith
length-take-le (suc n) (id ∷ ids) = omega (arith, length-take-le n ids)

batch_described-Good :
    (o : Outside) (ids : List String) (found : List Described)
    (rest : List String → List Described → M (List Described)) (r : Reply (List (List Described)))
    → ((more : List Described) → leb (length ids) 10 ≡ false → Good (rest (take 10 ids) more))
    → Good (batch_described o ids found rest r)
unfolding batch_described
batch_described-Good o ids found rest (failed e) g = search good_rules
batch_described-Good o ids found rest (done rs) g = elim (Bool-cases (leb (length ids) 10)) [
  | inl few ↦ rw few (search good_rules)
  | inr many ↦ rw many (search (good_rules, λ (more : List Described). g more many) depth 8)
]

-- With ten ids at most the loop ends in its first round.
describe_few-Good :
    (o : Outside) (ids : List String) (found : List Described)
    → length ids ≤ 10
    → Good (describe_batches 1 o ids found)
unfolding describe_batches
describe_few-Good o [] found few = Good-pure found
describe_few-Good o (id ∷ ids) found few = Good-bind _ _ (Good-attempt _ (Good-call _ _)) (λ r.
    batch_described-Good o (id ∷ ids) found (describe_batches 0 o) r
      (λ more many. absurd (ground arith)))

describe_batches-Good :
    (o : Outside) (ids : List String) (found : List Described)
    → Good (describe_batches 2 o ids found)
unfolding describe_batches
describe_batches-Good o [] found = Good-pure found
describe_batches-Good o (id ∷ ids) found = Good-bind _ _ (Good-attempt _ (Good-call _ _)) (λ r.
    batch_described-Good o (id ∷ ids) found (describe_batches 1 o) r
      (λ more _. describe_few-Good o (take 10 (id ∷ ids)) more (length-take-le 10 (id ∷ ids))))

groups_described-Good :
    (o : Outside) (c : Config) (n : String) (r : Reply (List AutoScalingGroup))
    → Good (groups_described o c n r)
unfolding groups_described
groups_described-Good o c n (failed e) = search good_rules
groups_described-Good o c n (done []) = search good_rules
groups_described-Good o c n (done (g ∷ [])) =
    search (good_rules, check_group-Good, describe_batches-Good) depth 8
groups_described-Good o c n (done (g ∷ h ∷ rest)) = search good_rules

resources_described-Good :
    (o : Outside) (n : String) (rs : List StackResource) → Good (resources_described o n rs)
unfolding resources_described
resources_described-Good o n [] = search good_rules
resources_described-Good o n (r ∷ rs) =
    search (good_rules, store_asg-Good, groups_described-Good) depth 10

pub check_asg-Good : Good check_asg
unfolding check_asg
check_asg-Good = search (good_rules, resources_described-Good)
