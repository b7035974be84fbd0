-- ===== src/Eks/Vpc/Rules.antt =====
-- The ends of the operations of vpc.go.
use aws_k8s_tester.Common.{ℕ, String, List, [], ◌∷◌, Option, none, some}
use aws_k8s_tester.Runtime.Outside.{Reply, done, failed, Stack, Outside}
use aws_k8s_tester.Runtime.Good.{Good, good_rules, Good-sync, Busy, busy_rules}
use aws_k8s_tester.Runtime.Poll.{Finish, ended, left}
use aws_k8s_tester.Eks.Flag.Rules.{raise_flag-Good, lower_flag-Good, releasing-Good}
use aws_k8s_tester.Eks.Vpc.{
  store_outputs, created_or_wait, stack_created, create_described, create_round, after_loop,
  create_vpc, delete_by_hand, delete_described, delete_round, deletion_started, delete_vpc_body,
  delete_vpc,
}

store_outputs-Good : (outputs : List (String × String)) → Good (store_outputs outputs)
unfolding store_outputs
store_outputs-Good outputs = search good_rules

created_or_wait-Good : (status group : String) → Good (created_or_wait status group)
unfolding created_or_wait
created_or_wait-Good status group = search good_rules depth 8

stack_created-Good : (o : Outside) (n : String) (s : Stack) → Good (stack_created o n s)
unfolding stack_created
stack_created-Good o n s = search (good_rules, store_outputs-Good, created_or_wait-Good) depth 10

create_described-Good :
    (o : Outside) (n : String) (r : Reply (List Stack)) → Good (create_described o n r)
unfolding create_described
create_described-Good o n (failed e) = search good_rules depth 8
create_described-Good o n (done []) = search good_rules
create_described-Good o n (done (s ∷ [])) = stack_created-Good o n s
create_described-Good o n (done (s ∷ t ∷ rest)) = search good_rules

create_round-Busy : (o : Outside) (n : String) (last : Option String) → Busy (create_round o n last)
unfolding create_round
create_round-Busy o n last = search (good_rules, busy_rules, create_described-Good) depth 10

pub after_loop-Good : (finish : Finish (Option String)) → Good (after_loop finish)
unfolding after_loop
after_loop-Good left = search good_rules
after_loop-Good (ended none) = search Good-sync
after_loop-Good (ended (some e)) = search good_rules

-- The creation of the VPC's stack ends.
pub create_vpc-Good : Good create_vpc
unfolding create_vpc
create_vpc-Good = search (good_rules, raise_flag-Good, create_round-Busy, after_loop-Good) depth 20

delete_by_hand-Good : Good delete_by_hand
unfolding delete_by_hand
delete_by_hand-Good = search good_rules depth 12

delete_described-Good :
    (n : String) (t : ℕ) (r : Reply (List Stack)) → Good (delete_described n t r)
unfolding delete_described
delete_described-Good n t (done []) = search good_rules
delete_described-Good n t (done (s ∷ rest)) = search (good_rules, delete_by_hand-Good) depth 10
delete_described-Good n t (failed e) = search good_rules depth 10

delete_round-Busy : (n : String) (t : ℕ) (last : Option String) → Busy (delete_round n t last)
unfolding delete_round
delete_round-Busy n t last = search (good_rules, busy_rules, delete_described-Good) depth 10

deletion_started-Good : (n : String) (r : Reply Unit) → Good (deletion_started n r)
unfolding deletion_started
deletion_started-Good n (failed e) = search good_rules
deletion_started-Good n (done a) = search (good_rules, delete_round-Busy, after_loop-Good) depth 10

delete_vpc_body-Good : Good delete_vpc_body
unfolding delete_vpc_body
delete_vpc_body-Good = search (good_rules, deletion_started-Good) depth 10

-- The deletion of the VPC's stack ends.
pub delete_vpc-Good : Good delete_vpc
unfolding delete_vpc
delete_vpc-Good = search (releasing-Good, lower_flag-Good, delete_vpc_body-Good)
