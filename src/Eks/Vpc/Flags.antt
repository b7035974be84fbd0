-- ===== src/Eks/Vpc/Flags.antt =====
-- The deletion of the VPC's stack and the flags.
use aws_k8s_tester.Common.{ℕ, String, List, [], ◌∷◌, Option, none, some}
use aws_k8s_tester.Config.{ClusterState}
use aws_k8s_tester.Runtime.Outside.{Reply, done, failed, Stack}
use aws_k8s_tester.Runtime.Action.{World}
use aws_k8s_tester.Runtime.Keeps.{Predicate, Holds, Keeps, keeps_rules, Keeps-sync}
use aws_k8s_tester.Runtime.Poll.{Finish, ended, left}
use aws_k8s_tester.Eks.Flag.{vpc, lower_flag}
use aws_k8s_tester.Eks.Flag.Rules.{
  IsDown, Below, lower_flag-Below, lower_flag_lowers, releasing-Keeps, releasing_lowers,
}
use aws_k8s_tester.Eks.Vpc.{
  after_loop, delete_by_hand, delete_described, delete_round, deletion_started, delete_vpc_body,
  delete_vpc,
}

pub after_loop-Keeps :
    {P : Predicate} (finish : Finish (Option String)) → Keeps P (after_loop finish)
unfolding after_loop
after_loop-Keeps left = search keeps_rules
after_loop-Keeps (ended none) = search Keeps-sync
after_loop-Keeps (ended (some e)) = search keeps_rules

module _ (b : ClusterState) where
  delete_by_hand-Below : Keeps (Below b) delete_by_hand
  unfolding delete_by_hand
  delete_by_hand-Below = search keeps_rules depth 12

  delete_described-Below :
      (n : String) (t : ℕ) (r : Reply (List Stack)) → Keeps (Below b) (delete_described n t r)
  unfolding delete_described
  delete_described-Below n t (done []) = search keeps_rules
  delete_described-Below n t (done (s ∷ rest)) = search (keeps_rules, delete_by_hand-Below) depth 10
  delete_described-Below n t (failed e) = search keeps_rules depth 10

  delete_round-Below :
      (n : String) (t : ℕ) (last : Option String) → Keeps (Below b) (delete_round n t last)
  unfolding delete_round
  delete_round-Below n t last = search (keeps_rules, delete_described-Below) depth 10

  deletion_started-Below : (n : String) (r : Reply Unit) → Keeps (Below b) (deletion_started n r)
  unfolding deletion_started
  deletion_started-Below n (failed e) = search keeps_rules
  deletion_started-Below n (done a) =
      search (keeps_rules, delete_round-Below, after_loop-Keeps) depth 10

  delete_vpc_body-Below : Keeps (Below b) delete_vpc_body
  unfolding delete_vpc_body
  delete_vpc_body-Below = search (keeps_rules, deletion_started-Below) depth 10

  pub delete_vpc-Below : Keeps (Below b) delete_vpc
  unfolding delete_vpc
  delete_vpc-Below = search (releasing-Keeps, lower_flag-Below, delete_vpc_body-Below)

pub delete_vpc_lowers : (w : World) → Holds (IsDown vpc) (delete_vpc w).1
unfolding delete_vpc
delete_vpc_lowers = releasing_lowers vpc (lower_flag vpc) delete_vpc_body (lower_flag_lowers vpc)
