-- ===== src/Eks/Vpc/Tracks.antt =====
-- The flag of the VPC's stack during its creation.
use aws_k8s_tester.Common.{
  Bool-cases, inl, inr, String, true, false, ◌≡◌, refl, List, [], ◌∷◌, Option, str_eq,
}
use aws_k8s_tester.Config.{Config}
use aws_k8s_tester.Runtime.Outside.{
  Reply, done, failed, Stack, Outside, cf_create_stack, vpc_template,
}
use aws_k8s_tester.Runtime.Action.{World, gets, call, calling, ◌>>=◌, modify_state}
use aws_k8s_tester.Runtime.Keeps.{Predicate, Keeps, keeps_rules, Keeps-modify_state}
use aws_k8s_tester.Eks.Flag.{vpc, raised}
use aws_k8s_tester.Eks.Flag.Rules.{IsRaised, raised_then}
use aws_k8s_tester.Eks.Vpc.Flags.{after_loop-Keeps}
use aws_k8s_tester.Eks.Vpc.{
  store_outputs, store_output, create_described, created_or_wait, stack_created, create_round,
  create_vpc, set_vpc_status,
}

same_state : (x : String × String) (c : Config) → c.cluster_state ≡ (store_output x c).cluster_state
unfolding store_output
same_state (k, v) c = elim (Bool-cases (str_eq k "VpcId")) [
  | inl is_vpc ↦ rw is_vpc refl
  | inr not_vpc ↦ elim (Bool-cases (str_eq k "SubnetIds")) [
    | inl is_subnets ↦ rw (not_vpc, is_subnets) refl
    | inr not_subnets ↦ elim (Bool-cases (str_eq k "SecurityGroups")) [
      | inl is_group ↦ rw (not_vpc, not_subnets, is_group) refl
      | inr other ↦ rw (not_vpc, not_subnets, other) refl
    ]
  ]
]

same_alb :
    (x : String × String) (c : Config)
    → c.alb_ingress_controller ≡ (store_output x c).alb_ingress_controller
unfolding store_output
same_alb (k, v) c = elim (Bool-cases (str_eq k "VpcId")) [
  | inl is_vpc ↦ rw is_vpc refl
  | inr not_vpc ↦ elim (Bool-cases (str_eq k "SubnetIds")) [
    | inl is_subnets ↦ rw (not_vpc, is_subnets) refl
    | inr not_subnets ↦ elim (Bool-cases (str_eq k "SecurityGroups")) [
      | inl is_group ↦ rw (not_vpc, not_subnets, is_group) refl
      | inr other ↦ rw (not_vpc, not_subnets, other) refl
    ]
  ]
]

store_outputs-Keeps : {P : Predicate} (xs : List (String × String)) → Keeps P (store_outputs xs)
unfolding store_outputs
store_outputs-Keeps xs = search (keeps_rules, same_state, same_alb)

set_status_tracked : (e : String) → Keeps (IsRaised vpc) (modify_state (set_vpc_status e))
set_status_tracked e = Keeps-modify_state _ (λ o s h. h)

created_or_wait-Keeps :
    {P : Predicate} (status group : String) → Keeps P (created_or_wait status group)
unfolding created_or_wait
created_or_wait-Keeps status group = search keeps_rules depth 10

stack_created_tracked :
    (o : Outside) (name : String) (s : Stack) → Keeps (IsRaised vpc) (stack_created o name s)
unfolding stack_created
stack_created_tracked o name s =
    search (set_status_tracked, keeps_rules, store_outputs-Keeps, created_or_wait-Keeps) depth 10

create_described_tracked :
    (o : Outside) (name : String) (r : Reply (List Stack))
    → Keeps (IsRaised vpc) (create_described o name r)
unfolding create_described
create_described_tracked o name (failed e) = search (set_status_tracked, keeps_rules) depth 10
create_described_tracked o name (done []) = search keeps_rules
create_described_tracked o name (done (s ∷ [])) = stack_created_tracked o name s
create_described_tracked o name (done (s ∷ t ∷ rest)) = search keeps_rules

create_round_tracked :
    (o : Outside) (name : String) (last : Option String)
    → Keeps (IsRaised vpc) (create_round o name last)
unfolding create_round
create_round_tracked o name last = search (keeps_rules, create_described_tracked) depth 10

-- Once CloudFormation has accepted the VPC stack, its flag is up however the creation ends, so that
-- a rollback deletes the stack: on an error, a stop, a time-out and a success. The stack has a name, and
-- the template could be made.
pub create_vpc_tracks :
    (w : World) (template : String)
    → str_eq w.cfg.cluster_state.cf_stack_vpc_name "" ≡ false
    → w.outside.text (vpc_template ∷ w.history) ≡ done template
    → w.outside.acknowledged
        (cf_create_stack w.cfg.cluster_state.cf_stack_vpc_name [] ∷ vpc_template ∷ w.history)
      ≡ done tt
    → raised vpc (create_vpc w).1.cfg.cluster_state ≡ true
unfolding create_vpc ◌>>=◌ gets call calling
create_vpc_tracks w template named made accepted =
    rw (named, made, accepted)
      (raised_then vpc _ _
        (λ u. search (keeps_rules, create_round_tracked, after_loop-Keeps) depth 12))
