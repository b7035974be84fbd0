-- ===== src/Eks/Alb/Rules.antt =====
-- The ends of the deletions of internal/eks/alb, and what they keep of the state of the cluster.
use aws_k8s_tester.Common.{String, Bool, List, Option, none, some}
use aws_k8s_tester.Config.{AlbIngressController}
use aws_k8s_tester.Runtime.Outside.{Reply, done, failed}
use aws_k8s_tester.Runtime.Action.{M}
use aws_k8s_tester.Runtime.Good.{Good, good_rules, Good-sync, Busy, busy_rules}
use aws_k8s_tester.Runtime.Keeps.{Predicate, Keeps, IsClosed, keeps_rules, Keeps-sync}
use aws_k8s_tester.Eks.Cluster.{run_kubectl}
use aws_k8s_tester.Eks.Cluster.Rules.{run_kubectl-Busy}
use aws_k8s_tester.Eks.Alb.{
  revoked, group_deleted, delete_security_group, ingress_round, listing_round, file_deleted,
  delete_file, found_listeners, collect_listeners, delete_group_if, found_groups, collect_groups,
  balancer_deleted, delete_balancer, for_balancers, delete_objects_body, delete_ingress_objects,
}

revoked-Good : (id port : String) (r : Reply Unit) → Good (revoked id port r)
unfolding revoked
revoked-Good id port (done x) = search good_rules depth 12
revoked-Good id port (failed e) = search (good_rules, Good-sync) depth 12

group_deleted-Good : (id : String) (r : Reply Unit) → Good (group_deleted id r)
unfolding group_deleted
group_deleted-Good id (done x) = search (good_rules, Good-sync) depth 12
group_deleted-Good id (failed e) = search (good_rules, Good-sync) depth 12

pub delete_security_group-Good : Good delete_security_group
unfolding delete_security_group
delete_security_group-Good = search (good_rules, revoked-Good, group_deleted-Good) depth 12

found_listeners-Good : (r : Reply (List String)) → Good (found_listeners r)
unfolding found_listeners
found_listeners-Good (done x) = search good_rules depth 12
found_listeners-Good (failed e) = search good_rules depth 12

collect_listeners-Good : (p : String × String) → Good (collect_listeners p)
unfolding collect_listeners
collect_listeners-Good p = search (good_rules, found_listeners-Good) depth 12

delete_group_if-Good : (b : Bool) (arn : String) → Good (delete_group_if b arn)
unfolding delete_group_if
delete_group_if-Good b arn = search good_rules depth 12

found_groups-Good :
    (f : String → Bool) (r : Reply (List (String × String))) → Good (found_groups f r)
unfolding found_groups
found_groups-Good f (done x) = search (good_rules, delete_group_if-Good) depth 12
found_groups-Good f (failed e) = search good_rules depth 12

collect_groups-Good : (p : String × String) → Good (collect_groups p)
unfolding collect_groups
collect_groups-Good p = search (good_rules, found_groups-Good) depth 12

balancer_deleted-Good : (r : Reply Unit) → Good (balancer_deleted r)
unfolding balancer_deleted
balancer_deleted-Good (done x) = search good_rules depth 12
balancer_deleted-Good (failed e) = search (good_rules, Good-sync) depth 12

delete_balancer-Good : (p : String × String) → Good (delete_balancer p)
unfolding delete_balancer
delete_balancer-Good p = search (good_rules, balancer_deleted-Good) depth 12

ingress_round-Busy :
    (n : String) (mark : AlbIngressController → AlbIngressController) (u : Unit)
    → Busy (ingress_round n mark u)
unfolding ingress_round
ingress_round-Busy n mark u = search (good_rules, busy_rules, run_kubectl-Busy, Good-sync) depth 12

listing_round-Busy : (kind name : String) (u : Unit) → Busy (listing_round kind name u)
unfolding listing_round
listing_round-Busy kind name u = search (good_rules, busy_rules, run_kubectl-Busy) depth 12

file_deleted-Good : (e : Option String) → Good (file_deleted e)
unfolding file_deleted
file_deleted-Good none = search good_rules
file_deleted-Good (some e) = search good_rules

delete_file-Good : (path : String) → Good (delete_file path)
unfolding delete_file run_kubectl
delete_file-Good path = search (good_rules, file_deleted-Good) depth 12

for_balancers-Good :
    (body : String × String → M Unit)
    → ((p : String × String) → Good (body p))
    → Good (for_balancers body)
unfolding for_balancers
for_balancers-Good body g = search (good_rules, g)

delete_objects_body-Good : Good delete_objects_body
unfolding delete_objects_body
delete_objects_body-Good =
    search
      (
        good_rules, Good-sync, delete_file-Good, ingress_round-Busy, listing_round-Busy,
        for_balancers-Good, collect_listeners-Good, collect_groups-Good, delete_balancer-Good,
      )
      depth 40 fits 4000

pub delete_ingress_objects-Good : Good delete_ingress_objects
unfolding delete_ingress_objects
delete_ingress_objects-Good = search (good_rules, delete_objects_body-Good)

module _ {P : Predicate} where
  revoked-Keeps : (id port : String) (r : Reply Unit) → Keeps P (revoked id port r)
  unfolding revoked
  revoked-Keeps id port (done x) = search keeps_rules depth 12
  revoked-Keeps id port (failed e) = search (keeps_rules, Keeps-sync) depth 12

  group_deleted-Keeps : (id : String) (r : Reply Unit) → Keeps P (group_deleted id r)
  unfolding group_deleted
  group_deleted-Keeps id (done x) = search (keeps_rules, Keeps-sync) depth 12
  group_deleted-Keeps id (failed e) = search (keeps_rules, Keeps-sync) depth 12

  pub delete_security_group-Keeps : Keeps P delete_security_group
  unfolding delete_security_group
  delete_security_group-Keeps = search (keeps_rules, revoked-Keeps, group_deleted-Keeps) depth 12

  found_listeners-Keeps : (r : Reply (List String)) → Keeps P (found_listeners r)
  unfolding found_listeners
  found_listeners-Keeps (done x) = search keeps_rules depth 12
  found_listeners-Keeps (failed e) = search keeps_rules depth 12

  collect_listeners-Keeps : (p : String × String) → Keeps P (collect_listeners p)
  unfolding collect_listeners
  collect_listeners-Keeps p = search (keeps_rules, found_listeners-Keeps) depth 12

  delete_group_if-Keeps : (b : Bool) (arn : String) → Keeps P (delete_group_if b arn)
  unfolding delete_group_if
  delete_group_if-Keeps b arn = search keeps_rules depth 12

  found_groups-Keeps :
      (f : String → Bool) (r : Reply (List (String × String))) → Keeps P (found_groups f r)
  unfolding found_groups
  found_groups-Keeps f (done x) = search (keeps_rules, delete_group_if-Keeps) depth 12
  found_groups-Keeps f (failed e) = search keeps_rules depth 12

  collect_groups-Keeps : (p : String × String) → Keeps P (collect_groups p)
  unfolding collect_groups
  collect_groups-Keeps p = search (keeps_rules, found_groups-Keeps) depth 12

  balancer_deleted-Keeps : (r : Reply Unit) → Keeps P (balancer_deleted r)
  unfolding balancer_deleted
  balancer_deleted-Keeps (done x) = search keeps_rules depth 12
  balancer_deleted-Keeps (failed e) = search (keeps_rules, Keeps-sync) depth 12

  delete_balancer-Keeps : (p : String × String) → Keeps P (delete_balancer p)
  unfolding delete_balancer
  delete_balancer-Keeps p = search (keeps_rules, balancer_deleted-Keeps) depth 12

  ingress_round-Keeps :
      (n : String) (mark : AlbIngressController → AlbIngressController) (u : Unit)
      → ((a : AlbIngressController) → IsClosed a → IsClosed (mark a))
      → Keeps P (ingress_round n mark u)
  unfolding ingress_round run_kubectl
  ingress_round-Keeps n mark u keep = search (keeps_rules, Keeps-sync, keep) depth 12

  listing_round-Keeps : (kind name : String) (u : Unit) → Keeps P (listing_round kind name u)
  unfolding listing_round run_kubectl
  listing_round-Keeps kind name u = search keeps_rules depth 12

  file_deleted-Keeps : (e : Option String) → Keeps P (file_deleted e)
  unfolding file_deleted
  file_deleted-Keeps none = search keeps_rules
  file_deleted-Keeps (some e) = search keeps_rules

  delete_file-Keeps : (path : String) → Keeps P (delete_file path)
  unfolding delete_file run_kubectl
  delete_file-Keeps path = search (keeps_rules, file_deleted-Keeps) depth 12

  for_balancers-Keeps :
      (body : String × String → M Unit)
      → ((p : String × String) → Keeps P (body p))
      → Keeps P (for_balancers body)
  unfolding for_balancers
  for_balancers-Keeps body g = search (keeps_rules, g)

  delete_objects_body-Keeps : Keeps P delete_objects_body
  unfolding delete_objects_body
  delete_objects_body-Keeps =
      search
        (
          keeps_rules, Keeps-sync, delete_file-Keeps, ingress_round-Keeps, listing_round-Keeps,
          for_balancers-Keeps, collect_listeners-Keeps, collect_groups-Keeps, delete_balancer-Keeps,
        )
        depth 40 fits 4000

  pub delete_ingress_objects-Keeps : Keeps P delete_ingress_objects
  unfolding delete_ingress_objects
  delete_ingress_objects-Keeps = search (keeps_rules, delete_objects_body-Keeps)
