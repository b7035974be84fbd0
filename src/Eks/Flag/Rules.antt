-- ===== src/Eks/Flag/Rules.antt =====
-- How the shared shape of the delete operations acts on the flags.
use aws_k8s_tester.Common.{true, false, ◌≡◌, refl, inl, inr, Bool-cases}
use aws_k8s_tester.Config.{ClusterState}
use aws_k8s_tester.Runtime.Outside.{Outside}
use aws_k8s_tester.Runtime.Action.{
  M, World, ◌>>=◌, deferring, gets, pure, ignore, sync, modify_state,
}
use aws_k8s_tester.Runtime.Good.{Good, good_rules, Good-sync}
use aws_k8s_tester.Runtime.Keeps.{
  Predicate, Holds, Keeps, keeps_rules, Keeps-sync, Keeps-ignore, Keeps-bind, Keeps-modify_state,
  modify_state_then,
}
use aws_k8s_tester.Eks.Flag.{
  Flag, role, policy, vpc, cluster, key_pair, worker_node, raised, with_flag, raise_flag,
  lower_flag, releasing,
}

-- The flag `f` is down.
abbrev pub IsDown : Flag → Predicate
IsDown f o s = raised f s ≡ false

pub raise_flag-Good : (f : Flag) → Good (raise_flag f)
unfolding raise_flag
raise_flag-Good f = search (good_rules, Good-sync)

pub lower_flag-Good : (f : Flag) → Good (lower_flag f)
unfolding lower_flag
lower_flag-Good f = search (good_rules, Good-sync)

pub releasing-Good :
    (f : Flag) (cleanup body : M Unit) → Good cleanup → Good body → Good (releasing f cleanup body)
unfolding releasing
releasing-Good f cleanup body c b = search good_rules

-- No flag is set but those that are set in `b`.
abbrev pub Below : ClusterState → Predicate
Below b o s =
    (b.status_role_created ≡ false → s.status_role_created ≡ false)
    × (b.status_policy_attached ≡ false → s.status_policy_attached ≡ false)
    × (b.status_vpc_created ≡ false → s.status_vpc_created ≡ false)
    × (b.status_cluster_created ≡ false → s.status_cluster_created ≡ false)
    × (b.status_key_pair_created ≡ false → s.status_key_pair_created ≡ false)
    × (b.status_worker_node_created ≡ false → s.status_worker_node_created ≡ false)

pub Below_refl : (o : Outside) (s : ClusterState) → Below s o s
Below_refl o s = (λ h. h, λ h. h, λ h. h, λ h. h, λ h. h, λ h. h)

pub Below-IsDown :
    (f : Flag) (b : ClusterState) (o : Outside) (s : ClusterState)
    → Below b o s
    → raised f b ≡ false
    → IsDown f o s
Below-IsDown role b o s h = h.0
Below-IsDown policy b o s h = h.1
Below-IsDown vpc b o s h = h.2
Below-IsDown cluster b o s h = h.3
Below-IsDown key_pair b o s h = h.4
Below-IsDown worker_node b o s h = h.5

with_flag-Below :
    (g : Flag) (b : ClusterState) (o : Outside) (s : ClusterState)
    → Below b o s
    → Below b o (with_flag g false s)
with_flag-Below role b o s h = (λ _. refl, h.1, h.2, h.3, h.4, h.5)
with_flag-Below policy b o s h = (h.0, λ _. refl, h.2, h.3, h.4, h.5)
with_flag-Below vpc b o s h = (h.0, h.1, λ _. refl, h.3, h.4, h.5)
with_flag-Below cluster b o s h = (h.0, h.1, h.2, λ _. refl, h.4, h.5)
with_flag-Below key_pair b o s h = (h.0, h.1, h.2, h.3, λ _. refl, h.5)
with_flag-Below worker_node b o s h = (h.0, h.1, h.2, h.3, h.4, λ _. refl)

pub lower_flag-Below : (g : Flag) (b : ClusterState) → Keeps (Below b) (lower_flag g)
unfolding lower_flag
lower_flag-Below g b =
    Keeps-bind _ _ (Keeps-modify_state _ (with_flag-Below g b)) (λ _. Keeps-ignore sync Keeps-sync)

-- After `lower_flag f` the flag is down.
with_flag_self : (f : Flag) (s : ClusterState) → raised f (with_flag f false s) ≡ false
with_flag_self role s = refl
with_flag_self policy s = refl
with_flag_self vpc s = refl
with_flag_self cluster s = refl
with_flag_self key_pair s = refl
with_flag_self worker_node s = refl

pub lower_flag_lowers : (f : Flag) (w : World) → Holds (IsDown f) (lower_flag f w).1
unfolding lower_flag
lower_flag_lowers f w =
    modify_state_then {P = IsDown f} (with_flag f false) (ignore sync) w
      (with_flag_self f w.cfg.cluster_state) (Keeps-ignore sync Keeps-sync)

-- A delete operation whose cleanup lowers its flag leaves the flag down, on every way out.
pub releasing_lowers :
    (f : Flag) (cleanup body : M Unit)
    → ((w : World) → Holds (IsDown f) (cleanup w).1)
    → (w : World) → Holds (IsDown f) (releasing f cleanup body w).1
unfolding releasing ◌>>=◌ deferring gets pure
releasing_lowers f cleanup body lowers w = elim (Bool-cases (raised f w.cfg.cluster_state)) [
  | inl set ↦ rw set (lowers _)
  | inr unset ↦ rw (unset, releasing) unset
]

pub releasing-Keeps :
    {P : Predicate} (g : Flag) (cleanup body : M Unit)
    → Keeps P cleanup
    → Keeps P body
    → Keeps P (releasing g cleanup body)
unfolding releasing
releasing-Keeps g cleanup body c b = search keeps_rules

abbrev pub IsRaised : Flag → Predicate
IsRaised f o s = raised f s ≡ true

raised-with_flag : (f : Flag) (s : ClusterState) → raised f (with_flag f true s) ≡ true
raised-with_flag role s = refl
raised-with_flag policy s = refl
raised-with_flag vpc s = refl
raised-with_flag cluster s = refl
raised-with_flag key_pair s = refl
raised-with_flag worker_node s = refl

-- A flag that has been raised is up after what keeps it up.
pub raised_then :
    (f : Flag) (rest : Unit → M (Unit {0})) (w : World)
    → ((u : Unit) → Keeps (IsRaised f) (rest u))
    → raised f ((raise_flag f >>= rest) w).1.cfg.cluster_state ≡ true
unfolding raise_flag ◌>>=◌ modify_state
raised_then f rest w k =
    (Keeps-bind (ignore sync) rest (Keeps-ignore sync Keeps-sync) k).at _
      (raised-with_flag f w.cfg.cluster_state)
