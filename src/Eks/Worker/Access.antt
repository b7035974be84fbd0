-- ===== src/Eks/Worker/Access.antt =====
-- The search of `createWorkerNode` for SSH access.
use aws_k8s_tester.Common.{
  ℕ, String, Bool, true, false, ◌&&◌, eq_iff, ◌≡◌, refl, inl, inr, ◌⊎◌, List, [], ◌∷◌, Option, none,
  some, Bool-cases, str_eq,
}
use aws_k8s_tester.Common.Int.{ℤ, pos, eqb_ℤ→≡}
use aws_k8s_tester.Runtime.Outside.{IpPermission}
use aws_k8s_tester.Eks.Worker.{allows_ssh, any_allows_ssh, found_ssh_access, is_port, only_range}

-- The permission is for port 22 alone, and for the one range that holds every address.
pub record IsSsh (p : IpPermission) : Type 0 where
  pub from_port : p.from_port ≡ some (pos 22)
  pub to_port : p.to_port ≡ some (pos 22)
  pub ip_ranges : p.ip_ranges ≡ "0.0.0.0/0" ∷ []

abbrev pub AnySsh : List (List IpPermission) → Type 0
AnySsh [] = ⊥
AnySsh ([] ∷ groups) = AnySsh groups
AnySsh ((p ∷ g) ∷ groups) = IsSsh p ⊎ AnySsh (g ∷ groups)

and_true : (a b : Bool) → a && b ≡ true → (a ≡ true) × (b ≡ true)
and_true true b h = (refl, h)
and_true false b h = cc

is_port-some : (q : Option ℤ) (n : ℕ) → is_port q n ≡ true → q ≡ some (pos n)
unfolding is_port
is_port-some none n h = cc
is_port-some (some p) n h = rw (eqb_ℤ→≡ p (pos n) h) refl

every_address :
    (rs : List String) → str_eq (only_range rs) "0.0.0.0/0" ≡ true → rs ≡ "0.0.0.0/0" ∷ []
unfolding only_range
every_address [] h = cc
every_address (r ∷ []) h = rw ((eq_iff r "0.0.0.0/0").0 h) refl
every_address (r ∷ s ∷ rs) h = cc

allows_ssh-IsSsh : (p : IpPermission) → allows_ssh p ≡ true → IsSsh p
unfolding allows_ssh
allows_ssh-IsSsh p h =
    let (from_port, rest) = and_true _ _ h in
    let (to_port, ranges) = and_true _ _ rest in
    record {
      from_port = is_port-some _ _ from_port;
      to_port = is_port-some _ _ to_port;
      ip_ranges = every_address _ ranges;
    }

IsSsh-allows_ssh : (p : IpPermission) → IsSsh p → allows_ssh p ≡ true
unfolding allows_ssh is_port only_range
IsSsh-allows_ssh p s = rw (s.from_port, s.to_port, s.ip_ranges) refl

any_allows_ssh-AnySsh :
    (g : List IpPermission) (groups : List (List IpPermission))
    → any_allows_ssh g ≡ true
    → AnySsh (g ∷ groups)
unfolding any_allows_ssh
any_allows_ssh-AnySsh [] groups h = cc
any_allows_ssh-AnySsh (p ∷ g) groups h = elim (Bool-cases (allows_ssh p)) [
  | inl allowed ↦ inl (allows_ssh-IsSsh p allowed)
  | inr refused ↦ inr (any_allows_ssh-AnySsh g groups (rw refused at h))
]

AnySsh-later :
    (g : List IpPermission) (groups : List (List IpPermission))
    → AnySsh groups
    → AnySsh (g ∷ groups)
AnySsh-later [] groups h = h
AnySsh-later (p ∷ g) groups h = inr (AnySsh-later g groups h)

found_ssh_access-AnySsh :
    (groups : List (List IpPermission)) → found_ssh_access groups ≡ true → AnySsh groups
unfolding found_ssh_access
found_ssh_access-AnySsh [] h = cc
found_ssh_access-AnySsh (g ∷ groups) h = elim (Bool-cases (any_allows_ssh g)) [
  | inl allowed ↦ any_allows_ssh-AnySsh g groups allowed
  | inr refused ↦ AnySsh-later g groups (found_ssh_access-AnySsh groups (rw refused at h))
]

AnySsh-either :
    (g : List IpPermission) (groups : List (List IpPermission))
    → AnySsh (g ∷ groups)
    → (any_allows_ssh g ≡ true) ⊎ AnySsh groups
unfolding any_allows_ssh
AnySsh-either [] groups h = inr h
AnySsh-either (p ∷ g) groups (inl s) = inl (rw (IsSsh-allows_ssh p s) refl)
AnySsh-either (p ∷ g) groups (inr h) = elim (Bool-cases (allows_ssh p)) [
  | inl allowed ↦ inl (rw allowed refl)
  | inr refused ↦ rw refused (AnySsh-either g groups h)
]

AnySsh-found_ssh_access :
    (groups : List (List IpPermission)) → AnySsh groups → found_ssh_access groups ≡ true
unfolding found_ssh_access
AnySsh-found_ssh_access [] h = absurd h
AnySsh-found_ssh_access (g ∷ groups) h = elim (AnySsh-either g groups h) [
  | inl allowed ↦ rw allowed refl
  | inr later ↦ rw (AnySsh-found_ssh_access groups later) (elim (Bool-cases (any_allows_ssh g)) [
    | inl allowed ↦ rw allowed refl
    | inr refused ↦ rw refused refl
  ])
]

-- The search through the security groups finds SSH access exactly when one of their permissions is
-- for port 22 alone and for the range of every address alone.
pub found_ssh_access_any :
    (groups : List (List IpPermission))
    → (found_ssh_access groups ≡ true → AnySsh groups)
      × (AnySsh groups → found_ssh_access groups ≡ true)
found_ssh_access_any groups = (found_ssh_access-AnySsh groups, AnySsh-found_ssh_access groups)
