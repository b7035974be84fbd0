-- ===== src/Eks/Asg/Group.antt =====
-- `checkASG`: which auto scaling groups pass, and which instances are described.
use aws_k8s_tester.Common.{
  ℕ, zero, suc, ◌≤◌, String, Bool, true, false, not, ◌≡◌, refl, sym, inl, inr, List, [], ◌∷◌,
  str_eq, ltb, ◌==◌, length, take, All, Bool-cases, ltb_false→le, arith, if◌then◌else◌,
}
use aws_k8s_tester.Common.Int.{ℤ, pos, eqb_ℤ, eqb_ℤ→≡, eqb_ℤ_refl}
use aws_k8s_tester.Config.{Config}
use aws_k8s_tester.Runtime.Outside.{AsgInstance, AutoScalingGroup, Outside}
use aws_k8s_tester.Runtime.Action.{ok, World, M, pure, raise}
use aws_k8s_tester.Eks.Asg.{healthy, check_group, batch}

abbrev pub IsHealthy : AsgInstance → Type 0
IsHealthy i = str_eq i.health_status "Healthy" ≡ true

healthy≤length : (is : List AsgInstance) → healthy is ≤ length is
unfolding healthy
healthy≤length [] = omega arith
healthy≤length (i ∷ is) =
    let ih = healthy≤length is in
    elim (Bool-cases (str_eq i.health_status "Healthy")) [
      | inl h ↦ rw h (omega arith)
      | inr h ↦ rw h (omega arith)
    ]

healthy-All : (is : List AsgInstance) → healthy is ≡ length is → All IsHealthy is
unfolding healthy
healthy-All [] h = tt
healthy-All (i ∷ is) h =
    let bound = healthy≤length is in
    let ih = healthy-All is in
    elim (Bool-cases (str_eq i.health_status "Healthy")) [
      | inl healthy_i ↦ (healthy_i, ih (let h' = rw healthy_i at h in omega arith))
      | inr sick ↦ absurd (let h' = rw sick at h in omega arith)
    ]

All-healthy : (is : List AsgInstance) → All IsHealthy is → healthy is ≡ length is
unfolding healthy
All-healthy [] h = refl
All-healthy (i ∷ is) (h, hs) = rw (h, All-healthy is hs) refl

guard_passed :
    (b : Bool) (e : String) (m : M (Unit {0})) (w : World)
    → ((if not b then raise e else m) w).0 ≡ ok tt
    → (b ≡ true) × ((m w).0 ≡ ok tt)
unfolding raise
guard_passed true e m w h = (refl, h)
guard_passed false e m w h = cc

guard_passes :
    (b : Bool) (e : String) (m : M (Unit {0})) (w : World)
    → b ≡ true
    → (m w).0 ≡ ok tt
    → ((if not b then raise e else m) w).0 ≡ ok tt
guard_passes b e m w t h = rw t h

≡→eqb_ℤ : (a b : ℤ) → a ≡ b → eqb_ℤ a b ≡ true
≡→eqb_ℤ a b e = rw e (eqb_ℤ_refl b)

All-healthy_check : (is : List AsgInstance) → All IsHealthy is → (healthy is == length is) ≡ true
All-healthy_check is h = let e = All-healthy is h in ground arith

healthy-All_check : (is : List AsgInstance) → (healthy is == length is) ≡ true → All IsHealthy is
healthy-All_check is h = healthy-All is (ground arith)

-- What the tester expects of the group: its bounds, as many instances as its upper bound, and
-- every instance healthy.
pub record IsExpected (c : Config) (g : AutoScalingGroup) : Type 0 where
  pub min_size : g.min_size ≡ c.worker_node_asg_min
  pub max_size : g.max_size ≡ c.worker_node_asg_max
  pub size : pos (length g.instances) ≡ c.worker_node_asg_max
  pub health : All IsHealthy g.instances

-- The checks of `checkASG` on the group succeed exactly when the group is as expected.
pub check_group_ok :
    (o : Outside) (c : Config) (g : AutoScalingGroup) (w : World)
    → ((check_group o c g w).0 ≡ ok tt → IsExpected c g)
      × (IsExpected c g → (check_group o c g w).0 ≡ ok tt)
unfolding check_group pure
check_group_ok o c g w = (
  (λ h.
      let (a, h1) = guard_passed _ _ _ w h in
      let (b, h2) = guard_passed _ _ _ w h1 in
      let (d, h3) = guard_passed _ _ _ w h2 in
      let (e, h4) = guard_passed _ _ _ w h3 in
      record {
        min_size = eqb_ℤ→≡ _ _ a;
        max_size = eqb_ℤ→≡ _ _ b;
        size = eqb_ℤ→≡ _ _ d;
        health = healthy-All_check g.instances e;
      }),
  (λ x. guard_passes _ _ _ w (≡→eqb_ℤ _ _ x.min_size) (
      guard_passes _ _ _ w (≡→eqb_ℤ _ _ x.max_size) (
        guard_passes _ _ _ w (≡→eqb_ℤ _ _ x.size)
          (guard_passes _ _ _ w (All-healthy_check g.instances x.health) refl)))),
)

take_all : {A : Type 0} (n : ℕ) (xs : List A) → length xs ≤ n → take n xs ≡ xs
take_all zero [] h = refl
take_all zero (x ∷ xs) h = absurd (omega arith)
take_all (suc n) [] h = refl
take_all (suc n) (x ∷ xs) h = rw (take_all n xs (omega arith)) refl

pub take-take : {A : Type 0} (n : ℕ) (xs : List A) → take n (take n xs) ≡ take n xs
take-take zero xs = refl
take-take (suc n) [] = refl
take-take (suc n) (x ∷ xs) = rw (take-take n xs) refl

pub batch≡take : (ids : List String) → batch ids ≡ take 10 ids
unfolding batch
batch≡take ids = elim (Bool-cases (ltb 10 (length ids))) [
  | inl many ↦ rw many refl
  | inr few ↦ rw few (sym (take_all 10 ids (ltb_false→le 10 (length ids) few)))
]
