-- ===== src/EksConfig/Guards.antt =====
-- What the requirements of `ValidateAndSetDefaults` mean for the fields that they test.
use aws_k8s_tester.Common.{
  String, Bool, true, false, not, ◌||◌, ◌≡◌, ◌≢◌, refl, sym, ap, ◌∙◌, ◌⊎◌, inl, inr, List, [], ◌∷◌,
  ◌++◌, All, arith, str_eq, Bool-cases, not-true, or-cases, true≢false, eq_of_test, ne_of_test,
  str_eq_refl, subst,
}
use aws_k8s_tester.Common.Int.{ℤ, pos, ltb_ℤ, eqb_ℤ, ◌≤ℤ◌, eqb_ℤ→≡}
use aws_k8s_tester.Config.{Config, AlbIngressController}
use aws_k8s_tester.Runtime.Outside.{Outside}
use aws_k8s_tester.EksConfig.Checks.{
  is_key, check_kubernetes_version, check_eks_ep, check_workder_node_asg, max_test_server_routes,
  max_test_clients, max_test_client_requests, max_test_response_size,
}
use aws_k8s_tester.EksConfig.Names.{add_log_output}
use aws_k8s_tester.EksConfig.Validate.{
  settings, endpoint_settings, volume_size, anonymous_settings, test_mode_setting, alb_settings,
  alb_sizes,
}
use aws_k8s_tester.EksConfig.Valid.{
  IsSupported, IsSized, IsDeployable, IsWithinLimits, IsUpTo, IsIdle,
}

abbrev pub Holding : List (Bool × String) → Type 0
Holding rs = All (λ r. r.0 ≡ true) rs

pub ne_zero : (n : ℤ) → not (eqb_ℤ n (pos 0)) ≡ true → n ≢ pos 0
ne_zero n h e = true≢false (sym (subst (λ k. eqb_ℤ k (pos 0) ≡ true) (sym e) refl) ∙ not-true _ h)

not_above : (n max : ℤ) → not (ltb_ℤ max n) ≡ true → n ≤ℤ max
not_above n max h = ground (arith, not-true (ltb_ℤ max n) h)

pub volume_size-pos : (n : ℤ) → volume_size n ≢ pos 0
unfolding volume_size
volume_size-pos n = elim (Bool-cases (eqb_ℤ n (pos 0))) [
  | inl zero ↦ rw (zero, volume_size) (λ e. true≢false (sym (ap (λ k. eqb_ℤ k (pos 0)) e)))
  | inr other ↦
      rw (other, volume_size) (λ e. true≢false (sym (ap (λ k. eqb_ℤ k (pos 0)) e) ∙ other))
]

version_known : (s : String) → check_kubernetes_version s ≡ true → (s ≡ "1.10") ⊎ (s ≡ "1.11")
unfolding check_kubernetes_version
version_known s h = elim (or-cases (str_eq s "1.10") _ h) [
  | inl e ↦ inl (eq_of_test s "1.10" e)
  | inr t ↦ elim (or-cases (str_eq s "1.11") _ t) [
    | inl e ↦ inr (eq_of_test s "1.11" e)
    | inr f ↦ absurd (true≢false (sym f))
  ]
]

asg_ordered : (min max : ℤ) → check_workder_node_asg min max ≡ true → min ≤ℤ max
unfolding check_workder_node_asg
asg_ordered min max h = ground arith

pub endpoint_empty :
    (o : Outside) (c : Config) → Holding (endpoint_settings o c) → c.aws_custom_endpoint ≡ ""
unfolding endpoint_settings check_eks_ep
endpoint_empty o c h = elim (Bool-cases (str_eq c.aws_custom_endpoint "")) [
  | inl e ↦ eq_of_test _ _ e
  | inr n ↦ absurd (true≢false (sym h.0 ∙ rw n refl))
]

pub is_key-concat : (s : String) (xs : List String) → is_key s (xs ++ s ∷ []) ≡ true
is_key-concat s [] = rw (str_eq_refl s) refl
is_key-concat s (x ∷ xs) = elim (Bool-cases (str_eq s x)) [
  | inl e ↦ rw e refl
  | inr n ↦ rw n (is_key-concat s xs)
]

pub add_log_output_adds :
    (path : String) (outputs : List String) → is_key path (add_log_output path outputs) ≡ true
unfolding add_log_output
add_log_output_adds path outputs = elim (Bool-cases (is_key path outputs)) [
  | inl e ↦ rw e e
  | inr n ↦ rw n (is_key-concat path outputs)
]

up_to : (n max : ℤ) → not (eqb_ℤ n (pos 0)) ≡ true → not (ltb_ℤ max n) ≡ true → IsUpTo max n
up_to n max h k = (ne_zero n h, not_above n max k)

pub settings-IsSupported : (o : Outside) (c : Config) → Holding (settings o c) → IsSupported c
unfolding settings
settings-IsSupported o c h = (
  version_known c.kubernetes_version h.1.1.0,
  h.1.1.1.1.0,
  h.1.1.1.1.1.1.1.1.1.0,
  ne_of_test c.tag "" h.1.1.1.1.1.0,
  ne_of_test c.cluster_name "" h.1.1.1.1.1.1.0,
  ne_of_test c.worker_node_ami "" h.1.1.1.1.1.1.1.0,
)

pods_fit : (b fits : Bool) → (not b || fits) ≡ true → b ≡ true → fits ≡ true
pods_fit true fits h e = h
pods_fit false fits h e = absurd (true≢false (sym e))

pub settings-IsSized : (o : Outside) (c : Config) → Holding (settings o c) → IsSized c
unfolding settings
settings-IsSized o c h = (
  ne_zero c.worker_node_asg_min h.1.1.1.1.1.1.1.1.1.1.1.0,
  ne_zero c.worker_node_asg_max h.1.1.1.1.1.1.1.1.1.1.1.1.0,
  asg_ordered c.worker_node_asg_min c.worker_node_asg_max h.1.1.1.1.1.1.1.1.1.1.1.1.1.0,
  pods_fit _ _ h.1.1.1.1.1.1.1.1.1.1.0,
)

pub anonymous_settings-IsIdle :
    (a : AlbIngressController) → Holding (anonymous_settings a) → IsIdle a
unfolding anonymous_settings
anonymous_settings-IsIdle a h = (
  not-true a.enable h.0,
  ne_of_test _ _ h.1.0,
  not_above a.test_server_routes (pos 0) h.1.1.0,
  not_above a.test_clients (pos 0) h.1.1.1.0,
  not_above a.test_client_requests (pos 0) h.1.1.1.1.0,
  not_above a.test_response_size (pos 0) h.1.1.1.1.1.0,
)

pub alb_sizes-IsWithinLimits :
    (o : Outside) (a : AlbIngressController) → Holding (alb_sizes o a) → IsWithinLimits a
unfolding alb_sizes
alb_sizes-IsWithinLimits o a h = (
  up_to a.test_server_routes max_test_server_routes h.0 h.1.0,
  up_to a.test_clients max_test_clients h.1.1.0 h.1.1.1.0,
  up_to a.test_client_requests max_test_client_requests h.1.1.1.1.0 h.1.1.1.1.1.0,
  up_to a.test_response_size max_test_response_size h.1.1.1.1.1.1.0 h.1.1.1.1.1.1.1.0,
)

mode_fits :
    (o : Outside) (c : Config)
    → (test_mode_setting o c).0 ≡ true
    → (c.alb_ingress_controller.test_mode ≡ "ingress-test-server") × (c.aws_k8s_tester_image ≢ "")
      ⊎ (c.alb_ingress_controller.test_mode ≡ "nginx")
        × (c.alb_ingress_controller.test_server_routes ≡ pos 1)
unfolding test_mode_setting
mode_fits o c h =
    elim (Bool-cases (str_eq c.alb_ingress_controller.test_mode "ingress-test-server")) [
      | inl server ↦ inl (eq_of_test _ _ server, ne_of_test _ _ (rw server at h))
      | inr other ↦ elim (Bool-cases (str_eq c.alb_ingress_controller.test_mode "nginx")) [
        | inl nginx ↦ inr (eq_of_test _ _ nginx, eqb_ℤ→≡ _ _ (rw (other, nginx) at h))
        | inr unknown ↦ absurd (true≢false (sym (rw (other, unknown) at h)))
      ]
    ]

pub alb_settings-IsDeployable :
    (o : Outside) (c : Config) → Holding (alb_settings o c) → IsDeployable c
unfolding alb_settings
alb_settings-IsDeployable o c h = (
  mode_fits o c h.0,
  elim (or-cases _ _ h.1.0) [
    | inl instances ↦ inl (eq_of_test _ _ instances)
    | inr addresses ↦ inr (eq_of_test _ _ addresses)
  ],
  ne_of_test _ _ h.1.1.0,
)
