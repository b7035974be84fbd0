-- ===== src/EksConfig/Sound.antt =====
-- `ValidateAndSetDefaults`, as a whole.
use aws_k8s_tester.Common.{
  String, false, ◌≡◌, refl, sym, ap, subst, test_of_eq, ◌∙◌, true≢false, str_eq, if◌then◌else◌,
}
use aws_k8s_tester.Config.{Config}
use aws_k8s_tester.Runtime.Outside.{Outside}
use aws_k8s_tester.Runtime.Action.{Files, World, pure}
use aws_k8s_tester.Runtime.Stage.{
  Leads, Leads-pure, Leads-weaken, Leads-if, Leads-gets, Leads-gets_cfg, Leads-bind,
  Leads-modify_alb, Written, Writes, Writes-bind, Writes-sync,
}
use aws_k8s_tester.EksConfig.Validate.{
  require_all, anonymous_settings, alb_settings, alb_sizes, set_output_paths, check_enabled,
  check_alb, validate_and_set_defaults,
}
use aws_k8s_tester.EksConfig.Valid.{
  IsLogged, IsDeployable, IsWithinLimits, IsIdle, IsServed, IsValid,
}
use aws_k8s_tester.EksConfig.Guards.{
  anonymous_settings-IsIdle, alb_sizes-IsWithinLimits, alb_settings-IsDeployable,
}
use aws_k8s_tester.EksConfig.Steps.{
  IsChecked, Leads-require_all, check_settings-Leads, complete_paths-Leads, mount_credential-Leads,
}

abbrev IsLaidOut : Config → Type 0
IsLaidOut c = IsChecked c × IsLogged c

abbrev IsBacked : Config → Type 0
IsBacked d = d.aws_credential_to_mount_path ≡ "" → IsIdle d.alb_ingress_controller

abbrev with_output_paths : String → Config → Config
with_output_paths path c = record c {
  alb_ingress_controller = set_output_paths path c.alb_ingress_controller;
}

served :
    (d : Config)
    → IsBacked d
    → IsDeployable d
    → IsWithinLimits d.alb_ingress_controller
    → IsServed (with_output_paths d.config_path d)
unfolding set_output_paths
served d backed deployable limits = (backed, λ enabled. (deployable, limits))

unserved : (d : Config) → IsBacked d → d.alb_ingress_controller.enable ≡ false → IsServed d
unserved d backed disabled = (backed, λ enabled. absurd (true≢false (sym enabled ∙ disabled)))

laid_out : (path : String) (c : Config) → IsLaidOut c → IsLaidOut (with_output_paths path c)
unfolding set_output_paths
laid_out path c h = h

module _ {s : Files} (o : Outside) where
  check_enabled-Leads :
      (d : Config)
      → Leads s
          (λ c. IsLaidOut c × (c ≡ d) × IsBacked d)
          (check_enabled o d)
          (λ _ c. IsLaidOut c × IsServed c)
  unfolding check_enabled
  check_enabled-Leads d = Leads-bind _ _ (Leads-require_all (alb_settings o d)) λ _.
      Leads-bind _ _
        (Leads-modify_alb
          {D = λ c.
            IsLaidOut c × (c ≡ with_output_paths d.config_path d) × IsBacked d × IsDeployable d}
          (set_output_paths d.config_path)
          (λ c h. (
            laid_out d.config_path c h.0.0,
            ap (with_output_paths d.config_path) h.0.1,
            h.0.2,
            alb_settings-IsDeployable o d h.1,
          )))
        λ _. Leads-weaken _ (Leads-require_all (alb_sizes o d.alb_ingress_controller)) λ _ c h. (
          h.0.0,
          subst IsServed (sym h.0.1) (served d h.0.2 h.0.3 (alb_sizes-IsWithinLimits o _ h.1)),
        )

  credential_backs :
      (d : Config)
      → Leads s
          (λ c. IsLaidOut c × (c ≡ d))
          (if str_eq d.aws_credential_to_mount_path ""
            then require_all (anonymous_settings d.alb_ingress_controller)
            else pure tt)
          (λ _ c. IsLaidOut c × (c ≡ d) × IsBacked d)
  credential_backs d =
      Leads-if _ _ _
        (λ none_given.
          Leads-weaken _ (Leads-require_all (anonymous_settings d.alb_ingress_controller))
            λ _ c h. (h.0.0, h.0.1, λ _. anonymous_settings-IsIdle _ h.1))
        (λ given.
          Leads-pure tt
            λ c h. (h.0, h.1, λ e. absurd (true≢false (sym (test_of_eq _ _ e) ∙ given))))

  enabled_serves :
      (d : Config)
      → Leads s
          (λ c. IsLaidOut c × (c ≡ d) × IsBacked d)
          (if d.alb_ingress_controller.enable then check_enabled o d else pure tt)
          (λ _ c. IsLaidOut c × IsServed c)
  enabled_serves d =
      Leads-if _ _ _ (λ enabled. check_enabled-Leads d)
        λ disabled. Leads-pure tt λ c h. (h.0, subst IsServed (sym h.1) (unserved d h.2 disabled))

  check_alb-Leads : Leads s IsLaidOut (check_alb o) (λ _ c. IsLaidOut c × IsServed c)
  unfolding check_alb
  check_alb-Leads =
      Leads-bind _ _ (Leads-gets_cfg (λ c. c))
        λ d. Leads-bind _ _ (credential_backs d) λ _. enabled_serves d

laid_out-IsValid : (c : Config) → IsLaidOut c → IsServed c → IsValid c
laid_out-IsValid c ((supported, sized, named), logged) served =
    (supported, sized, named, logged, served)

validate-Writes : (s : Files) → Writes s (λ _. Unit) validate_and_set_defaults IsValid
unfolding validate_and_set_defaults
validate-Writes s = Writes-bind _ _ (Leads-gets _) λ o.
    Writes-bind _ _ (check_settings-Leads o) λ _. Writes-bind _ _ (complete_paths-Leads o) λ _.
      Writes-bind _ _ (mount_credential-Leads (λ c p h. h)) λ _.
        Writes-bind _ _ (Leads-weaken _ (check_alb-Leads o) λ _ c h. laid_out-IsValid c h.0 h.1)
          λ _. Writes-sync (λ c p h. h) (λ c t h. h)

-- `ValidateAndSetDefaults` returns. When it succeeds, the configuration is valid, the file at its path
-- holds it, and no other file has changed; when it fails, all files are as they were, but that the
-- file at its path may be broken.
pub validate_and_set_defaults_lem :
    (w : World)
    → Written w.saved IsValid (validate_and_set_defaults w).0 (validate_and_set_defaults w).1
validate_and_set_defaults_lem w =
    (validate-Writes w.saved).at w (record { unsaved = refl; holds = tt })
