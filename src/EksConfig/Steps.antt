-- ===== src/EksConfig/Steps.antt =====
-- The first steps of `ValidateAndSetDefaults`: what each establishes of the configuration.
use aws_k8s_tester.Common.{
  String, Bool, true, false, ◌≡◌, ◌≢◌, refl, sym, subst, ◌∙◌, List, [], ◌∷◌,
}
use aws_k8s_tester.Common.Int.{pos}
use aws_k8s_tester.Config.{Config}
use aws_k8s_tester.Runtime.Outside.{Reply, done, failed, Outside}
use aws_k8s_tester.Runtime.Action.{Files, pure, raise}
use aws_k8s_tester.Runtime.Stage.{
  Leads, Leads-pure, Leads-raise, Leads-weaken, Leads-if, Leads-gets, Leads-gets_cfg, Leads-ask,
  Leads-call, Leads-attempt_call, Leads-bind, Leads-modify, Leads-ignore_call,
}
use aws_k8s_tester.EksConfig.Names.{set_names, set_paths}
use aws_k8s_tester.EksConfig.Credential.{
  exist, is_set, missing_credential, set_mount, mount_expanded, mount_configured, mount_shared_at,
  mount_shared, mount_credential,
}
use aws_k8s_tester.EksConfig.Validate.{
  require_all, settings, endpoint_settings, set_volume, new_config_path, check_settings,
  complete_paths,
}
use aws_k8s_tester.EksConfig.Valid.{IsSupported, IsSized, IsNamed, IsLogged}
use aws_k8s_tester.EksConfig.Guards.{
  Holding, volume_size-pos, endpoint_empty, add_log_output_adds, settings-IsSupported,
  settings-IsSized,
}

-- Up to the volume of the nodes; `endpoint` is the one that is tested next.
abbrev pub IsSettled : String → Config → Type 0
IsSettled endpoint c =
    IsSupported c
    × IsSized c
    × (c.worker_node_volume_size_gb ≢ pos 0)
    × (c.aws_custom_endpoint ≡ endpoint)

-- Up to the names.
abbrev pub IsChecked : Config → Type 0
IsChecked c = IsSupported c × IsSized c × IsNamed c

settled :
    (o : Outside) (c d : Config)
    → c ≡ d
    → Holding (settings o d)
    → IsSettled d.aws_custom_endpoint (set_volume c)
settled o c d e h =
    subst (λ x. IsSettled d.aws_custom_endpoint (set_volume x)) (sym e)
      (
        settings-IsSupported o d h,
        settings-IsSized o d h,
        volume_size-pos d.worker_node_volume_size_gb,
        refl,
      )

named :
    (o : Outside) (c d : Config)
    → IsSettled d.aws_custom_endpoint c
    → Holding (endpoint_settings o d)
    → IsChecked (set_names o c)
named o c d (supported, sized, volume, endpoint) h =
    (supported, sized, (volume, endpoint ∙ endpoint_empty o d h, refl, refl, refl, refl))

module _ {s : Files} where
  require_first :
      {C : Config → Type 0} (b : Bool) (e : String) (rest : List (Bool × String))
      → Leads s C (require_all rest) (λ _ c. C c × Holding rest)
      → Leads s C (require_all ((b, e) ∷ rest)) (λ _ c. C c × Holding ((b, e) ∷ rest))
  unfolding require_all
  require_first true e rest l = Leads-weaken _ l (λ _ c h. (h.0, (refl, h.1)))
  require_first false e rest l = Leads-raise e

  pub Leads-require_all :
      {C : Config → Type 0} (rs : List (Bool × String))
      → Leads s C (require_all rs) (λ _ c. C c × Holding rs)
  unfolding require_all
  Leads-require_all [] = Leads-pure tt (λ c h. (h, tt))
  Leads-require_all ((b, e) ∷ rest) = require_first b e rest (Leads-require_all rest)

  pub check_settings-Leads : (o : Outside) → Leads s (λ _. Unit) (check_settings o) (λ _. IsChecked)
  unfolding check_settings
  check_settings-Leads o = Leads-bind _ _ (Leads-gets_cfg (λ c. c)) λ d.
      Leads-bind _ _ (Leads-require_all (settings o d)) λ _.
        Leads-bind _ _
          (Leads-modify {D = IsSettled d.aws_custom_endpoint} set_volume
            (λ c h. settled o c d h.0.1 h.1))
          λ _.
            Leads-bind _ _ (Leads-require_all (endpoint_settings o d))
              λ _. Leads-modify (set_names o) (λ c h. named o c d h.0 h.1)

  -- What does not depend on the path of the configuration is kept by the choice of one.
  new_config_path-Leads : (o : Outside) → Leads s IsChecked (new_config_path o) (λ _. IsChecked)
  unfolding new_config_path
  new_config_path-Leads o = Leads-bind _ _ (Leads-call _ _) λ name.
      Leads-bind _ _ (Leads-attempt_call _ _) λ r.
        Leads-bind _ _ (Leads-modify {D = IsChecked} _ (λ c h. h))
          λ _. Leads-bind _ _ (Leads-gets _) λ path. Leads-ignore_call _ _

  pub complete_paths-Leads :
      (o : Outside) → Leads s IsChecked (complete_paths o) (λ _ c. IsChecked c × IsLogged c)
  unfolding complete_paths
  complete_paths-Leads o = Leads-bind _ _ (Leads-gets _) λ path.
      Leads-bind _ _ (Leads-if _ _ _ (λ _. new_config_path-Leads o) (λ _. Leads-pure tt (λ c h. h)))
        λ _. Leads-modify (set_paths o) (λ c h. (h, add_log_output_adds _ c.log_outputs))

module _ {s : Files} {C : Config → Type 0}
    (stable : (c : Config) (p : String)
      → C c
      → C (record c { aws_credential_to_mount_path = p })) where
  exist-Leads : (p : String) → Leads s C (exist p) (λ _. C)
  unfolding exist
  exist-Leads p = Leads-ask _ _

  missing-Leads : (o : Outside) (p e : String) → Leads s C (missing_credential o p e) (λ _. C)
  unfolding missing_credential
  missing-Leads o p e = Leads-if _ (raise _) (raise e) (λ _. Leads-raise _) (λ _. Leads-raise e)

  set_mount-Leads : (p : String) → Leads s C (set_mount p) (λ _. C)
  unfolding set_mount
  set_mount-Leads p = Leads-modify _ (λ c. stable c p)

  mount_expanded-Leads :
      (o : Outside) (path p : String) → Leads s C (mount_expanded o path p) (λ _. C)
  unfolding mount_expanded
  mount_expanded-Leads o path p =
      Leads-bind _ _ (exist-Leads p)
        λ there. Leads-if there _ _ (λ _. set_mount-Leads p) (λ _. missing-Leads o _ _)

  mount_configured-Leads :
      (o : Outside) (path : String) → Leads s C (mount_configured o path) (λ _. C)
  unfolding mount_configured
  mount_configured-Leads o path =
      Leads-bind _ _ (Leads-if _ _ _ (λ _. exist-Leads path) (λ _. Leads-pure true (λ c h. h)))
        λ there. Leads-if there _ _ (λ _. mount_expanded-Leads o path _) (λ _. missing-Leads o _ _)

  mount_shared_at-Leads :
      (o : Outside) (r : Reply String) → Leads s C (mount_shared_at o r) (λ _. C)
  unfolding mount_shared_at
  mount_shared_at-Leads o (failed e) = Leads-raise _
  mount_shared_at-Leads o (done p) =
      Leads-bind _ _ (exist-Leads p)
        λ there. Leads-if there _ _ (λ _. set_mount-Leads p) (λ _. Leads-raise _)

  mount_shared-Leads : (o : Outside) (path : String) → Leads s C (mount_shared o path) (λ _. C)
  unfolding mount_shared
  mount_shared-Leads o path = Leads-bind _ _ (Leads-attempt_call _ _) λ r. mount_shared_at-Leads o r

  pub mount_credential-Leads : Leads s C mount_credential (λ _. C)
  unfolding mount_credential
  mount_credential-Leads = Leads-bind _ _ (Leads-gets _) λ o. Leads-bind _ _ (Leads-gets _) λ path.
      Leads-bind _ _
        (Leads-if _ _ _ (λ _. mount_configured-Leads o path) (λ _. Leads-pure tt (λ c h. h)))
        λ _.
          Leads-if (is_set o "AWS_SHARED_CREDENTIALS_FILE")
            (mount_shared o (o.environment "AWS_SHARED_CREDENTIALS_FILE")) (pure tt)
            (λ _. mount_shared-Leads o _) (λ _. Leads-pure tt (λ c h. h))
