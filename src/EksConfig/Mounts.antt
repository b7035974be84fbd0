-- ===== src/EksConfig/Mounts.antt =====
-- Which file of a credential `ValidateAndSetDefaults` mounts.
use aws_k8s_tester.Common.{String, ◌≡◌, refl, true, ◌∷◌, str_eq, inl, inr, Bool-cases}
use aws_k8s_tester.Runtime.Outside.{done, stat, abs_path}
use aws_k8s_tester.Runtime.Action.{
  ok, World, pure, gets, attempt, ◌>>=◌, ask, call, calling, modify,
}
use aws_k8s_tester.EksConfig.Credential.{
  is_set, exist, set_mount, mount_shared_at, mount_shared, mount_credential,
}

-- When `AWS_SHARED_CREDENTIALS_FILE` is set and its absolute path is that of a file, this file is mounted,
-- whatever the configuration names: its own file is not looked at.
pub mount_credential_shared :
    (w : World) (p : String)
    → is_set w.outside "AWS_SHARED_CREDENTIALS_FILE" ≡ true
    → let path = w.outside.environment "AWS_SHARED_CREDENTIALS_FILE" in
      w.outside.text (abs_path path ∷ w.history) ≡ done p
      → w.outside.exists (stat p ∷ abs_path path ∷ w.history) ≡ true
      → ((mount_credential w).0 ≡ ok tt)
        × ((mount_credential w).1.cfg.aws_credential_to_mount_path ≡ p)
        × ((mount_credential w).1.history ≡ stat p ∷ abs_path path ∷ w.history)
unfolding mount_credential mount_shared mount_shared_at exist set_mount ◌>>=◌ gets pure attempt call
    calling ask modify
mount_credential_shared w p shared absolute there =
    elim (Bool-cases (str_eq w.cfg.aws_credential_to_mount_path "")) [
      | inl empty ↦ rw (shared, empty, absolute, there) (refl, refl, refl)
      | inr named ↦ rw (shared, named, absolute, there) (refl, refl, refl)
    ]
