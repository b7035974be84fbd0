-- ===== src/EksConfig/Credential.antt =====
-- eksconfig/config.go, `ValidateAndSetDefaults`: the file of the AWS credential.
use aws_k8s_tester.Common.{
  String, ◌<>◌, Bool, true, not, ◌&&◌, ◌||◌, str_eq, starts_with, if◌then◌else◌,
}
use aws_k8s_tester.Runtime.Outside.{stat, abs_path}
use aws_k8s_tester.Runtime.Words.{
  Reply, done, failed, Outside, M, pure, raise, gets, attempt, ◌>>=◌, ◌>>◌, ask, call, modify,
}

-- `exist`
unfoldable pub exist : String → M Bool
exist path = ask (stat path) (λ o. o.exists)

abbrev pub is_set : Outside → String → Bool
is_set o name = not (str_eq (o.environment name) "")

-- The error, unless the keys themselves are in the environment.
unfoldable pub missing_credential : Outside → String → String → M (Unit {0})
missing_credential o path e =
    if is_set o "AWS_ACCESS_KEY_ID" && is_set o "AWS_SECRET_ACCESS_KEY"
    then raise (
        "'AWS_ACCESS_KEY_ID' and 'AWS_SECRET_ACCESS_KEY' are defined but not 'AWS_SHARED_CREDENTIALS_FILE', please write those environmental variables to the file "
        <> (o.quoted path <> ", and try again"))
    else raise e

unfoldable pub expand : Outside → String → String
expand o p =
    if starts_with p "~/.aws" || starts_with p "$HOME/.aws" || starts_with p "${HOME}/.aws"
    then o.join_path (o.join_path o.home_dir ".aws") (o.base_name p)
    else p

unfoldable pub set_mount : String → M (Unit {0})
set_mount p = modify (λ c. record c { aws_credential_to_mount_path = p })

-- `path` is the configured one, and `p` the expanded one.
unfoldable pub mount_expanded : Outside → String → String → M (Unit {0})
mount_expanded o path p = do
  there ← exist p
  if there
      then set_mount p
      else missing_credential o path (
          "AWSCredentialToMountPath or 'AWS_SHARED_CREDENTIALS_FILE' "
          <> (o.quoted p <> " does not exist"))

-- The first `if` needs the file of an absolute path.
unfoldable pub mount_configured : Outside → String → M (Unit {0})
mount_configured o path = do
  there ← if starts_with path "/" then exist path else pure true
  if there
      then mount_expanded o path (expand o path)
      else missing_credential o path (
          "AWSCredentialToMountPath or 'AWS_SHARED_CREDENTIALS_FILE' "
          <> (o.quoted path <> " does not exist on disk"))

-- On an error `filepath.Abs` has overwritten the path by the empty one.
unfoldable pub mount_shared_at : Outside → Reply String → M (Unit {0})
mount_shared_at o (failed e) =
    raise ("failed to expand AWS_SHARED_CREDENTIALS_FILE " <> (o.quoted "" <> (" (" <> (e <> ")"))))
mount_shared_at o (done p) = do
  there ← exist p
  if there
      then set_mount p
      else raise ("AWS_SHARED_CREDENTIALS_FILE " <> (o.quoted p <> " does not exist"))

unfoldable pub mount_shared : Outside → String → M (Unit {0})
mount_shared o path = do r ← attempt (call (abs_path path) (λ o. o.text)); mount_shared_at o r

-- `AWS_SHARED_CREDENTIALS_FILE` wins over the configuration.
unfoldable pub mount_credential : M (Unit {0})
mount_credential = do
  o ← gets (λ w. w.outside)
  path ← gets (λ w. w.cfg.aws_credential_to_mount_path)
  if not (str_eq path "") && not (is_set o "AWS_SHARED_CREDENTIALS_FILE")
      then mount_configured o path
      else pure tt
  if is_set o "AWS_SHARED_CREDENTIALS_FILE"
      then mount_shared o (o.environment "AWS_SHARED_CREDENTIALS_FILE")
      else pure tt
