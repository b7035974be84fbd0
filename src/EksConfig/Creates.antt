-- ===== src/EksConfig/Creates.antt =====
-- A validated configuration and the operations that read it.
use text.Mathlib.TextLemmas.{append-ne-nil_of_right_ne-nil}
use aws_k8s_tester.Common.{
  String, ◌<>◌, ◌≡◌, refl, subst, true, false, not, [], ◌∷◌, str_eq, test_of_ne, ne_of_test,
}
use aws_k8s_tester.Config.{Config}
use aws_k8s_tester.Runtime.Outside.{done, iam_create_role, vpc_template, cf_create_stack}
use aws_k8s_tester.Runtime.Action.{Files, Result, World, ok}
use aws_k8s_tester.Runtime.Stage.{Written}
use aws_k8s_tester.Eks.Flag.{role, vpc, raised}
use aws_k8s_tester.Eks.Role.{create_service_role}
use aws_k8s_tester.Eks.Role.Tracks.{create_service_role_tracks}
use aws_k8s_tester.Eks.Vpc.{create_vpc}
use aws_k8s_tester.Eks.Vpc.Tracks.{create_vpc_tracks}
use aws_k8s_tester.EksConfig.Validate.{validate_and_set_defaults}
use aws_k8s_tester.EksConfig.Valid.{IsValid}
use aws_k8s_tester.EksConfig.Sound.{validate_and_set_defaults_lem}

Written-ok :
    (s : Files) (C : Config → Type 0) (r : Result (Unit {0})) (w : World)
    → r ≡ ok tt
    → Written s C r w
    → C w.cfg
Written-ok s C r w e h = (subst (λ x. Written s C x w) e h).1

pub validated-IsValid :
    (w : World)
    → (validate_and_set_defaults w).0 ≡ ok tt
    → IsValid (validate_and_set_defaults w).1.cfg
validated-IsValid w e = Written-ok w.saved IsValid _ _ e (validate_and_set_defaults_lem w)

suffixed :
    (name suffix : String) → not (str_eq suffix "") ≡ true → str_eq (name <> suffix) "" ≡ false
suffixed name suffix h = test_of_ne _ _ (append-ne-nil_of_right_ne-nil name (ne_of_test _ _ h))

role_named :
    (c : Config) → IsValid c → str_eq c.cluster_state.service_role_with_policy_name "" ≡ false
role_named c (_, _, named, _, _) = rw named.2 (suffixed c.cluster_name "-SERVICE-ROLE" refl)

vpc_named : (c : Config) → IsValid c → str_eq c.cluster_state.cf_stack_vpc_name "" ≡ false
vpc_named c (_, _, named, _, _) = rw named.3 (suffixed c.cluster_name "-VPC-STACK" refl)

-- On a configuration that `ValidateAndSetDefaults` has accepted, the flag of the service role is up
-- once IAM has created the role, however the creation ends.
pub validated_role_tracks :
    (w : World) (arn : String)
    → (validate_and_set_defaults w).0 ≡ ok tt
    → let v = (validate_and_set_defaults w).1 in
      v.outside.arn (iam_create_role v.cfg.cluster_state.service_role_with_policy_name ∷ v.history)
        ≡ done arn
      → raised role (create_service_role v).1.cfg.cluster_state ≡ true
validated_role_tracks w arn e created =
    let v = (validate_and_set_defaults w).1 in
    create_service_role_tracks v arn (role_named v.cfg (validated-IsValid w e)) created

-- On a configuration that `ValidateAndSetDefaults` has accepted, the flag of the VPC is up once
-- CloudFormation has accepted the VPC stack, however the creation ends. The template could be made.
pub validated_vpc_tracks :
    (w : World) (template : String)
    → (validate_and_set_defaults w).0 ≡ ok tt
    → let v = (validate_and_set_defaults w).1 in
      v.outside.text (vpc_template ∷ v.history) ≡ done template
      → v.outside.acknowledged
          (cf_create_stack v.cfg.cluster_state.cf_stack_vpc_name [] ∷ vpc_template ∷ v.history)
        ≡ done tt
      → raised vpc (create_vpc v).1.cfg.cluster_state ≡ true
validated_vpc_tracks w template e made accepted =
    let v = (validate_and_set_defaults w).1 in
    create_vpc_tracks v template (vpc_named v.cfg (validated-IsValid w e)) made accepted
