-- ===== src/Tests/Settings.antt =====
-- The configuration: runs of `ValidateAndSetDefaults`, and the theorems at concrete inputs.
use aws_k8s_tester.Common.{
  ◌≡◌, ◌≤◌, ◌*◌, ◌↔◌, refl, true, [], ◌∷◌, none, str_eq, arith, inl, if◌then◌else◌,
}
use aws_k8s_tester.Common.Int.{pos, mul64, wrap64}
use aws_k8s_tester.Config.{Config}
use aws_k8s_tester.Runtime.Outside.{stat, abs_path, done}
use aws_k8s_tester.Runtime.Action.{
  World, ok, err, pure, raise, gets, attempt, ◌>>=◌, call, calling, ask, modify, modify_alb, ignore,
  sync, make_absolute, set_absolute, write_to_disk,
}
use aws_k8s_tester.Runtime.Stage.{Written}
use aws_k8s_tester.InstanceTypes.Row.{of}
use aws_k8s_tester.EksConfig.Checks.{
  check_kubernetes_version, check_region, check_ec2_instance_type, check_max_pods,
  check_workder_node_asg, check_eks_ep,
}
use aws_k8s_tester.EksConfig.Names.{private_key_path, add_log_output}
use aws_k8s_tester.EksConfig.Credential.{
  exist, missing_credential, expand, set_mount, mount_expanded, mount_configured, mount_shared_at,
  mount_shared, mount_credential,
}
use aws_k8s_tester.EksConfig.Validate.{
  require_all, settings, endpoint_settings, volume_size, new_config_path, anonymous_settings,
  test_mode_setting, alb_settings, set_output_paths, alb_sizes, check_enabled, check_alb,
  check_settings, complete_paths, validate_and_set_defaults,
}
use aws_k8s_tester.Eks.Flag.{role, vpc, raised}
use aws_k8s_tester.Eks.Role.{create_service_role}
use aws_k8s_tester.Eks.Vpc.{create_vpc}
use aws_k8s_tester.EksConfig.Valid.{IsValid}
use aws_k8s_tester.EksConfig.Sound.{validate_and_set_defaults_lem}
use aws_k8s_tester.EksConfig.Pods.{check_max_pods_exact}
use aws_k8s_tester.EksConfig.Creates.{validated_role_tracks, validated_vpc_tracks}
use aws_k8s_tester.EksConfig.Mounts.{mount_credential_shared}
use aws_k8s_tester.EksConfig.Load.{load}
use aws_k8s_tester.EksConfig.Load.Restored.{exported, load_restores}
use aws_k8s_tester.EksConfig.Envs.{
  update_from_envs, store_config, store_alb, update_fields, update_field, set_field, parsed,
  env_name,
}
use aws_k8s_tester.EksConfig.Untouched.{Updated, update_from_envs-Updated}
use aws_k8s_tester.Tests.Samples.{config, world}
use aws_k8s_tester.Tests.Serving.{serving}

abbrev with_credential : Config
with_credential = record config { aws_credential_to_mount_path = "~/.aws/credentials" }

abbrev ready_world : World
ready_world = record world { cfg = with_credential; outside = serving }

ready_world_accepted :
    ((validate_and_set_defaults ready_world).0 ≡ ok tt)
    × ((validate_and_set_defaults ready_world).1.outside ≡ serving)
unfolding check_kubernetes_version check_region check_ec2_instance_type check_max_pods
    check_workder_node_asg check_eks_ep private_key_path add_log_output exist missing_credential
    expand set_mount mount_expanded mount_configured mount_shared_at mount_shared mount_credential
    require_all settings endpoint_settings volume_size new_config_path anonymous_settings
    test_mode_setting alb_settings set_output_paths alb_sizes check_enabled check_alb check_settings
    complete_paths validate_and_set_defaults pure raise gets attempt ◌>>=◌ call calling ask modify
    modify_alb ignore sync make_absolute set_absolute write_to_disk mul64 wrap64
ready_world_accepted = (refl, refl)

-- Without a credential even a configuration that leaves the ALB Ingress Controller alone is refused.
idle_refused :
    (validate_and_set_defaults (record world { outside = serving })).0
    ≡ err "cannot create AWS ALB Ingress Controller routes without test routes"
unfolding check_kubernetes_version check_region check_ec2_instance_type check_max_pods
    check_workder_node_asg check_eks_ep private_key_path add_log_output mount_credential require_all
    settings endpoint_settings volume_size anonymous_settings check_alb check_settings
    complete_paths validate_and_set_defaults pure raise gets ◌>>=◌ modify mul64 wrap64
idle_refused = refl

validate_and_set_defaults_lem_example :
    Written
      (λ p. none)
      IsValid
      (validate_and_set_defaults ready_world).0
      (validate_and_set_defaults ready_world).1
validate_and_set_defaults_lem_example = validate_and_set_defaults_lem ready_world

check_max_pods_exact_example :
    (check_max_pods "m3.xlarge" (pos 2) (pos 117) ≡ true) ↔ (117 ≤ 58 * 2)
check_max_pods_exact_example =
    check_max_pods_exact "m3.xlarge" (of "m3.xlarge" 4 15360 0 58) 2 117 refl (omega arith)

abbrev shared_world : World
shared_world = record ready_world { outside = record serving { environment = λ s. "credentials" } }

mount_credential_shared_example :
    ((mount_credential shared_world).0 ≡ ok tt)
    × ((mount_credential shared_world).1.cfg.aws_credential_to_mount_path ≡ "/text")
    × ((mount_credential shared_world).1.history ≡ stat "/text" ∷ abs_path "credentials" ∷ [])
mount_credential_shared_example = mount_credential_shared shared_world "/text" refl refl refl

abbrev validated : World
validated = (validate_and_set_defaults ready_world).1

validated_role_tracks_example :
    raised role (create_service_role validated).1.cfg.cluster_state ≡ true
validated_role_tracks_example =
    validated_role_tracks ready_world "arn" ready_world_accepted.0 (rw ready_world_accepted.1 refl)

validated_vpc_tracks_example : raised vpc (create_vpc validated).1.cfg.cluster_state ≡ true
validated_vpc_tracks_example =
    validated_vpc_tracks ready_world "/text" ready_world_accepted.0 (rw ready_world_accepted.1 refl)
      (rw ready_world_accepted.1 refl)

abbrev yaml_world : World
yaml_world = record ready_world {
  outside = record serving {
    decode_config = λ s. done (exported with_credential);
    parse_duration = λ s. done (pos 0);
  };
}

load_restores_example :
    (load "/c" yaml_world).0 ≡ ok (record with_credential { config_path = "/text" })
load_restores_example =
    load_restores yaml_world with_credential "/c" "/text" "/text" refl refl refl (inl (refl, refl))
      (inl (refl, refl))

-- A variable that is set.
abbrev named_world : World
named_world = record ready_world {
  outside = record serving {
    environment = λ s. if str_eq s "AWS_K8S_TESTER_EKS_tag,omitempty" then "v" else "";
  };
}

named_world_updated : (update_from_envs named_world).1.cfg.tag ≡ "v"
unfolding update_from_envs store_config store_alb update_fields update_field set_field parsed
    env_name pure raise gets ◌>>=◌ modify modify_alb
named_world_updated = refl

update_from_envs-Updated_example :
    Updated named_world (update_from_envs named_world).0 (update_from_envs named_world).1
update_from_envs-Updated_example = update_from_envs-Updated named_world
