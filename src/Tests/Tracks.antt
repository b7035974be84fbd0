-- ===== src/Tests/Tracks.antt =====
-- The flags of what is created, on concrete services.
use aws_k8s_tester.Common.{◌≡◌, refl, true}
use aws_k8s_tester.Eks.Flag.{raised, role, vpc, key_pair}
use aws_k8s_tester.Eks.Role.{create_service_role}
use aws_k8s_tester.Eks.Role.Tracks.{create_service_role_tracks}
use aws_k8s_tester.Eks.Vpc.{create_vpc}
use aws_k8s_tester.Eks.Vpc.Tracks.{create_vpc_tracks}
use aws_k8s_tester.Eks.KeyPair.{create_key_pair}
use aws_k8s_tester.Eks.KeyPair.Tracks.{create_key_pair_tracks}
use aws_k8s_tester.Tests.Serving.{serving_world}

create_vpc_tracks_example : raised vpc (create_vpc serving_world).1.cfg.cluster_state ≡ true
create_vpc_tracks_example = create_vpc_tracks serving_world "/text" refl refl refl

create_service_role_tracks_example :
    raised role (create_service_role serving_world).1.cfg.cluster_state ≡ true
create_service_role_tracks_example = create_service_role_tracks serving_world "arn" refl refl

create_key_pair_tracks_example :
    raised key_pair (create_key_pair serving_world).1.cfg.cluster_state ≡ true
create_key_pair_tracks_example =
    create_key_pair_tracks serving_world ("c-KEY-PAIR", "material") refl refl refl
