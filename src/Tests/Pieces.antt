-- ===== src/Tests/Pieces.antt =====
-- The parts of the tester that call nothing, at concrete inputs.
use aws_k8s_tester.Common.{String, ◌≡◌, refl, true, [], ◌∷◌, some, List, take}
use aws_k8s_tester.Common.Int.{pos}
use aws_k8s_tester.Runtime.Action.{ok}
use aws_k8s_tester.Runtime.Outside.{ec2_describe_instances, IpPermission}
use aws_k8s_tester.Eks.Asg.{check_group, describe_batches}
use aws_k8s_tester.Eks.Asg.Batches.{Repeats, describe_batches-Repeats}
use aws_k8s_tester.Eks.Asg.Group.{IsExpected, check_group_ok}
use aws_k8s_tester.Eks.Worker.{allows_ssh, found_ssh_access}
use aws_k8s_tester.Eks.Worker.Access.{AnySsh, found_ssh_access_any}
use aws_k8s_tester.Tests.Samples.{config}
use aws_k8s_tester.Tests.Serving.{serving, serving_world, group_of_one}

abbrev eleven : List String
eleven = "1" ∷ "2" ∷ "3" ∷ "4" ∷ "5" ∷ "6" ∷ "7" ∷ "8" ∷ "9" ∷ "10" ∷ "11" ∷ []

abbrev ssh : IpPermission
ssh = record { from_port = some (pos 22); to_port = some (pos 22); ip_ranges = "0.0.0.0/0" ∷ [] }

found_ssh : found_ssh_access ([] ∷ (ssh ∷ []) ∷ []) ≡ true
unfolding found_ssh_access allows_ssh
found_ssh = refl

check_group_ok_example :
    ((check_group serving config group_of_one serving_world).0 ≡ ok tt
      → IsExpected config group_of_one)
    × (IsExpected config group_of_one
        → (check_group serving config group_of_one serving_world).0 ≡ ok tt)
check_group_ok_example = check_group_ok serving config group_of_one serving_world

describe_batches-Repeats_example :
    Repeats
      (ec2_describe_instances (take 10 eleven))
      []
      (describe_batches 2 serving eleven [] serving_world).1.history
describe_batches-Repeats_example = describe_batches-Repeats 2 serving eleven [] serving_world

found_ssh_access_any_example :
    (found_ssh_access ([] ∷ (ssh ∷ []) ∷ []) ≡ true → AnySsh ([] ∷ (ssh ∷ []) ∷ []))
    × (AnySsh ([] ∷ (ssh ∷ []) ∷ []) → found_ssh_access ([] ∷ (ssh ∷ []) ∷ []) ≡ true)
found_ssh_access_any_example = found_ssh_access_any ([] ∷ (ssh ∷ []) ∷ [])
