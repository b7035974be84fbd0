-- ===== src/Tests/Lifecycle.antt =====
-- `Up` and `Down` on concrete services.
use aws_k8s_tester.Common.{◌≡◌, refl, ◌⊎◌, true, false, contains, join}
use aws_k8s_tester.Common.Int.{add64, mul64, wrap64}
use aws_k8s_tester.Runtime.Action.{
  ok, err, pure, gets, attempt, ◌>>=◌, deferring, ask, call, calling, crash, raise, sleep, modify,
  modify_state, modify_alb, ignore, set_absolute, make_absolute, write_to_disk, sync, for_each,
  rounds,
}
use aws_k8s_tester.Runtime.Poll.{poll, poll_from}
use aws_k8s_tester.Eks.Flag.{raised, vpc, role, raise_flag, lower_flag, releasing}
use aws_k8s_tester.Eks.Role.{
  delete_service_role, detach_policies, create_service_role, is_iam_role_deleted,
}
use aws_k8s_tester.Eks.KeyPair.{delete_key_pair}
use aws_k8s_tester.Eks.Upload.{
  upload, upload_if, upload_tester_logs, upload_worker_node_logs, get_worker_node_logs,
}
use aws_k8s_tester.Eks.Vpc.{delete_vpc, is_cf_deleted, after_loop}
use aws_k8s_tester.Eks.Cluster.{delete_cluster, is_eks_deleted, store_cluster}
use aws_k8s_tester.Eks.Worker.{delete_worker_node, wait_time}
use aws_k8s_tester.Eks.Tester.{
  down, up, create_stages, delete_all, stage, reverting, catch_stopc, open_access_logs,
  refuses_down,
}
use aws_k8s_tester.Eks.Tester.Cleanup.{down_lowers, up_rolls_back, failed_at}
use aws_k8s_tester.Tests.Samples.{world, fresh_world, idle}

-- A cluster whose resources are all gone is taken down without an error.
pub down_runs : (down world).0 ≡ ok tt
unfolding down ◌>>=◌ gets upload_if pure delete_all attempt delete_worker_node releasing deferring
    call ignore sync make_absolute modify write_to_disk sleep poll add64 mul64 wrap64 join contains
    delete_cluster is_eks_deleted store_cluster lower_flag delete_key_pair delete_service_role
    detach_policies is_iam_role_deleted stage get_worker_node_logs upload upload_tester_logs
    upload_worker_node_logs after_loop delete_vpc is_cf_deleted wait_time ask calling crash for_each
    modify_alb modify_state raise rounds set_absolute poll_from
down_runs = refl

-- The role is created, then not found: `Up` fails, and takes it down again.
up_fails : (up idle fresh_world).0 ≡ err "NoSuchEntity: the role cannot be found."
unfolding down ◌>>=◌ gets upload_if pure delete_all attempt delete_worker_node releasing deferring
    call ignore sync make_absolute modify write_to_disk sleep poll add64 mul64 wrap64 join contains
    delete_cluster is_eks_deleted store_cluster lower_flag delete_key_pair delete_service_role
    detach_policies is_iam_role_deleted stage get_worker_node_logs upload upload_tester_logs
    upload_worker_node_logs after_loop delete_vpc is_cf_deleted wait_time ask calling crash for_each
    modify_alb modify_state raise rounds set_absolute poll_from up reverting open_access_logs
    catch_stopc create_service_role raise_flag create_stages
up_fails = refl

down_lowers_example : raised vpc (down world).1.cfg.cluster_state ≡ false
down_lowers_example = down_lowers vpc world refl (rw down_runs tt)

up_rolls_back_example :
    (raised role (up idle fresh_world).1.cfg.cluster_state ≡ false)
    ⊎ (refuses_down (failed_at idle fresh_world).cfg.cluster_state ≡ true)
unfolding open_access_logs pure
up_rolls_back_example =
    up_rolls_back role idle fresh_world "NoSuchEntity: the role cannot be found." refl refl up_fails
