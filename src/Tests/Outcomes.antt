-- ===== src/Tests/Outcomes.antt =====
-- What `Up` and its steps leave, on concrete services.
use aws_k8s_tester.Eks.Role.{attach_policies, create_service_role}
use aws_k8s_tester.Common.Int.{add64, mul64, wrap64}
use aws_k8s_tester.Common.{join, contains, ◌≡◌, refl, true, false, [], ◌∷◌}
use aws_k8s_tester.Eks.Asg.{
  batch, check_asg, check_group, describe_batches, flatten, healthy, insert_node, instance_ids,
  nodes_by_id, running,
}
use aws_k8s_tester.Eks.Cluster.{create_cluster, run_kubectl, store_cluster, write_kubeconfig}
use aws_k8s_tester.Eks.Cni.{create_aws_credential_secret, upgrade_cni}
use aws_k8s_tester.Eks.KeyPair.{create_key_pair}
use aws_k8s_tester.Eks.Nodes.{count_ready_nodes, is_ready}
use aws_k8s_tester.Eks.Tester.{
  open_access_logs, reverting, wait_and_create, catch_stopc, up, down, delete_all, refuses_down,
}
use aws_k8s_tester.Eks.Upload.{
  upload, upload_alb_tester_logs, upload_if, upload_tester_logs, get_worker_node_logs,
  upload_worker_node_logs,
}
use aws_k8s_tester.Eks.Vpc.{
  after_loop, create_vpc, is_cf_create_failed, split_commas, store_outputs,
}
use aws_k8s_tester.Eks.Worker.{allows_ssh, create_worker_node, found_ssh_access, wait_time}
use aws_k8s_tester.Runtime.Action.{
  calling, crash, for_each, modify_alb, raise, set_absolute, sleep, spin, ◌>>=◌, gets, pure,
  deferring, attempt, call, modify_state, ignore, sync, make_absolute, modify, write_to_disk, ask,
  ok, err,
}
use aws_k8s_tester.Runtime.Poll.{poll, poll_from}
use aws_k8s_tester.Eks.Flag.{
  raise_flag, Flag, raised, role, policy, vpc, cluster, key_pair, worker_node,
}
use aws_k8s_tester.Runtime.Keeps.{SawStop}
use aws_k8s_tester.Common.{◌⊎◌}
use aws_k8s_tester.Eks.Tester.{create_stages}
use aws_k8s_tester.Eks.Asg.{convert_ec2_instance}
use aws_k8s_tester.Runtime.Outside.{finished, select_run}
use aws_k8s_tester.Runtime.Good.{Ends}
use aws_k8s_tester.Eks.Tester.Ready.{IsUp, create_stages_ok}
use aws_k8s_tester.Eks.Cluster.Ready.{IsUsable, create_cluster_ok}
use aws_k8s_tester.Eks.Worker.Ready.{HasNodes, create_worker_node_ok}
use aws_k8s_tester.Eks.Tester.Cleanup.{failed_at}
use aws_k8s_tester.Eks.Tester.Outcome.{down-Ends, up_leaves_failed, delete_all_idle}
use aws_k8s_tester.Eks.Tester.Forgets.{down_forgets}
use aws_k8s_tester.Eks.Tester.Rules.{create_stages-Ends}
use aws_k8s_tester.Eks.Tester.Checks.{catch_stopc_ok}
use aws_k8s_tester.Eks.Tester.Saves.{Saved, sync_saves}
use aws_k8s_tester.Tests.Lifecycle.{down_runs}
use aws_k8s_tester.Tests.Samples.{idle, world, fresh_world}
use aws_k8s_tester.Tests.Serving.{serving_world, prepared_world, failing_world}

create_cluster_succeeds : (create_cluster prepared_world).0 ≡ ok tt
unfolding attach_policies add64 mul64 wrap64 join contains batch check_asg check_group
    describe_batches flatten healthy insert_node instance_ids nodes_by_id running create_cluster
    run_kubectl store_cluster write_kubeconfig create_aws_credential_secret upgrade_cni
    create_key_pair count_ready_nodes is_ready open_access_logs reverting wait_and_create upload
    upload_alb_tester_logs upload_if upload_tester_logs get_worker_node_logs upload_worker_node_logs
    after_loop create_vpc is_cf_create_failed split_commas store_outputs allows_ssh
    create_worker_node found_ssh_access wait_time calling crash for_each modify_alb raise
    set_absolute sleep spin poll poll_from ◌>>=◌ gets pure deferring catch_stopc attempt
    create_service_role call raise_flag modify_state ignore sync make_absolute modify write_to_disk
    ask up create_stages convert_ec2_instance
create_cluster_succeeds = refl

create_worker_node_succeeds : (create_worker_node prepared_world).0 ≡ ok tt
unfolding attach_policies add64 mul64 wrap64 join contains batch check_asg check_group
    describe_batches flatten healthy insert_node instance_ids nodes_by_id running create_cluster
    run_kubectl store_cluster write_kubeconfig create_aws_credential_secret upgrade_cni
    create_key_pair count_ready_nodes is_ready open_access_logs reverting wait_and_create upload
    upload_alb_tester_logs upload_if upload_tester_logs get_worker_node_logs upload_worker_node_logs
    after_loop create_vpc is_cf_create_failed split_commas store_outputs allows_ssh
    create_worker_node found_ssh_access wait_time calling crash for_each modify_alb raise
    set_absolute sleep spin poll poll_from ◌>>=◌ gets pure deferring catch_stopc attempt
    create_service_role call raise_flag modify_state ignore sync make_absolute modify write_to_disk
    ask up create_stages convert_ec2_instance
create_worker_node_succeeds = refl

stages_succeed : (create_stages serving_world).0 ≡ ok tt
unfolding attach_policies add64 mul64 wrap64 join contains batch check_asg check_group
    describe_batches flatten healthy insert_node instance_ids nodes_by_id running create_cluster
    run_kubectl store_cluster write_kubeconfig create_aws_credential_secret upgrade_cni
    create_key_pair count_ready_nodes is_ready open_access_logs reverting wait_and_create upload
    upload_alb_tester_logs upload_if upload_tester_logs get_worker_node_logs upload_worker_node_logs
    after_loop create_vpc is_cf_create_failed split_commas store_outputs allows_ssh
    create_worker_node found_ssh_access wait_time calling crash for_each modify_alb raise
    set_absolute sleep spin poll poll_from ◌>>=◌ gets pure deferring catch_stopc attempt
    create_service_role call raise_flag modify_state ignore sync make_absolute modify write_to_disk
    ask up create_stages convert_ec2_instance
stages_succeed = refl

-- EKS reports that the creation has FAILED.
creation_fails :
    (wait_and_create idle failing_world.cfg.wait_before_down
      (open_access_logs failing_world.cfg.log_access failing_world).1).0
    ≡ err "failed to create \"c\""
unfolding attach_policies add64 mul64 wrap64 join contains batch check_asg check_group
    describe_batches flatten healthy insert_node instance_ids nodes_by_id running create_cluster
    run_kubectl store_cluster write_kubeconfig create_aws_credential_secret upgrade_cni
    create_key_pair count_ready_nodes is_ready open_access_logs reverting wait_and_create upload
    upload_alb_tester_logs upload_if upload_tester_logs get_worker_node_logs upload_worker_node_logs
    after_loop create_vpc is_cf_create_failed split_commas store_outputs allows_ssh
    create_worker_node found_ssh_access wait_time calling crash for_each modify_alb raise
    set_absolute sleep spin poll poll_from ◌>>=◌ gets pure deferring catch_stopc attempt
    create_service_role call raise_flag modify_state ignore sync make_absolute modify write_to_disk
    ask up create_stages convert_ec2_instance
creation_fails = refl

creation_refused : refuses_down (failed_at idle failing_world).cfg.cluster_state ≡ true
unfolding attach_policies add64 mul64 wrap64 join contains batch check_asg check_group
    describe_batches flatten healthy insert_node instance_ids nodes_by_id running create_cluster
    run_kubectl store_cluster write_kubeconfig create_aws_credential_secret upgrade_cni
    create_key_pair count_ready_nodes is_ready open_access_logs reverting wait_and_create upload
    upload_alb_tester_logs upload_if upload_tester_logs get_worker_node_logs upload_worker_node_logs
    after_loop create_vpc is_cf_create_failed split_commas store_outputs allows_ssh
    create_worker_node found_ssh_access wait_time calling crash for_each modify_alb raise
    set_absolute sleep spin poll poll_from ◌>>=◌ gets pure deferring catch_stopc attempt
    create_service_role call raise_flag modify_state ignore sync make_absolute modify write_to_disk
    ask up create_stages convert_ec2_instance
creation_refused = refl

nothing_raised : (f : Flag) → raised f fresh_world.cfg.cluster_state ≡ false
nothing_raised role = refl
nothing_raised policy = refl
nothing_raised vpc = refl
nothing_raised cluster = refl
nothing_raised key_pair = refl
nothing_raised worker_node = refl

create_cluster_ok_example :
    IsUsable
      (create_cluster prepared_world).1.outside
      (create_cluster prepared_world).1.cfg.cluster_state
    ⊎ SawStop (create_cluster prepared_world).1
create_cluster_ok_example = create_cluster_ok prepared_world create_cluster_succeeds

create_worker_node_ok_example :
    HasNodes
      (create_worker_node prepared_world).1.outside
      (create_worker_node prepared_world).1.cfg.cluster_state
    ⊎ SawStop (create_worker_node prepared_world).1
create_worker_node_ok_example = create_worker_node_ok prepared_world create_worker_node_succeeds

create_stages_ok_example :
    IsUp (create_stages serving_world).1.outside (create_stages serving_world).1.cfg.cluster_state
    ⊎ SawStop (create_stages serving_world).1
create_stages_ok_example = create_stages_ok serving_world stages_succeed

down-Ends_example : Ends (down world).0
down-Ends_example = down-Ends world refl

up_leaves_failed_example :
    up idle failing_world ≡ (err "failed to create \"c\"", failed_at idle failing_world)
unfolding open_access_logs pure
up_leaves_failed_example =
    up_leaves_failed idle failing_world "failed to create \"c\"" refl refl creation_fails
      creation_refused

delete_all_idle_example : delete_all fresh_world ≡ (ok [], fresh_world)
delete_all_idle_example = delete_all_idle fresh_world nothing_raised refl

down_forgets_example : delete_all (down world).1 ≡ (ok [], (down world).1)
down_forgets_example = down_forgets world refl (rw down_runs tt)

attached : (catch_stopc attach_policies serving_world).0 ≡ ok tt
unfolding attach_policies add64 mul64 wrap64 join contains batch check_asg check_group
    describe_batches flatten healthy insert_node instance_ids nodes_by_id running create_cluster
    run_kubectl store_cluster write_kubeconfig create_aws_credential_secret upgrade_cni
    create_key_pair count_ready_nodes is_ready open_access_logs reverting wait_and_create upload
    upload_alb_tester_logs upload_if upload_tester_logs get_worker_node_logs upload_worker_node_logs
    after_loop create_vpc is_cf_create_failed split_commas store_outputs allows_ssh
    create_worker_node found_ssh_access wait_time calling crash for_each modify_alb raise
    set_absolute sleep spin poll poll_from ◌>>=◌ gets pure deferring catch_stopc attempt
    create_service_role call raise_flag modify_state ignore sync make_absolute modify write_to_disk
    ask up create_stages convert_ec2_instance
attached = refl

catch_stopc_ok_example :
    ((attach_policies serving_world).0 ≡ ok tt)
    × ((attach_policies serving_world).1.outside.selected
          (select_run ∷ (attach_policies serving_world).1.history)
        ≡ finished)
catch_stopc_ok_example = catch_stopc_ok attach_policies serving_world attached

sync_saves_example : Saved world (sync world).0 (sync world).1
sync_saves_example = sync_saves world

create_stages-Ends_example : Ends (create_stages serving_world).0
create_stages-Ends_example = create_stages-Ends serving_world
