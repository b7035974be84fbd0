-- ===== src/Eks/Flag.antt =====
-- The `Status…Created` fields of `ClusterState`, by which the tester knows what it has to delete,
-- and the shape that its delete operations share.
pub mod Rules
use aws_k8s_tester.Common.{String, Bool, true, false, ◌≡◌, if◌then◌else◌}
use aws_k8s_tester.Config.{ClusterState}
use aws_k8s_tester.Runtime.Words.{M, pure, gets, ◌>>=◌, ◌>>◌, deferring, modify_state, ignore, sync}

pub data Flag : Type 0 where
  role policy vpc cluster key_pair worker_node : Flag

abbrev pub raised : Flag → ClusterState → Bool
raised role s = s.status_role_created
raised policy s = s.status_policy_attached
raised vpc s = s.status_vpc_created
raised cluster s = s.status_cluster_created
raised key_pair s = s.status_key_pair_created
raised worker_node s = s.status_worker_node_created

abbrev pub with_flag : Flag → Bool → ClusterState → ClusterState
with_flag role b s = record s { status_role_created = b }
with_flag policy b s = record s { status_policy_attached = b }
with_flag vpc b s = record s { status_vpc_created = b }
with_flag cluster b s = record s { status_cluster_created = b }
with_flag key_pair b s = record s { status_key_pair_created = b }
with_flag worker_node b s = record s { status_worker_node_created = b }

-- `Status… = true; Sync()` after a resource has been created.
unfoldable pub raise_flag : Flag → M (Unit {0})
raise_flag f = do modify_state (with_flag f true); ignore sync

-- The deferred `Status… = false; Sync()` of a delete operation.
unfoldable pub lower_flag : Flag → M (Unit {0})
lower_flag f = do modify_state (with_flag f false); ignore sync

-- `if !Status… { return nil }`, then the deferred cleanup round what is left of the operation.
unfoldable pub releasing : Flag → M (Unit {0}) → M (Unit {0}) → M (Unit {0})
releasing f cleanup body = do
  is_set ← gets (λ w. raised f w.cfg.cluster_state)
  if is_set then deferring cleanup body else pure tt
