-- ===== src/Lib.antt =====
-- aws-k8s-tester: the tester that creates an EKS cluster and deletes it again, the status page of the
-- jobs of Prow, and the readers of the output of wrk and of the logs of load balancers.
--
-- Parts. The tester of internal/eks keeps one record of configuration and state (eksconfig's
-- `Config`, with the shared `ClusterState` and `ALBIngressController`), which every operation
-- updates and `Sync` writes to a file. `Up` runs the create operations in a fixed order, each under
-- `catchStopc`; when one fails, the deferred `down` deletes what the `Status…` flags say has been
-- created. `Down` runs the delete operations, and joins their errors. The status page (internal/prow)
-- is refreshed from the files of two repositories. The two readers work on their own.
--
-- Files and code:
--   Common           operators, Boolean tests, lists, 64-bit integers, and library names
--   Config           eksconfig/config.go and ec2config/config.go: the records
--   Runtime          Outside: what AWS, kubectl, files, signals and formatting answer; Action: the
--                    monad of actions, `defer`, loops and `Config.Sync`; Poll: the loops that wait
--                    until a time limit; Good, Keeps, Always: proof rules for actions
--   InstanceTypes    pkg/awsapi/ec2/instance_types.go: the table of EC2 instance types, in three files
--   EksConfig        eksconfig/config.go: Checks, Names, Credential and Validate make up
--                    `ValidateAndSetDefaults`; Setter, Fields and Envs `UpdateFromEnvs`; Empty and Load
--                    `Load`. Valid says what a valid configuration is, Guards what the requirements
--                    mean, Steps and Sound follow the validation, Creates the operations after it
--   Eks/Flag         the six flags, and what the delete operations share
--   Eks/Role         internal/eks/service_role.go
--   Eks/KeyPair      internal/eks/key_pair.go
--   Eks/Vpc          internal/eks/vpc.go
--   Eks/Cluster      internal/eks/eks.go
--   Eks/Cni          internal/eks/cni.go, secrets.go
--   Eks/Nodes, Asg, Worker  internal/eks/worker_node.go
--   Eks/Upload       the uploads of internal/eks/tester.go and worker_node_log.go
--   Eks/Alb          what internal/eks/alb deletes: `DeleteSecurityGroup`, `DeleteIngressObjects`
--   Eks/Tester       `Up`, `Down`, `IsUp` of internal/eks/tester.go, over a record of what the plugin
--                    of internal/eks/alb/plugin.go creates
--   Prow/Job         internal/prow/job.go, provider.go, and `Less` of jobs.go
--   Prow/Names       internal/prow/category.go, group.go, provider.go, prow.go
--   Prow/Munge, Load internal/prow/jobs.go and utils.go: `munge` and `LoadJobs`
--   Prow/Status      internal/prow/status/status.go and the rows of html.go
--   Wrk              pkg/wrk/wrk.go: `Parse` and `Combine`
--   AlbLog           internal/alb-log/alb-log.go, and `Save` of pkg/csvutil/csv.go
--   Runtime/Triple   proof rules for what a success leaves; Runtime/Stage, of the configuration
--                    Below a part, Rules holds that its operations end, Flags and Tracks what they
--                    do to its flag, Steady what they keep, Ready what their success means
--   Tests            sample services, runs, and the theorems at concrete inputs
--
-- State and errors. A Go function that returns an error is an action: a function of the tester's
-- world (configuration, history of calls, clock, saved files) to a result and a new world. A result is
-- a value, an error, a panic (an index out of range) or `hung`, a loop that is out of fuel or a call
-- that never answers.
--
-- Bounds and fuel. `time.Now` reads the clock of the world, in nanoseconds; each call takes at least
-- one, so that a loop with a time limit of n nanoseconds takes at most n rounds, and n is the fuel of
-- its model. Every loop does a call or a sleep in each round. The time limits that depend on the size
-- of the node group wrap round at 64 bits, as in Go. The loop that describes instances by tens has at
-- most two rounds.
--
-- Outside. Every call that leaves the program is recorded, and its answer is any function of the calls
-- made so far. Nothing is assumed of the answers, but where a result names what it takes for granted.
--
-- Not modelled: log messages; `NewTester`, which builds the AWS clients; the text of the templates; the
-- literal of the default configuration; the fetching of logs by SSH; the lock around `Up` and `Down`;
-- what the ALB plugin creates; `ToCSV` of wrk. When `catchStopc` selects a signal of the operating
-- system, the source goes on beside `run`, which no sequence of steps shows: the model of a run ends
-- there, with a panic. The rest of the repository (EC2, etcd, kubeadm, Kubernetes, CSI, the command line) is
-- not modelled.
pub mod Common
pub mod Config
pub mod Runtime
pub mod InstanceTypes
pub mod EksConfig
pub mod Eks
pub mod Prow
pub mod Wrk
pub mod AlbLog
mod Tests
