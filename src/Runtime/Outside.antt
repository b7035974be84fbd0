-- ===== src/Runtime/Outside.antt =====
-- The calls that leave the program, and what answers them. None of the answers is code of the
-- repository: AWS, kubectl, the file system, signals and formatting are functions of the calls
-- made so far, latest first, so that they may answer anything, and differently each time.
use aws_k8s_tester.Common.{ℕ, String, Bool, List, Option}
use aws_k8s_tester.Common.Int.{ℤ}
use aws_k8s_tester.Config.{Instance, Config, ClusterState, AlbIngressController}

-- The clients' results: `(output, nil)` or `(nil, err)` with the error's text.
pub data Reply {ℓ} (A : Type ℓ) : Type ℓ where
  done : A → Reply A
  failed : String → Reply A

pub record Stack : Type 0 where
  pub stack_status : String
  pub outputs : List (String × String)

pub record Cluster : Type 0 where
  pub status : String
  pub created_at : ℕ
  pub platform_version : String
  pub endpoint : Option String
  pub certificate_authority : Option String

pub record IpPermission : Type 0 where
  pub from_port : Option ℤ
  pub to_port : Option ℤ
  pub ip_ranges : List String

pub record StackResource : Type 0 where
  pub resource_type : String
  pub physical_resource_id : String

-- What of an `ec2.Instance` ends in the program's own; EC2 leaves the two public ones out at will.
pub record Described : Type 0 where
  pub instance_id : String
  pub public_dns_name : Option String
  pub public_ip : Option String
  pub state_name : String

pub record AsgInstance : Type 0 where
  pub instance_id : String
  pub health_status : String

pub record AutoScalingGroup : Type 0 where
  pub min_size : ℤ
  pub max_size : ℤ
  pub instances : List AsgInstance

-- `CombinedOutput` returns what was printed beside the error.
pub record ExecResult : Type 0 where
  pub output : String
  pub error : Option String

pub data Signal : Type 0 where
  finished stopc_closed : Signal
  termination : String → Signal

pub record NodeCondition : Type 0 where
  pub condition_type : String
  pub status : String

pub record Node : Type 0 where
  pub name : String
  pub conditions : List NodeCondition

pub data Call : Type 0 where
  iam_create_role iam_get_role iam_delete_role : String → Call
  iam_attach_role_policy iam_detach_role_policy : String → String → Call
  cf_create_stack : String → List (String × String) → Call
  cf_describe_stacks cf_delete_stack cf_describe_stack_resources : String → Call
  ec2_create_tags : String → Call
  ec2_describe_vpn_connections : Call
  ec2_delete_vpc : String → Call
  ec2_create_key_pair ec2_delete_key_pair ec2_describe_key_pairs : String → Call
  ec2_describe_security_groups : String → Call
  ec2_authorize_ingress ec2_authorize_egress : String → ℕ → ℕ → Call
  ec2_describe_instances : List String → Call
  ec2_revoke_ingress : String → ℕ → Call
  ec2_delete_security_group : String → Call
  elb_describe_listeners elb_delete_listener : String → Call
  elb_describe_target_groups elb_delete_target_group : String → Call
  elb_delete_load_balancer : String → Call
  asg_describe : String → Call
  eks_create_cluster : String → String → String → List String → String → Call
  eks_describe_cluster eks_delete_cluster : String → Call
  kubectl : List String → Call
  poll_stopc : Call
  await_stopc : ℕ → Call
  select_run : Call
  s3_upload : String → String → Call
  s3_create_bucket_for_access_logs : Call
  fetch_logs : List (String × Instance) → Call
  worker_template vpc_template : Call
  stat read_file : String → Call
  create_temp_file write_text : String → String → Call
  download : String → Call
  write_temp_file write_file mkdir_all remove_all : String → Call
  set_env : String → String → Call
  abs_path : String → Call
  write_config : Config → Call

-- What `yaml.Unmarshal` makes of a file: the two pointers may be nil, and the fields that are not
-- exported (the two durations) are zero.
pub record Decoded : Type 0 where
  pub fields : Config
  pub cluster_state : Option ClusterState
  pub alb_ingress_controller : Option AlbIngressController

-- How `ioutil.WriteFile` ends, or the making of the text before it: it truncates the file before it writes,
-- so that an error after that leaves no whole text.
pub data Writing : Type 0 where
  wrote : Writing
  not_opened : String → Writing
  truncated : String → Writing

abbrev pub History : Type 0
History = List Call

pub record Outside : Type 0 where
  -- What a call takes beyond one nanosecond, and a sleep beyond its length.
  pub latency : History → ℕ
  pub overslept : History → ℕ
  -- `%q`, `%d`, `%v` of a duration, of stacks and of groups
  pub quoted : String → String
  pub decimal : ℕ → String
  pub decimal_ℤ : ℤ → String
  pub duration_text : ℕ → String
  pub stacks_text : List Stack → String
  pub groups_text : List AutoScalingGroup → String
  pub dir_name : String → String
  -- `os.Getenv`, of variables that the program does not set, and the paths of the machine
  pub environment : String → String
  pub home_dir : String
  pub temp_dir : String
  pub join_path : String → String → String
  pub base_name : String → String
  pub exists : History → Bool
  -- `strings.ToUpper`, and `strings.Replace` of all occurrences: the text, what goes, what comes
  pub to_upper : String → String
  pub replace_all : String → String → String → String
  -- The package strconv and `time.ParseDuration`; a float64 is given by its 64 bits.
  pub parse_bool : String → Reply Bool
  pub parse_int : String → Reply ℤ
  pub parse_float : String → Reply ℕ
  pub parse_duration : String → Reply ℤ
  pub decode_config : String → Reply Decoded
  -- `%X` of a time in nanoseconds
  pub nanoseconds_hex : ℕ → String
  pub decode_nodes : String → Reply (List Node)
  pub is_retryable : String → Bool
  -- The code of an `awserr.Error`, if the error is one.
  pub aws_error_code : String → Option String
  pub arn : History → Reply String
  pub acknowledged : History → Reply (Unit {0})
  pub written : History → Writing
  pub stacks : History → Reply (List Stack)
  pub stack_resources : History → Reply (List StackResource)
  pub vpn_connections : History → Reply (List String)
  -- The name and the material of a new key pair.
  pub key_pair : History → Reply (String × String)
  pub security_groups : History → Reply (List (List IpPermission))
  pub instances : History → Reply (List (List Described))
  pub auto_scaling_groups : History → Reply (List AutoScalingGroup)
  pub cluster : History → Reply Cluster
  -- The ARNs of listeners, and target groups with their VPC.
  pub arns : History → Reply (List String)
  pub target_groups : History → Reply (List (String × String))
  pub executed : History → ExecResult
  pub stopped : History → Bool
  pub selected : History → Signal
  pub text : History → Reply String
  -- The fetching of the logs over SSH has no time limit: it may never answer.
  pub fetched_logs : History → Option (List (String × String))
