-- ===== src/Eks/Vpc.antt =====
-- internal/eks/vpc.go: the CloudFormation stack of the VPC.
pub mod Rules
pub mod Tracks
pub mod Flags
use aws_k8s_tester.Common.{
  ℕ, ◌-◌, ◌*◌, String, ◌<>◌, Bool, true, false, not, ◌||◌, List, [], ◌∷◌, Option, none, some,
  str_eq, starts_with, contains, ltb, if◌then◌else◌,
}
use aws_k8s_tester.Config.{Config, ClusterState}
use aws_k8s_tester.Runtime.Outside.{
  Stack, cf_create_stack, cf_describe_stacks, cf_delete_stack, ec2_create_tags, ec2_delete_vpc,
  ec2_describe_vpn_connections, vpc_template, poll_stopc, await_stopc,
}
use aws_k8s_tester.Runtime.Words.{
  Reply, done, failed, Outside, M, acknowledge, pure, raise, crash, gets, for_each, attempt, ◌>>=◌,
  ◌>>◌, ask, call, sleep, modify, modify_state, ignore, sync, Next, again, stop, leave, Finish,
  ended, left, poll,
}
use aws_k8s_tester.Runtime.Time.{second, minute}
use aws_k8s_tester.Eks.Flag.{vpc, raise_flag, lower_flag, releasing}

-- `isCFCreateFailed`
unfoldable pub is_cf_create_failed : String → Bool
is_cf_create_failed status =
    if starts_with status "REVIEW_" || starts_with status "CREATE_" then false else true

-- `isCFDeletedGoClient`, on the error's text.
unfoldable pub is_cf_deleted : String → String → Bool
is_cf_deleted name e = contains e ("ValidationError: Stack with id " <> (name <> " does not exist"))

-- `strings.Split(s, ",")` by a scan; `field` holds the characters since the last comma.
split_from : String → String → List String
split_from field String.[] = field ∷ []
split_from field (String.◌∷◌ c s) =
    let cut = field ∷ split_from "" s in
    let grown = split_from (field <> String.◌∷◌ c String.[]) s in
    if str_eq (String.◌∷◌ c String.[]) "," then cut else grown

unfoldable pub split_commas : String → List String
unfolding split_from
split_commas s = split_from "" s

abbrev pub set_vpc_status : String → ClusterState → ClusterState
set_vpc_status e s = record s { cf_stack_vpc_status = e }

store_output : String × String → Config → Config
store_output (key, value) c =
    if str_eq key "VpcId"
    then record c { vpc_id = value }
    else if str_eq key "SubnetIds"
    then record c { subnet_ids = split_commas value }
    else if str_eq key "SecurityGroups"
    then record c { security_group_id = value }
    else c

-- `for _, op := range do.Stacks[0].Outputs`
unfoldable pub store_outputs : List (String × String) → M (Unit {0})
unfolding store_output split_commas
store_outputs outputs = for_each outputs (λ output. modify (store_output output))

abbrev pub error_of : {A : Type 0} → Reply A → Option String
error_of (done _) = none
error_of (failed e) = some e

created_or_wait : String → String → M (Next (Option String))
created_or_wait status group =
    if str_eq status "CREATE_COMPLETE"
    then (do r ← attempt (call (ec2_create_tags group) acknowledge); pure (stop (error_of r)))
    else do sleep (10 * second); pure (again none)

stack_created : Outside → String → Stack → M (Next (Option String))
unfolding created_or_wait
stack_created o name s = do
  modify_state (set_vpc_status s.stack_status)
  if is_cf_create_failed s.stack_status
      then raise
          ("failed to create " <> (o.quoted name <> (" (" <> (o.quoted s.stack_status <> ")"))))
      else do
        store_outputs s.outputs
        group ← gets (λ w. w.cfg.security_group_id)
        created_or_wait s.stack_status group

create_described : Outside → String → Reply (List Stack) → M (Next (Option String))
unfolding stack_created
create_described o name (failed e) = do
  modify_state (set_vpc_status e)
  sleep (10 * second)
  pure (again (some e))
create_described o name (done (s ∷ [])) = stack_created o name s
create_described o name (done stacks) =
    raise (o.quoted name <> (" expects 1 Stack, got " <> o.stacks_text stacks))

-- One round of the loop of `createVPC`. The state of the loop is the variable `err`.
create_round : Outside → String → Option String → M (Next (Option String))
unfolding create_described
create_round o name last = do
  stopped ← ask poll_stopc (λ o. o.stopped)
  if stopped then pure leave else do
    r ← attempt (call (cf_describe_stacks name) (λ o. o.stacks))
    create_described o name r

-- `if err != nil { return err }` and `return md.cfg.Sync()` after a loop.
unfoldable pub after_loop : Finish (Option String) → M (Unit {0})
after_loop left = pure tt
after_loop (ended none) = sync
after_loop (ended (some e)) = raise e

unfoldable pub create_vpc : M (Unit {0})
unfolding create_round after_loop
create_vpc = do
  o ← gets (λ w. w.outside)
  name ← gets (λ w. w.cfg.cluster_state.cf_stack_vpc_name)
  if str_eq name "" then raise "cannot create empty VPC stack" else do
    template ← call vpc_template (λ o. o.text)
    call (cf_create_stack name []) acknowledge
    raise_flag vpc
    interrupted ← ask (await_stopc minute) (λ o. o.stopped)
    if interrupted then pure tt else do
      sleep minute
      finish ← poll (5 * minute) (create_round o name) none
      after_loop finish

vpc_gone : Reply (Unit {0}) → Bool
vpc_gone (done _) = false
vpc_gone (failed e) = contains e "does not exist"

-- From the third minute on the VPC is deleted by hand too.
delete_by_hand : M (Next (Option String))
unfolding vpc_gone
delete_by_hand = do
  ignore (call ec2_describe_vpn_connections (λ o. o.vpn_connections))
  id ← gets (λ w. w.cfg.vpc_id)
  r ← attempt (call (ec2_delete_vpc id) acknowledge)
  if vpc_gone r
      then (do modify_state (set_vpc_status "DELETE_COMPLETE"); pure (stop none))
      else pure (again none)

delete_described : String → ℕ → Reply (List Stack) → M (Next (Option String))
unfolding delete_by_hand
delete_described name start (done []) = crash "index out of range"
delete_described name start (done (s ∷ _)) = do
  modify_state (set_vpc_status s.stack_status)
  sleep (10 * second)
  now ← gets (λ w. w.clock)
  if ltb (3 * minute) (now - start) then delete_by_hand else pure (again none)
delete_described name start (failed e) =
    if is_cf_deleted name e
    then (do modify_state (set_vpc_status "DELETE_COMPLETE"); pure (stop none))
    else do modify_state (set_vpc_status e); sleep (10 * second); pure (again (some e))

delete_round : String → ℕ → Option String → M (Next (Option String))
unfolding delete_described
delete_round name start last = do
  r ← attempt (call (cf_describe_stacks name) (λ o. o.stacks))
  delete_described name start r

-- The stack's deletion has been asked for, or an error says that it could not be.
deletion_started : String → Reply (Unit {0}) → M (Unit {0})
unfolding delete_round after_loop
deletion_started name (failed e) = do modify_state (set_vpc_status e); raise e
deletion_started name (done _) = do
  sleep minute
  now ← gets (λ w. w.clock)
  finish ← poll (5 * minute) (delete_round name now) none
  after_loop finish

delete_vpc_body : M (Unit {0})
unfolding deletion_started
delete_vpc_body = do
  name ← gets (λ w. w.cfg.cluster_state.cf_stack_vpc_name)
  if str_eq name ""
      then raise "cannot delete empty VPC stack"
      else do r ← attempt (call (cf_delete_stack name) acknowledge); deletion_started name r

unfoldable pub delete_vpc : M (Unit {0})
unfolding delete_vpc_body
delete_vpc = releasing vpc (lower_flag vpc) delete_vpc_body
