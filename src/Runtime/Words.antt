-- ===== src/Runtime/Words.antt =====
-- The names that an operation of the tester takes from the runtime, in one place.
pub use aws_k8s_tester.Runtime.Outside.{Reply, done, failed, Outside, History}
pub use aws_k8s_tester.Runtime.Action.{Result, ok, err, panic, hung, World, M, acknowledge}
unfoldable pub use aws_k8s_tester.Runtime.Action.{
  pure, raise, crash, spin, for_each, rounds, gets, attempt, ◌>>=◌, ◌>>◌, deferring, ask, call,
  sleep, modify, modify_state, modify_alb, ignore, sync,
}
pub use aws_k8s_tester.Runtime.Poll.{Next, again, stop, leave, Finish, ended, left}
unfoldable pub use aws_k8s_tester.Runtime.Poll.{poll}
