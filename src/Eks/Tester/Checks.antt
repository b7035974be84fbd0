-- ===== src/Eks/Tester/Checks.antt =====
-- What a success of `catchStopc` means.
use aws_k8s_tester.Common.{◌∷◌, ◌≡◌, refl}
use aws_k8s_tester.Runtime.Outside.{
  Reply, done, failed, Outside, Signal, finished, stopc_closed, termination, select_run,
}
use aws_k8s_tester.Runtime.Action.{
  Result, ok, err, panic, hung, World, M, pure, raise, crash, gets, attempt, observe, continue,
  ◌>>=◌, ask, calling,
}
use aws_k8s_tester.Eks.Tester.{conclude, catch_stopc}

conclude_ok :
    (o : Outside) (r : Reply Unit) (s : Signal) (w : World)
    → (conclude o r s w).0 ≡ ok tt
    → (r ≡ done tt) × (s ≡ finished)
unfolding conclude pure raise crash
conclude_ok o (done tt) finished w h = (refl, refl)
conclude_ok o (failed e) finished w h = cc
conclude_ok o (done a) stopc_closed w h = cc
conclude_ok o (failed e) stopc_closed w h = cc
conclude_ok o (done a) (termination s) w h = cc
conclude_ok o (failed e) (termination s) w h = cc

concluded :
    (o : Outside) (r : Result Unit) (s : World → Signal) (v : World → World) (w : World)
    → (continue (observe r w).0 (λ x u. conclude o x (s u) (v u)) (observe r w).1).0 ≡ ok tt
    → (r ≡ ok tt) × (s w ≡ finished)
concluded o (ok tt) s v w h = (refl, (conclude_ok o (done tt) (s w) (v w) h).1)
concluded o (err e) s v w h = let impossible = (conclude_ok o (failed e) (s w) (v w) h).0 in cc
concluded o (panic e) s v w h = cc
concluded o hung s v w h = cc

-- `catchStopc` succeeds only when the function that it ran succeeded, and neither a closing of the
-- stop channel nor a signal of the operating system was selected.
pub catch_stopc_ok :
    (run : M Unit) (w : World)
    → (catch_stopc run w).0 ≡ ok tt
    → ((run w).0 ≡ ok tt) × ((run w).1.outside.selected (select_run ∷ (run w).1.history) ≡ finished)
unfolding catch_stopc ◌>>=◌ gets attempt ask calling
catch_stopc_ok run w h =
    concluded w.outside (run w).0 (λ u. u.outside.selected (select_run ∷ u.history)) _ (run w).1 h
