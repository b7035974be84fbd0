-- ===== src/Runtime/Keeps.antt =====
-- Invariants of actions: what holds of the services and of the cluster's state before an action
-- holds after it, however it ends. One rule for each way to build an action.
use aws_k8s_tester.Common.{
  ℕ, zero, suc, ◌-◌, String, Bool, true, false, ◌&&◌, ◌≡◌, refl, List, [], ◌∷◌, ◌⊎◌, inl, inr, ltb,
  if◌then◌else◌, Bool-cases, subst,
}
use aws_k8s_tester.Config.{Config, ClusterState, AlbIngressController}
use aws_k8s_tester.Runtime.Outside.{
  Writing, wrote, not_opened, truncated, Reply, done, failed, Call, poll_stopc, await_stopc,
  History, Outside,
}
use aws_k8s_tester.Runtime.Action.{
  Result, ok, err, panic, hung, World, M, pure, raise, crash, gets, for_each, rounds, lift_reply,
  observe, attempt, continue, ◌>>=◌, ◌>>◌, deferring, ask, call, sleep, modify, modify_state,
  modify_alb, ignore, calling, set_absolute, make_absolute, write_to_disk, sync,
}
use aws_k8s_tester.Runtime.Poll.{Next, again, stop, leave, Finish, proceed, poll_from, poll}

abbrev pub Predicate : Type 1
Predicate = Outside → ClusterState → Type 0

abbrev pub Holds : Predicate → World → Type 0
Holds P w = P w.outside w.cfg.cluster_state

-- A `select` with the case `<-md.stopc`.
abbrev pub IsStopc : Call → Type 0
IsStopc poll_stopc = Unit
IsStopc (await_stopc d) = Unit
IsStopc c = ⊥

-- One of these calls asked for the stop channel, and found it closed.
abbrev pub SeenIn : Outside → History → Type 0
SeenIn o [] = ⊥
SeenIn o (c ∷ h) = (IsStopc c × (o.stopped (c ∷ h) ≡ true)) ⊎ SeenIn o h

-- A `select` of the run so far has found the stop channel closed.
abbrev pub SawStop : World → Type 0
SawStop w = SeenIn w.outside w.history

-- The tester has no ALB resources.
abbrev pub IsClosed : AlbIngressController → Type 0
IsClosed a = (a.enable && a.created) ≡ false

abbrev pub AlbClosed : World → Type 0
AlbClosed w = IsClosed w.cfg.alb_ingress_controller

-- A stop that has been seen stays seen, and no ALB resources are noted.
pub record Keeps {A : Type 0} (P : Predicate) (m : M A) : Type 0 where
  pub at : (w : World) → Holds P w → Holds P (m w).1
  pub seen : (w : World) → SawStop w → SawStop (m w).1
  pub closed : (w : World) → AlbClosed w → AlbClosed (m w).1

module _ {A : Type 0} (P : World → Type 0) where
  observe_keeps : (r : Result A) (w : World) → P w → P (observe r w).1
  observe_keeps (ok a) w h = h
  observe_keeps (err e) w h = h
  observe_keeps (panic e) w h = h
  observe_keeps hung w h = h

  lift_reply_keeps : (r : Reply A) (w : World) → P w → P (lift_reply r w).1
  lift_reply_keeps (done a) w h = h
  lift_reply_keeps (failed e) w h = h

module _ {A : Type 0} {P : Predicate} where
  pub Keeps-pure : (a : A) → Keeps P (pure a)
  unfolding pure
  Keeps-pure a = record { at = λ w h. h; seen = λ w h. h; closed = λ w h. h }

  pub Keeps-raise : (e : String) → Keeps P (raise {A = A} e)
  unfolding raise
  Keeps-raise e = record { at = λ w h. h; seen = λ w h. h; closed = λ w h. h }

  pub Keeps-crash : (e : String) → Keeps P (crash {A = A} e)
  unfolding crash
  Keeps-crash e = record { at = λ w h. h; seen = λ w h. h; closed = λ w h. h }

  pub Keeps-gets : (f : World → A) → Keeps P (gets f)
  unfolding gets
  Keeps-gets f = record { at = λ w h. h; seen = λ w h. h; closed = λ w h. h }

  pub Keeps-attempt : (m : M A) → Keeps P m → Keeps P (attempt m)
  unfolding attempt
  Keeps-attempt m k = record {
    at = λ w h. observe_keeps (Holds P) (m w).0 (m w).1 (k.at w h);
    seen = λ w h. observe_keeps SawStop (m w).0 (m w).1 (k.seen w h);
    closed = λ w h. observe_keeps AlbClosed (m w).0 (m w).1 (k.closed w h);
  }

  pub Keeps-ask : (c : Call) (f : Outside → History → A) → Keeps P (ask c f)
  unfolding ask
  Keeps-ask c f = record { at = λ w h. h; seen = λ w h. inr h; closed = λ w h. h }

  pub Keeps-call : (c : Call) (f : Outside → History → Reply A) → Keeps P (call c f)
  unfolding call
  Keeps-call c f = record {
    at = λ w h. lift_reply_keeps (Holds P) (f w.outside (c ∷ w.history)) (calling w c) h;
    seen = λ w h. lift_reply_keeps SawStop (f w.outside (c ∷ w.history)) (calling w c) (inr h);
    closed = λ w h. lift_reply_keeps AlbClosed (f w.outside (c ∷ w.history)) (calling w c) h;
  }

  pub Keeps-if : (b : Bool) (m n : M A) → Keeps P m → Keeps P n → Keeps P (if b then m else n)
  Keeps-if true m n g h = g
  Keeps-if false m n g h = h

  pub Keeps-deferring :
      (cleanup : M Unit) (m : M A) → Keeps P cleanup → Keeps P m → Keeps P (deferring cleanup m)
  unfolding deferring
  Keeps-deferring cleanup m c k = record {
    at = λ w h. c.at (m w).1 (k.at w h);
    seen = λ w h. c.seen (m w).1 (k.seen w h);
    closed = λ w h. c.closed (m w).1 (k.closed w h);
  }

module _ {A B : Type 0} {P : Predicate} where
  continue-Keeps :
      (r : Result A) (f : A → M B) (w : World)
      → ((a : A) → Keeps P (f a))
      → Holds P w
      → Holds P (continue r f w).1
  continue-Keeps (ok a) f w k h = (k a).at w h
  continue-Keeps (err e) f w k h = h
  continue-Keeps (panic e) f w k h = h
  continue-Keeps hung f w k h = h

  continue_seen :
      (r : Result A) (f : A → M B) (w : World)
      → ((a : A) → Keeps P (f a))
      → SawStop w
      → SawStop (continue r f w).1
  continue_seen (ok a) f w k h = (k a).seen w h
  continue_seen (err e) f w k h = h
  continue_seen (panic e) f w k h = h
  continue_seen hung f w k h = h

  continue_closed :
      (r : Result A) (f : A → M B) (w : World)
      → ((a : A) → Keeps P (f a))
      → AlbClosed w
      → AlbClosed (continue r f w).1
  continue_closed (ok a) f w k h = (k a).closed w h
  continue_closed (err e) f w k h = h
  continue_closed (panic e) f w k h = h
  continue_closed hung f w k h = h

  pub Keeps-bind :
      (m : M A) (f : A → M B) → Keeps P m → ((a : A) → Keeps P (f a)) → Keeps P (m >>= f)
  unfolding ◌>>=◌
  Keeps-bind m f k l = record {
    at = λ w h. continue-Keeps (m w).0 f (m w).1 l (k.at w h);
    seen = λ w h. continue_seen (m w).0 f (m w).1 l (k.seen w h);
    closed = λ w h. continue_closed (m w).0 f (m w).1 l (k.closed w h);
  }

module _ {P : Predicate} where
  pub Keeps-sleep : (d : ℕ) → Keeps P (sleep d)
  unfolding sleep
  Keeps-sleep d = record { at = λ w h. h; seen = λ w h. h; closed = λ w h. h }

  pub Keeps-modify :
      (f : Config → Config)
      → ((c : Config) → c.cluster_state ≡ (f c).cluster_state)
      → ((c : Config) → c.alb_ingress_controller ≡ (f c).alb_ingress_controller)
      → Keeps P (modify f)
  unfolding modify
  Keeps-modify f same alb = record {
    at = λ w h. subst (P w.outside) (same w.cfg) h;
    seen = λ w h. h;
    closed = λ w h. subst IsClosed (alb w.cfg) h;
  }

  pub Keeps-modify_state :
      (f : ClusterState → ClusterState)
      → ((o : Outside) (s : ClusterState) → P o s → P o (f s))
      → Keeps P (modify_state f)
  unfolding modify_state
  Keeps-modify_state f keep = record {
    at = λ w h. keep w.outside w.cfg.cluster_state h;
    seen = λ w h. h;
    closed = λ w h. h;
  }

  pub Keeps-modify_alb :
      (f : AlbIngressController → AlbIngressController)
      → ((a : AlbIngressController) → IsClosed a → IsClosed (f a))
      → Keeps P (modify_alb f)
  unfolding modify_alb
  Keeps-modify_alb f keep = record {
    at = λ w h. h;
    seen = λ w h. h;
    closed = λ w h. keep w.cfg.alb_ingress_controller h;
  }

  -- What a change makes true stays true under what keeps it.
  pub modify_state_then :
      {B : Type 0} (f : ClusterState → ClusterState) (m : M B) (w : World)
      → P w.outside (f w.cfg.cluster_state)
      → Keeps P m
      → Holds P ((modify_state f >> m) w).1
  unfolding ◌>>=◌ modify_state
  modify_state_then f m w h k = k.at _ h

  pub Keeps-ignore : {A : Type 0} (m : M A) → Keeps P m → Keeps P (ignore m)
  unfolding ignore
  Keeps-ignore m k = Keeps-bind (attempt m) _ (Keeps-attempt m k) (λ _. Keeps-pure tt)

module _ {S : Type 0} (P : World → Type 0) (limit start : ℕ) (body : S → M (Next S))
    (keep : (s : S) (w : World) → P w → P (body s w).1) where
  proceed_keeps :
      (rest : S → M (Finish S)) (r : Result (Next S)) (w : World)
      → ((s : S) → P (rest s w).1)
      → P w
      → P (proceed rest r w).1
  proceed_keeps rest (ok (again s)) w g h = g s
  proceed_keeps rest (ok (stop s)) w g h = h
  proceed_keeps rest (ok leave) w g h = h
  proceed_keeps rest (err e) w g h = h
  proceed_keeps rest (panic e) w g h = h
  proceed_keeps rest hung w g h = h

  poll_from_keeps : (fuel : ℕ) (s : S) (w : World) → P w → P (poll_from fuel start limit body s w).1
  unfolding poll_from
  poll_from_keeps zero s w h = elim (Bool-cases (ltb (w.clock - start) limit)) [
    | inl early ↦ rw (early, poll_from) h
    | inr late ↦ rw (late, poll_from) h
  ]
  poll_from_keeps (suc fuel) s w h = elim (Bool-cases (ltb (w.clock - start) limit)) [
    | inl early ↦
        rw (early, poll_from)
          (proceed_keeps (poll_from fuel start limit body) (body s w).0 (body s w).1
            (λ t. poll_from_keeps fuel t (body s w).1 (keep s w h)) (keep s w h))
    | inr late ↦ rw (late, poll_from) h
  ]

module _ {P : Predicate} where
  pub Keeps-poll :
      {S : Type 0} (limit : ℕ) (body : S → M (Next S)) (s : S)
      → ((s : S) → Keeps P (body s))
      → Keeps P (poll limit body s)
  unfolding poll
  Keeps-poll limit body s keep = record {
    at = λ w h. poll_from_keeps (Holds P) limit w.clock body (λ t. (keep t).at) limit s w h;
    seen = λ w h. poll_from_keeps SawStop limit w.clock body (λ t. (keep t).seen) limit s w h;
    closed = λ w h. poll_from_keeps AlbClosed limit w.clock body (λ t. (keep t).closed) limit s w h;
  }

  set_absolute-Keeps : (r : Reply String) → Keeps P (set_absolute r)
  unfolding set_absolute
  set_absolute-Keeps (done p) = Keeps-modify _ (λ c. refl) (λ c. refl)
  set_absolute-Keeps (failed e) =
      Keeps-bind _ _ (Keeps-modify _ (λ c. refl) (λ c. refl)) (λ _. Keeps-raise e)

  write_to_disk-Keeps : (r : Writing) → Keeps P (write_to_disk r)
  unfolding write_to_disk
  write_to_disk-Keeps wrote = record { at = λ w h. h; seen = λ w h. h; closed = λ w h. h }
  write_to_disk-Keeps (not_opened e) = record { at = λ w h. h; seen = λ w h. h; closed = λ w h. h }
  write_to_disk-Keeps (truncated e) = record { at = λ w h. h; seen = λ w h. h; closed = λ w h. h }

module _ {A : Type 0} {P : Predicate} where
  pub Keeps-for_each :
      (xs : List A) (body : A → M Unit) → ((x : A) → Keeps P (body x)) → Keeps P (for_each xs body)
  unfolding for_each
  Keeps-for_each [] body k = Keeps-pure tt
  Keeps-for_each (x ∷ xs) body k = Keeps-bind (body x) _ (k x) (λ _. Keeps-for_each xs body k)

  pub Keeps-rounds :
      (n : ℕ) (round : M A → M A) (last : M A)
      → ((rest : M A) → Keeps P rest → Keeps P (round rest))
      → Keeps P last
      → Keeps P (rounds n round last)
  unfolding rounds
  Keeps-rounds zero round last step l = l
  Keeps-rounds (suc n) round last step l =
      step (rounds n round last) (Keeps-rounds n round last step l)

pub ruleset keeps_rules = (
  Keeps-pure, Keeps-raise, Keeps-crash, Keeps-gets, Keeps-attempt, Keeps-ask, Keeps-call, Keeps-if,
  Keeps-bind, Keeps-for_each, Keeps-sleep, Keeps-deferring, Keeps-modify, Keeps-modify_state,
  Keeps-modify_alb, Keeps-ignore, Keeps-poll,
)

module _ {P : Predicate} where
  make_absolute-Keeps : (path : String) → Keeps P (make_absolute path)
  unfolding make_absolute
  make_absolute-Keeps path = search (keeps_rules, set_absolute-Keeps)

  pub Keeps-sync : Keeps P sync
  unfolding sync
  Keeps-sync = search (keeps_rules, make_absolute-Keeps, write_to_disk-Keeps) depth 10
