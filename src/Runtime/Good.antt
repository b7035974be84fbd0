-- ===== src/Runtime/Good.antt =====
-- Actions that come to an end and never turn the clock back, a rule for each way to build one.
use aws_k8s_tester.Common.{
  ℕ, zero, suc, ◌+◌, ◌-◌, ◌≤◌, ◌<◌, String, Bool, true, false, ◌≡◌, refl, List, [], ◌∷◌, inl, inr,
  arith, ltb, if◌then◌else◌, Bool-cases, ltb→lt,
}
use aws_k8s_tester.Config.{Config, ClusterState, AlbIngressController}
use aws_k8s_tester.Runtime.Outside.{
  Writing, wrote, not_opened, truncated, Reply, done, failed, Call, History, Outside,
}
use aws_k8s_tester.Runtime.Action.{
  Result, ok, err, panic, hung, World, M, pure, raise, crash, gets, for_each, rounds, lift_reply,
  observe, attempt, continue, ◌>>=◌, deferring, ask, call, sleep, modify, modify_state, modify_alb,
  ignore, calling, set_absolute, make_absolute, write_to_disk, sync,
}
use aws_k8s_tester.Runtime.Poll.{Next, again, stop, leave, Finish, proceed, poll_from, poll}

abbrev pub Ends {ℓ} : {A : Type ℓ} → Result A → Type 0
Ends (ok a) = Unit
Ends (err e) = Unit
Ends (panic e) = Unit
Ends hung = ⊥

pub record Good {A : Type 0} (m : M A) : Type 0 where
  pub ends : (w : World) → Ends (m w).0
  pub later : (w : World) → w.clock ≤ (m w).1.clock

-- A good action that takes time.
pub record Busy {A : Type 0} (m : M A) : Type 0 where
  pub ends : (w : World) → Ends (m w).0
  pub later : (w : World) → w.clock < (m w).1.clock

module _ {A : Type 0} where
  pub Busy-Good : {m : M A} → Busy m → Good m
  Busy-Good b = record { ends = b.ends; later = λ w. omega (arith, b.later w) }

  pub Good-pure : (a : A) → Good (pure a)
  unfolding pure
  Good-pure a = record { ends = λ w. tt; later = λ w. omega arith }

  pub Good-raise : (e : String) → Good (raise {A = A} e)
  unfolding raise
  Good-raise e = record { ends = λ w. tt; later = λ w. omega arith }

  pub Good-crash : (e : String) → Good (crash {A = A} e)
  unfolding crash
  Good-crash e = record { ends = λ w. tt; later = λ w. omega arith }

  pub Good-gets : (f : World → A) → Good (gets f)
  unfolding gets
  Good-gets f = record { ends = λ w. tt; later = λ w. omega arith }

  observe-Ends : (r : Result A) (w : World) → Ends r → Ends (observe r w).0
  observe-Ends (ok a) w h = tt
  observe-Ends (err e) w h = tt
  observe-Ends (panic e) w h = tt
  observe-Ends hung w h = h

  observe_clock : (r : Result A) (w : World) → (observe r w).1.clock ≡ w.clock
  observe_clock (ok a) w = refl
  observe_clock (err e) w = refl
  observe_clock (panic e) w = refl
  observe_clock hung w = refl

  pub Good-attempt : (m : M A) → Good m → Good (attempt m)
  unfolding attempt
  Good-attempt m g = record {
    ends = λ w. observe-Ends (m w).0 (m w).1 (g.ends w);
    later = λ w. omega (arith, g.later w, observe_clock (m w).0 (m w).1);
  }

  pub Busy-attempt : (m : M A) → Busy m → Busy (attempt m)
  unfolding attempt
  Busy-attempt m g = record {
    ends = λ w. observe-Ends (m w).0 (m w).1 (g.ends w);
    later = λ w. omega (arith, g.later w, observe_clock (m w).0 (m w).1);
  }

  pub Busy-ask : (c : Call) (f : Outside → History → A) → Busy (ask c f)
  unfolding ask
  Busy-ask c f = record { ends = λ w. tt; later = λ w. omega arith }

  lift_reply-Ends : (r : Reply A) (w : World) → Ends (lift_reply r w).0
  lift_reply-Ends (done a) w = tt
  lift_reply-Ends (failed e) w = tt

  lift_reply_clock : (r : Reply A) (w : World) → (lift_reply r w).1.clock ≡ w.clock
  lift_reply_clock (done a) w = refl
  lift_reply_clock (failed e) w = refl

  pub Busy-call : (c : Call) (f : Outside → History → Reply A) → Busy (call c f)
  unfolding call
  Busy-call c f = record {
    ends = λ w. lift_reply-Ends (f w.outside (c ∷ w.history)) (calling w c);
    later = λ w. omega (arith, lift_reply_clock (f w.outside (c ∷ w.history)) (calling w c));
  }

  pub Good-if : (b : Bool) (m n : M A) → Good m → Good n → Good (if b then m else n)
  Good-if true m n g h = g
  Good-if false m n g h = h

  pub Good-deferring :
      (cleanup : M Unit) (m : M A) → Good cleanup → Good m → Good (deferring cleanup m)
  unfolding deferring
  Good-deferring cleanup m c g = record {
    ends = λ w. g.ends w;
    later = λ w. omega (arith, g.later w, c.later (m w).1);
  }

module _ {A B : Type 0} where
  continue-Ends :
      (r : Result A) (f : A → M B) (w : World)
      → Ends r
      → ((a : A) → Good (f a))
      → Ends (continue r f w).0
  continue-Ends (ok a) f w h g = (g a).ends w
  continue-Ends (err e) f w h g = tt
  continue-Ends (panic e) f w h g = tt
  continue-Ends hung f w h g = h

  continue_later :
      (r : Result A) (f : A → M B) (w : World)
      → ((a : A) → Good (f a))
      → w.clock ≤ (continue r f w).1.clock
  continue_later (ok a) f w g = (g a).later w
  continue_later (err e) f w g = omega arith
  continue_later (panic e) f w g = omega arith
  continue_later hung f w g = omega arith

  pub Good-bind : (m : M A) (f : A → M B) → Good m → ((a : A) → Good (f a)) → Good (m >>= f)
  unfolding ◌>>=◌
  Good-bind m f g h = record {
    ends = λ w. continue-Ends (m w).0 f (m w).1 (g.ends w) h;
    later = λ w. omega (arith, g.later w, continue_later (m w).0 f (m w).1 h);
  }

  pub Busy-bind : (m : M A) (f : A → M B) → Busy m → ((a : A) → Good (f a)) → Busy (m >>= f)
  unfolding ◌>>=◌
  Busy-bind m f g h = record {
    ends = λ w. continue-Ends (m w).0 f (m w).1 (g.ends w) h;
    later = λ w. omega (arith, g.later w, continue_later (m w).0 f (m w).1 h);
  }

  -- Reading the state takes no time and does not fail.
  pub Busy-bind_gets : (f : World → A) (k : A → M B) → ((a : A) → Busy (k a)) → Busy (gets f >>= k)
  unfolding ◌>>=◌ gets
  Busy-bind_gets f k b = record { ends = λ w. (b (f w)).ends w; later = λ w. (b (f w)).later w }

pub Good-sleep : (d : ℕ) → Good (sleep d)
unfolding sleep
Good-sleep d = record { ends = λ w. tt; later = λ w. omega arith }

pub Good-modify : (f : Config → Config) → Good (modify f)
unfolding modify
Good-modify f = record { ends = λ w. tt; later = λ w. omega arith }

pub Good-modify_state : (f : ClusterState → ClusterState) → Good (modify_state f)
unfolding modify_state
Good-modify_state f = record { ends = λ w. tt; later = λ w. omega arith }

pub Good-modify_alb : (f : AlbIngressController → AlbIngressController) → Good (modify_alb f)
unfolding modify_alb
Good-modify_alb f = record { ends = λ w. tt; later = λ w. omega arith }

pub Good-call : {A : Type 0} (c : Call) (f : Outside → History → Reply A) → Good (call c f)
Good-call c f = Busy-Good (Busy-call c f)

pub Good-ask : {A : Type 0} (c : Call) (f : Outside → History → A) → Good (ask c f)
Good-ask c f = Busy-Good (Busy-ask c f)

pub Good-ignore : {A : Type 0} (m : M A) → Good m → Good (ignore m)
unfolding ignore
Good-ignore m g = Good-bind (attempt m) _ (Good-attempt m g) (λ _. Good-pure tt)

module _ {S : Type 0} (limit start : ℕ) (body : S → M (Next S))
    (busy : (s : S) → Busy (body s)) where
  proceed-Ends :
      (rest : S → M (Finish S)) (r : Result (Next S)) (w : World)
      → ((s : S) → Ends (rest s w).0)
      → Ends r
      → Ends (proceed rest r w).0
  proceed-Ends rest (ok (again s)) w g h = g s
  proceed-Ends rest (ok (stop s)) w g h = tt
  proceed-Ends rest (ok leave) w g h = tt
  proceed-Ends rest (err e) w g h = tt
  proceed-Ends rest (panic e) w g h = tt
  proceed-Ends rest hung w g h = h

  proceed_later :
      (rest : S → M (Finish S)) (r : Result (Next S)) (w : World)
      → ((s : S) → w.clock ≤ (rest s w).1.clock)
      → w.clock ≤ (proceed rest r w).1.clock
  proceed_later rest (ok (again s)) w g = g s
  proceed_later rest (ok (stop s)) w g = omega arith
  proceed_later rest (ok leave) w g = omega arith
  proceed_later rest (err e) w g = omega arith
  proceed_later rest (panic e) w g = omega arith
  proceed_later rest hung w g = omega arith

  -- Fuel for the time that is left is enough, since a round takes time.
  poll_from-Ends :
      (fuel : ℕ) (s : S) (w : World)
      → limit + start ≤ fuel + w.clock
      → Ends (poll_from fuel start limit body s w).0
  unfolding poll_from
  poll_from-Ends zero s w enough = elim (Bool-cases (ltb (w.clock - start) limit)) [
    | inl early ↦ absurd (omega (arith, ltb→lt _ _ early))
    | inr late ↦ rw (late, poll_from) tt
  ]
  poll_from-Ends (suc fuel) s w enough = elim (Bool-cases (ltb (w.clock - start) limit)) [
    | inl early ↦
        rw (early, poll_from)
          (proceed-Ends (poll_from fuel start limit body) (body s w).0 (body s w).1
            (λ t. poll_from-Ends fuel t (body s w).1 (omega (arith, (busy s).later w)))
            ((busy s).ends w))
    | inr late ↦ rw (late, poll_from) tt
  ]

  poll_from_later :
      (fuel : ℕ) (s : S) (w : World) → w.clock ≤ (poll_from fuel start limit body s w).1.clock
  unfolding poll_from
  poll_from_later zero s w = elim (Bool-cases (ltb (w.clock - start) limit)) [
    | inl early ↦ rw (early, poll_from) (omega arith)
    | inr late ↦ rw (late, poll_from) (omega arith)
  ]
  poll_from_later (suc fuel) s w = elim (Bool-cases (ltb (w.clock - start) limit)) [
    | inl early ↦
        rw (early, poll_from)
          (omega (
            arith,
            (busy s).later w,
            proceed_later (poll_from fuel start limit body) (body s w).0 (body s w).1
                (λ t. poll_from_later fuel t (body s w).1),
          ))
    | inr late ↦ rw (late, poll_from) (omega arith)
  ]

pub Good-poll :
    {S : Type 0} (limit : ℕ) (body : S → M (Next S)) (s : S)
    → ((s : S) → Busy (body s))
    → Good (poll limit body s)
unfolding poll
Good-poll limit body s busy = record {
  ends = λ w. poll_from-Ends limit w.clock body busy limit s w (omega arith);
  later = λ w. poll_from_later limit w.clock body busy limit s w;
}

module _ {A : Type 0} where
  pub Good-for_each :
      (xs : List A) (body : A → M Unit) → ((x : A) → Good (body x)) → Good (for_each xs body)
  unfolding for_each
  Good-for_each [] body k = Good-pure tt
  Good-for_each (x ∷ xs) body k = Good-bind (body x) _ (k x) (λ _. Good-for_each xs body k)

  pub Good-rounds :
      (n : ℕ) (round : M A → M A) (last : M A)
      → ((rest : M A) → Good rest → Good (round rest))
      → Good last
      → Good (rounds n round last)
  unfolding rounds
  Good-rounds zero round last step l = l
  Good-rounds (suc n) round last step l =
      step (rounds n round last) (Good-rounds n round last step l)

pub ruleset good_rules = (
  Good-pure, Good-raise, Good-crash, Good-gets, Good-attempt, Good-ask, Good-call, Good-if,
  Good-bind, Good-for_each, Good-sleep, Good-deferring, Good-modify, Good-modify_state,
  Good-modify_alb, Good-ignore, Good-poll,
)

pub ruleset busy_rules = (Busy-ask, Busy-call, Busy-attempt, Busy-bind, Busy-bind_gets)

set_absolute-Good : (r : Reply String) → Good (set_absolute r)
unfolding set_absolute
set_absolute-Good (done p) = search good_rules
set_absolute-Good (failed e) = search good_rules

make_absolute-Good : (path : String) → Good (make_absolute path)
unfolding make_absolute
make_absolute-Good path = search (good_rules, set_absolute-Good)

write_to_disk-Good : (r : Writing) → Good (write_to_disk r)
unfolding write_to_disk
write_to_disk-Good wrote = record { ends = λ w. tt; later = λ w. omega arith }
write_to_disk-Good (not_opened e) = record { ends = λ w. tt; later = λ w. omega arith }
write_to_disk-Good (truncated e) = record { ends = λ w. tt; later = λ w. omega arith }

pub Good-sync : Good sync
unfolding sync
Good-sync = search (good_rules, make_absolute-Good, write_to_disk-Good) depth 10
