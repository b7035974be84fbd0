-- ===== src/Runtime/Triple.antt =====
-- What holds after an action that succeeds, and of its value, unless a `select` of the run has found
-- the stop channel closed. `Predicate`s are of the services and of the cluster's state.
use aws_k8s_tester.Common.{
  ℕ, zero, suc, ◌-◌, String, Bool, true, false, ◌≡◌, refl, ◌∷◌, ◌⊎◌, inl, inr, ltb, if◌then◌else◌,
  Bool-cases, subst,
}
use aws_k8s_tester.Config.{ClusterState}
use aws_k8s_tester.Runtime.Outside.{Call, Outside}
use aws_k8s_tester.Runtime.Action.{
  Result, ok, err, panic, hung, World, M, pure, raise, crash, continue, ◌>>=◌, ask, calling,
  deferring,
}
use aws_k8s_tester.Runtime.Poll.{
  Next, again, stop, leave, Finish, ended, left, proceed, poll_from, poll,
}
use aws_k8s_tester.Runtime.Keeps.{Predicate, Holds, Keeps, IsStopc, SawStop}

abbrev pub OrSeen : Predicate → World → Type 0
OrSeen P w = Holds P w ⊎ SawStop w

-- A value has the postcondition; an error, a panic or an endless loop has none.
abbrev pub Post : {A : Type 0} → (A → Predicate) → Result A → World → Type 0
Post Q (ok a) w = OrSeen (Q a) w
Post Q (err e) w = Unit
Post Q (panic e) w = Unit
Post Q hung w = Unit

Post-ok :
    {A : Type 0} (Q : A → Predicate) (a : A) (r : Result A) (w : World)
    → r ≡ ok a
    → Post Q r w
    → OrSeen (Q a) w
Post-ok Q a r w e h = subst (λ x. Post Q x w) e h

pub record Triple {A : Type 0} (P : Predicate) (m : M A) (Q : A → Predicate) : Type 0 where
  pub at : (w : World) → OrSeen P w → Post Q (m w).0 (m w).1

pub Triple-ok :
    {A : Type 0} {P : Predicate} {m : M A} {Q : A → Predicate} (a : A) (w : World)
    → Triple P m Q
    → OrSeen P w
    → (m w).0 ≡ ok a
    → OrSeen (Q a) (m w).1
Triple-ok a w t h e = Post-ok _ a _ _ e (t.at w h)

or_seen : (P Q : Predicate) (w : World) → (Holds P w → Holds Q w) → OrSeen P w → OrSeen Q w
or_seen P Q w f (inl h) = inl (f h)
or_seen P Q w f (inr s) = inr s

abbrev pub Any : Predicate
Any o s = Unit

module _ {A : Type 0} {P : Predicate} {Q : A → Predicate} where
  pub Triple-raise : (e : String) → Triple P (raise e) Q
  unfolding raise
  Triple-raise e = record { at = λ w h. tt }

  pub Triple-crash : (e : String) → Triple P (crash e) Q
  unfolding crash
  Triple-crash e = record { at = λ w h. tt }

  pub Triple-pure : (a : A) → ((w : World) → Holds P w → Holds (Q a) w) → Triple P (pure a) Q
  unfolding pure
  Triple-pure a f = record { at = λ w h. or_seen P (Q a) w (f w) h }

  pub Triple-if :
      (b : Bool) (m n : M A) → Triple P m Q → Triple P n Q → Triple P (if b then m else n) Q
  Triple-if true m n s t = s
  Triple-if false m n s t = t

Keeps-Post :
    {A : Type 0} (P : Predicate) (r : Result A) (w : World) → OrSeen P w → Post (λ _. P) r w
Keeps-Post P (ok a) w h = h
Keeps-Post P (err e) w h = tt
Keeps-Post P (panic e) w h = tt
Keeps-Post P hung w h = tt

kept :
    {A : Type 0} (P : Predicate) (m : M A) (w : World) → Keeps P m → OrSeen P w → OrSeen P (m w).1
kept P m w k (inl h) = inl (k.at w h)
kept P m w k (inr h) = inr (k.seen w h)

pub Triple-Keeps : {A : Type 0} {P : Predicate} (m : M A) → Keeps P m → Triple P m (λ _. P)
Triple-Keeps m k = record { at = λ w h. Keeps-Post _ (m w).0 (m w).1 (kept _ m w k h) }

Any-Post : {A : Type 0} (r : Result A) (w : World) → Post (λ _. Any) r w
Any-Post (ok a) w = inl tt
Any-Post (err e) w = tt
Any-Post (panic e) w = tt
Any-Post hung w = tt

pub Triple-Any : {A : Type 0} {P : Predicate} (m : M A) → Triple P m (λ _. Any)
Triple-Any m = record { at = λ w h. Any-Post (m w).0 (m w).1 }

module _ {A B : Type 0} (Q : A → Predicate) {R : B → Predicate} where
  continue-Post :
      (r : Result A) (f : A → M B) (w : World)
      → Post Q r w
      → ((a : A) → Triple (Q a) (f a) R)
      → Post R (continue r f w).0 (continue r f w).1
  continue-Post (ok a) f w h t = (t a).at w h
  continue-Post (err e) f w h t = tt
  continue-Post (panic e) f w h t = tt
  continue-Post hung f w h t = tt

  pub Triple-bind :
      {P : Predicate} (m : M A) (f : A → M B)
      → Triple P m Q
      → ((a : A) → Triple (Q a) (f a) R)
      → Triple P (m >>= f) R
  unfolding ◌>>=◌
  Triple-bind m f s t = record { at = λ w h. continue-Post (m w).0 f (m w).1 (s.at w h) t }

-- What a round of a loop promises when it leaves the loop, for the operation around it.
abbrev pub OnLeave : {S : Type 0} → Predicate → Next S → Predicate
OnLeave L (again s) = Any
OnLeave L (stop s) = Any
OnLeave L leave = L

abbrev pub OnLeft : {S : Type 0} → Predicate → Finish S → Predicate
OnLeft L (ended s) = Any
OnLeft L left = L

module _ {S : Type 0} {L : Predicate} (limit start : ℕ) (body : S → M (Next S))
    (round : (s : S) → Triple Any (body s) (OnLeave L)) where
  proceed-Post :
      (rest : S → M (Finish S)) (r : Result (Next S)) (w : World)
      → ((s : S) → Post (OnLeft L) (rest s w).0 (rest s w).1)
      → Post (OnLeave L) r w
      → Post (OnLeft L) (proceed rest r w).0 (proceed rest r w).1
  proceed-Post rest (ok (again s)) w g h = g s
  proceed-Post rest (ok (stop s)) w g h = inl tt
  proceed-Post rest (ok leave) w g h = h
  proceed-Post rest (err e) w g h = tt
  proceed-Post rest (panic e) w g h = tt
  proceed-Post rest hung w g h = tt

  poll_from-Post :
      (fuel : ℕ) (s : S) (w : World)
      → Post
          (OnLeft L)
          (poll_from fuel start limit body s w).0
          (poll_from fuel start limit body s w).1
  unfolding poll_from
  poll_from-Post zero s w = elim (Bool-cases (ltb (w.clock - start) limit)) [
    | inl early ↦ rw (early, poll_from) tt
    | inr late ↦ rw (late, poll_from) (inl tt)
  ]
  poll_from-Post (suc fuel) s w = elim (Bool-cases (ltb (w.clock - start) limit)) [
    | inl early ↦
        rw (early, poll_from)
          (proceed-Post (poll_from fuel start limit body) (body s w).0 (body s w).1
            (λ t. poll_from-Post fuel t (body s w).1) ((round s).at w (inl tt)))
    | inr late ↦ rw (late, poll_from) (inl tt)
  ]

-- A loop that is left was left by one of its rounds.
pub Triple-poll :
    {S : Type 0} {L : Predicate} (limit : ℕ) (body : S → M (Next S)) (s : S)
    → ((s : S) → Triple Any (body s) (OnLeave L))
    → Triple Any (poll limit body s) (OnLeft L)
unfolding poll
Triple-poll limit body s round = record {
  at = λ w h. poll_from-Post limit w.clock body round limit s w;
}

module _ {A B : Type 0} {P : Predicate} {R : B → Predicate} where
  -- What comes first does not matter.
  pub Triple-then : (m : M A) (f : A → M B) → ((a : A) → Triple Any (f a) R) → Triple P (m >>= f) R
  Triple-then m f t = Triple-bind (λ _. Any) m f (Triple-Any m) t

module _ {S : Type 0} {P L : Predicate} where
  pub Triple-again : (s : S) → Triple P (pure (again s)) (OnLeave L)
  Triple-again s = Triple-pure (again s) (λ w h. tt)

  pub Triple-stop : (s : S) → Triple P (pure (stop s)) (OnLeave L)
  Triple-stop s = Triple-pure (stop s) (λ w h. tt)

abbrev pub Never : Predicate
Never o s = ⊥

abbrev pub IfStopped : Bool → Predicate
IfStopped true = Never
IfStopped false = Any

asked_seen :
    (b : Bool) (c : Call) (w : World)
    → IsStopc c
    → w.outside.stopped (c ∷ w.history) ≡ b
    → OrSeen (IfStopped b) (calling w c)
unfolding calling
asked_seen true c w is e = inr (inl (is, e))
asked_seen false c w is e = inl tt

Triple-stopc : {P : Predicate} (c : Call) → IsStopc c → Triple P (ask c (λ o. o.stopped)) IfStopped
unfolding ask
Triple-stopc c is = record { at = λ w h. asked_seen _ c w is refl }

Triple-if-IfStopped :
    {A : Type 0} {R : A → Predicate} (b : Bool) (m n : M A)
    → Triple Never m R
    → Triple Any n R
    → Triple (IfStopped b) (if b then m else n) R
Triple-if-IfStopped true m n s t = s
Triple-if-IfStopped false m n s t = t

-- `select { case <-md.stopc: …; … }`
pub Triple-select :
    {A : Type 0} {P : Predicate} {R : A → Predicate} (c : Call) (m n : M A)
    → IsStopc c
    → Triple Never m R
    → Triple Any n R
    → Triple P (ask c (λ o. o.stopped) >>= λ b. if b then m else n) R
Triple-select c m n is s t =
    Triple-bind IfStopped _ _ (Triple-stopc c is) (λ b. Triple-if-IfStopped b m n s t)

pub ruleset triple_rules = (Triple-raise, Triple-if, Triple-again, Triple-stop, Triple-then)

deferring-Post :
    {A : Type 0} (Q : A → Predicate) (cleanup : M (Unit {0})) (r : Result A) (w : World)
    → ((a : A) → Keeps (Q a) cleanup)
    → Post Q r w
    → Post Q r (cleanup w).1
deferring-Post Q cleanup (ok a) w k h = kept (Q a) cleanup w (k a) h
deferring-Post Q cleanup (err e) w k h = tt
deferring-Post Q cleanup (panic e) w k h = tt
deferring-Post Q cleanup hung w k h = tt

pub Triple-deferring :
    {A : Type 0} {P : Predicate} {Q : A → Predicate} (cleanup : M (Unit {0})) (m : M A)
    → ((a : A) → Keeps (Q a) cleanup)
    → Triple P m Q
    → Triple P (deferring cleanup m) Q
unfolding deferring
Triple-deferring cleanup m k t = record {
  at = λ w h. deferring-Post _ cleanup (m w).0 (m w).1 k (t.at w h);
}

both-OrSeen :
    (Q R S : Predicate) (w : World)
    → ((o : Outside) (s : ClusterState) → Q o s → R o s → S o s)
    → OrSeen Q w
    → OrSeen R w
    → OrSeen S w
both-OrSeen Q R S w f (inl g) (inl h) = inl (f w.outside w.cfg.cluster_state g h)
both-OrSeen Q R S w f (inl g) (inr h) = inr h
both-OrSeen Q R S w f (inr g) h = inr g

Post-and :
    {A : Type 0} (Q R S : Predicate) (r : Result A) (w : World)
    → ((o : Outside) (s : ClusterState) → Q o s → R o s → S o s)
    → Post (λ _. Q) r w
    → Post (λ _. R) r w
    → Post (λ _. S) r w
Post-and Q R S (ok a) w f g h = both-OrSeen Q R S w f g h
Post-and Q R S (err e) w f g h = tt
Post-and Q R S (panic e) w f g h = tt
Post-and Q R S hung w f g h = tt

-- Two postconditions of one action, taken together.
pub Triple-and :
    {A : Type 0} {P Q R S : Predicate} (m : M A)
    → Triple P m (λ _. Q)
    → Triple Any m (λ _. R)
    → ((o : Outside) (s : ClusterState) → Q o s → R o s → S o s)
    → Triple P m (λ _. S)
Triple-and m t u f = record {
  at = λ w h. Post-and _ _ _ (m w).0 (m w).1 f (t.at w h) (u.at w (inl tt));
}
