-- ===== src/Runtime/Always.antt =====
-- What holds after every way out of an action but a panic.
use aws_k8s_tester.Common.{Bool, true, false, if◌then◌else◌}
use aws_k8s_tester.Config.{AlbIngressController}
use aws_k8s_tester.Runtime.Action.{
  Result, ok, err, panic, hung, World, M, pure, gets, observe, attempt, continue, ◌>>=◌, modify_alb,
  ignore,
}

-- The action has returned, with or without an error.
abbrev pub Returns {ℓ} : {A : Type ℓ} → Result A → Type 0
Returns (ok a) = Unit
Returns (err e) = Unit
Returns (panic e) = ⊥
Returns hung = ⊥

abbrev pub NotErr {ℓ} : {A : Type ℓ} → Result A → Type 0
NotErr (err e) = ⊥
NotErr (ok a) = Unit
NotErr (panic e) = Unit
NotErr hung = Unit

pub record Always {A : Type 0} (P : World → Type 0) (m : M A) : Type 0 where
  pub at : (w : World) → Returns (m w).0 → P (m w).1

-- The action returns no error: what it runs is wrapped by `attempt`.
pub record Sure {A : Type 0} (m : M A) : Type 0 where
  pub at : (w : World) → NotErr (m w).0

module _ {A : Type 0} where
  pub Sure-pure : (a : A) → Sure (pure a)
  unfolding pure
  Sure-pure a = record { at = λ w. tt }

  pub Sure-gets : (f : World → A) → Sure (gets f)
  unfolding gets
  Sure-gets f = record { at = λ w. tt }

  observe-NotErr : (r : Result A) (w : World) → NotErr (observe r w).0
  observe-NotErr (ok a) w = tt
  observe-NotErr (err e) w = tt
  observe-NotErr (panic e) w = tt
  observe-NotErr hung w = tt

  pub Sure-attempt : (m : M A) → Sure (attempt m)
  unfolding attempt
  Sure-attempt m = record { at = λ w. observe-NotErr (m w).0 (m w).1 }

  pub Sure-if : (b : Bool) (m n : M A) → Sure m → Sure n → Sure (if b then m else n)
  Sure-if true m n s t = s
  Sure-if false m n s t = t

  pub Always-of : {P : World → Type 0} (m : M A) → ((w : World) → P (m w).1) → Always P m
  Always-of m h = record { at = λ w _. h w }

  observe_Always :
      (P : World → Type 0) (r : Result A) (w : World)
      → (Returns r → P w)
      → Returns (observe r w).0
      → P (observe r w).1
  observe_Always P (ok a) w h t = h tt
  observe_Always P (err e) w h t = h tt
  observe_Always P (panic e) w h t = h t
  observe_Always P hung w h t = h t

  pub Always-attempt : {P : World → Type 0} (m : M A) → Always P m → Always P (attempt m)
  unfolding attempt
  Always-attempt {P} m a = record { at = λ w t. observe_Always P (m w).0 (m w).1 (a.at w) t }

pub Sure-modify_alb : (f : AlbIngressController → AlbIngressController) → Sure (modify_alb f)
unfolding modify_alb
Sure-modify_alb f = record { at = λ w. tt }

module _ {A B : Type 0} where
  continue-NotErr :
      (r : Result A) (f : A → M B) (w : World)
      → NotErr r
      → ((a : A) → Sure (f a))
      → NotErr (continue r f w).0
  continue-NotErr (ok a) f w h s = (s a).at w
  continue-NotErr (err e) f w h s = h
  continue-NotErr (panic e) f w h s = tt
  continue-NotErr hung f w h s = tt

  pub Sure-bind : (m : M A) (f : A → M B) → Sure m → ((a : A) → Sure (f a)) → Sure (m >>= f)
  unfolding ◌>>=◌
  Sure-bind m f s t = record { at = λ w. continue-NotErr (m w).0 f (m w).1 (s.at w) t }

  continue_later :
      {P : World → Type 0} (r : Result A) (f : A → M B) (w : World)
      → NotErr r
      → ((a : A) → Always P (f a))
      → Returns (continue r f w).0
      → P (continue r f w).1
  continue_later (ok a) f w s g t = (g a).at w t
  continue_later (err e) f w s g t = absurd s
  continue_later (panic e) f w s g t = absurd t
  continue_later hung f w s g t = absurd t

  continue_first :
      {P : World → Type 0} (r : Result A) (f : A → M B) (w : World)
      → (Returns r → P w)
      → ((a : A) (v : World) → P v → P (f a v).1)
      → Returns (continue r f w).0
      → P (continue r f w).1
  continue_first (ok a) f w h k t = k a w (h tt)
  continue_first (err e) f w h k t = h tt
  continue_first (panic e) f w h k t = absurd t
  continue_first hung f w h k t = absurd t

  -- What comes later makes it true, and what comes before cannot fail.
  pub Always-later :
      {P : World → Type 0} (m : M A) (f : A → M B)
      → Sure m
      → ((a : A) → Always P (f a))
      → Always P (m >>= f)
  unfolding ◌>>=◌
  Always-later m f s g = record { at = λ w t. continue_later (m w).0 f (m w).1 (s.at w) g t }

  -- What comes first makes it true, and the rest keeps it.
  pub Always-first :
      {P : World → Type 0} (m : M A) (f : A → M B)
      → Always P m
      → ((a : A) (v : World) → P v → P (f a v).1)
      → Always P (m >>= f)
  unfolding ◌>>=◌
  Always-first m f a k = record { at = λ w t. continue_first (m w).0 f (m w).1 (a.at w) k t }

pub Sure-ignore : {A : Type 0} (m : M A) → Sure (ignore m)
unfolding ignore
Sure-ignore m = Sure-bind (attempt m) _ (Sure-attempt m) (λ _. Sure-pure tt)

pub ruleset sure_rules =
    (Sure-pure, Sure-gets, Sure-attempt, Sure-if, Sure-modify_alb, Sure-bind, Sure-ignore)
