-- ===== src/Runtime/Stage.antt =====
-- What holds after an action that may fail but neither panics nor hangs, and that leaves the file of
-- the configuration alone: its value and the configuration after a success.
use aws_k8s_tester.Common.{
  ℕ, String, Bool, true, false, ◌≡◌, refl, ◌∷◌, ◌⊎◌, inl, inr, ap, none, some, if◌then◌else◌,
}
use aws_k8s_tester.Config.{Config, AlbIngressController}
use aws_k8s_tester.Runtime.Outside.{
  Writing, wrote, not_opened, truncated, Reply, done, failed, Call, History, Outside,
}
use aws_k8s_tester.Runtime.Action.{
  Files, put, Result, ok, err, panic, hung, World, M, pure, raise, gets, attempt, observe,
  lift_reply, continue, ◌>>=◌, ask, call, calling, modify, modify_alb, ignore, set_absolute,
  make_absolute, write_to_disk, sync,
}

-- The file holds what it held at first, and the configuration has a property.
pub record Stage (s : Files) (C : Config → Type 0) (w : World) : Type 0 where
  pub unsaved : w.saved ≡ s
  pub holds : C w.cfg

abbrev pub After : {A : Type 0} → Files → (A → Config → Type 0) → Result A → World → Type 0
After s D (ok a) w = Stage s (D a) w
After s D (err e) w = w.saved ≡ s
After s D (panic e) w = ⊥
After s D hung w = ⊥

pub record Leads {A : Type 0} (s : Files) (C : Config → Type 0) (m : M A) (D : A → Config → Type 0)
    : Type 0 where
  pub at : (w : World) → Stage s C w → After s D (m w).0 (m w).1

module _ {A : Type 0} {s : Files} {C : Config → Type 0} {D : A → Config → Type 0} where
  pub Leads-pure : (a : A) → ((c : Config) → C c → D a c) → Leads s C (pure a) D
  unfolding pure
  Leads-pure a f = record { at = λ w h. record { unsaved = h.unsaved; holds = f w.cfg h.holds } }

  pub Leads-raise : (e : String) → Leads s C (raise e) D
  unfolding raise
  Leads-raise e = record { at = λ w h. h.unsaved }

  -- A branch knows how the test ended.
  pub Leads-if :
      (b : Bool) (m n : M A)
      → (b ≡ true → Leads s C m D)
      → (b ≡ false → Leads s C n D)
      → Leads s C (if b then m else n) D
  Leads-if true m n g h = g refl
  Leads-if false m n g h = h refl

  Leads-either :
      (b : Bool) (m n : M A) → Leads s C m D → Leads s C n D → Leads s C (if b then m else n) D
  Leads-either b m n g h = Leads-if b m n (λ _. g) (λ _. h)

module _ {A : Type 0} {D E : A → Config → Type 0} where
  weaken-After :
      (s : Files) (r : Result A) (w : World)
      → ((a : A) (c : Config) → D a c → E a c)
      → After s D r w
      → After s E r w
  weaken-After s (ok a) w f h = record { unsaved = h.unsaved; holds = f a w.cfg h.holds }
  weaken-After s (err e) w f h = h
  weaken-After s (panic e) w f h = h
  weaken-After s hung w f h = h

  pub Leads-weaken :
      {s : Files} {C : Config → Type 0} (m : M A)
      → Leads s C m D
      → ((a : A) (c : Config) → D a c → E a c)
      → Leads s C m E
  Leads-weaken m l f = record { at = λ w h. weaken-After _ (m w).0 (m w).1 f (l.at w h) }

module _ {A : Type 0} {s : Files} {C : Config → Type 0} where
  pub Leads-gets : (f : World → A) → Leads s C (gets f) (λ _. C)
  unfolding gets
  Leads-gets f = record { at = λ w h. h }

  -- What has been read of the configuration is known.
  pub Leads-gets_cfg : (f : Config → A) → Leads s C (gets (λ w. f w.cfg)) (λ a c. C c × (f c ≡ a))
  unfolding gets
  Leads-gets_cfg f = record { at = λ w h. record { unsaved = h.unsaved; holds = (h.holds, refl) } }

  pub Leads-ask : (c : Call) (f : Outside → History → A) → Leads s C (ask c f) (λ _. C)
  unfolding ask calling
  Leads-ask c f = record { at = λ w h. record { unsaved = h.unsaved; holds = h.holds } }

  lift_reply-After :
      (r : Reply A) (w : World)
      → Stage s C w
      → After s (λ _. C) (lift_reply r w).0 (lift_reply r w).1
  lift_reply-After (done a) w h = h
  lift_reply-After (failed e) w h = h.unsaved

  observe-After :
      (r : Reply A) (w : World)
      → Stage s C w
      → After s
          (λ _. C)
          (observe (lift_reply r w).0 (lift_reply r w).1).0
          (observe (lift_reply r w).0 (lift_reply r w).1).1
  observe-After (done a) w h = h
  observe-After (failed e) w h = h

  pub Leads-call : (c : Call) (f : Outside → History → Reply A) → Leads s C (call c f) (λ _. C)
  unfolding call calling
  Leads-call c f = record {
    at = λ w h.
        lift_reply-After (f w.outside (c ∷ w.history)) (calling w c)
          (record { unsaved = h.unsaved; holds = h.holds });
  }

  pub Leads-attempt_call :
      (c : Call) (f : Outside → History → Reply A) → Leads s C (attempt (call c f)) (λ _. C)
  unfolding attempt call calling
  Leads-attempt_call c f = record {
    at = λ w h.
        observe-After (f w.outside (c ∷ w.history)) (calling w c)
          (record { unsaved = h.unsaved; holds = h.holds });
  }

module _ {A B : Type 0} {s : Files} {R : A → Config → Type 0} {D : B → Config → Type 0} where
  continue-After :
      (r : Result A) (f : A → M B) (w : World)
      → After s R r w
      → ((a : A) → Leads s (R a) (f a) D)
      → After s D (continue r f w).0 (continue r f w).1
  continue-After (ok a) f w h t = (t a).at w h
  continue-After (err e) f w h t = h
  continue-After (panic e) f w h t = h
  continue-After hung f w h t = h

  pub Leads-bind :
      {C : Config → Type 0} (m : M A) (f : A → M B)
      → Leads s C m R
      → ((a : A) → Leads s (R a) (f a) D)
      → Leads s C (m >>= f) D
  unfolding ◌>>=◌
  Leads-bind m f l t = record { at = λ w h. continue-After (m w).0 f (m w).1 (l.at w h) t }

module _ {s : Files} {C : Config → Type 0} where
  pub Leads-modify :
      {D : Config → Type 0} (f : Config → Config)
      → ((c : Config) → C c → D (f c))
      → Leads s C (modify f) (λ _. D)
  unfolding modify
  Leads-modify f t = record { at = λ w h. record { unsaved = h.unsaved; holds = t w.cfg h.holds } }

  pub Leads-modify_alb :
      {D : Config → Type 0} (f : AlbIngressController → AlbIngressController)
      → ((c : Config) → C c → D (record c { alb_ingress_controller = f c.alb_ingress_controller }))
      → Leads s C (modify_alb f) (λ _. D)
  unfolding modify_alb
  Leads-modify_alb f t = record {
    at = λ w h. record { unsaved = h.unsaved; holds = t w.cfg h.holds };
  }

  pub Leads-ignore_call :
      {A : Type 0} (c : Call) (f : Outside → History → Reply A)
      → Leads s C (ignore (call c f)) (λ _. C)
  unfolding ignore
  Leads-ignore_call c f =
      Leads-bind (attempt (call c f)) _ (Leads-attempt_call c f) (λ _. Leads-pure tt (λ c h. h))

module _ {s : Files} {C : Config → Type 0} where
  Leads-set_path :
      (path : String)
      → ((c : Config) (p : String) → C c → C (record c { config_path = p }))
      → Leads s C (modify (λ c. record c { config_path = path })) (λ _. C)
  Leads-set_path path stable = Leads-modify _ (λ c. stable c path)

  Leads-set_absolute :
      (r : Reply String)
      → ((c : Config) (p : String) → C c → C (record c { config_path = p }))
      → Leads s C (set_absolute r) (λ _. C)
  unfolding set_absolute
  Leads-set_absolute (done p) stable = Leads-set_path p stable
  Leads-set_absolute (failed e) stable =
      Leads-bind _ _ (Leads-set_path "" stable) (λ _. Leads-raise e)

  pub Leads-make_absolute :
      (path : String)
      → ((c : Config) (p : String) → C c → C (record c { config_path = p }))
      → Leads s C (make_absolute path) (λ _. C)
  unfolding make_absolute
  Leads-make_absolute path stable =
      Leads-either _ _ _ (Leads-pure tt (λ c h. h))
        (Leads-bind _ _ (Leads-attempt_call _ _) (λ r. Leads-set_absolute r stable))

-- After a success the file holds the configuration as it is then; after an error all files are as they
-- were, but that the file of the configuration may be broken.
abbrev pub Written : Files → (Config → Type 0) → Result (Unit {0}) → World → Type 0
Written s C (ok _) w = (w.saved ≡ put w.cfg.config_path (some w.cfg) s) × C w.cfg
Written s C (err e) w = (w.saved ≡ s) ⊎ (w.saved ≡ put w.cfg.config_path none s)
Written s C (panic e) w = ⊥
Written s C hung w = ⊥

pub record Writes (s : Files) (C : Config → Type 0) (m : M (Unit {0})) (D : Config → Type 0)
    : Type 0 where
  pub at : (w : World) → Stage s C w → Written s D (m w).0 (m w).1

module _ {A : Type 0} {s : Files} {R : A → Config → Type 0} {D : Config → Type 0} where
  continue-Written :
      (r : Result A) (f : A → M (Unit {0})) (w : World)
      → After s R r w
      → ((a : A) → Writes s (R a) (f a) D)
      → Written s D (continue r f w).0 (continue r f w).1
  continue-Written (ok a) f w h t = (t a).at w h
  continue-Written (err e) f w h t = inl h
  continue-Written (panic e) f w h t = h
  continue-Written hung f w h t = h

  pub Writes-bind :
      {C : Config → Type 0} (m : M A) (f : A → M (Unit {0}))
      → Leads s C m R
      → ((a : A) → Writes s (R a) (f a) D)
      → Writes s C (m >>= f) D
  unfolding ◌>>=◌
  Writes-bind m f l t = record { at = λ w h. continue-Written (m w).0 f (m w).1 (l.at w h) t }

module _ {s : Files} {C : Config → Type 0} where
  write_to_disk-Written :
      (r : Writing) (w : World)
      → Stage s C w
      → Written s C (write_to_disk r w).0 (write_to_disk r w).1
  unfolding write_to_disk
  write_to_disk-Written wrote w h = (ap (put w.cfg.config_path (some w.cfg)) h.unsaved, h.holds)
  write_to_disk-Written (not_opened e) w h = inl h.unsaved
  write_to_disk-Written (truncated e) w h = inr (ap (put w.cfg.config_path none) h.unsaved)

  -- What holds whatever the path and the time of the update are, holds of what `Sync` saves.
  pub Writes-sync :
      ((c : Config) (p : String) → C c → C (record c { config_path = p }))
      → ((c : Config) (t : ℕ) → C c → C (record c { updated_at = t }))
      → Writes s C sync C
  unfolding sync
  Writes-sync on_path on_time = Writes-bind _ _ (Leads-gets _) λ path.
      Writes-bind _ _ (Leads-make_absolute path on_path) λ _. Writes-bind _ _ (Leads-gets _) λ now.
        Writes-bind _ _ (Leads-modify _ (λ c. on_time c now)) λ _.
          Writes-bind _ _ (Leads-gets _) λ c.
            Writes-bind _ _ (Leads-ask _ _) λ r. record { at = λ w h. write_to_disk-Written r w h }
