-- ===== src/EksConfig/Untouched.antt =====
-- `UpdateFromEnvs` and the state of the cluster.
use aws_k8s_tester.Common.{
  ℕ, String, Bool, true, List, [], ◌∷◌, map, All, ◌≡◌, refl, ◌∙◌, ap, str_eq, inl, inr, Bool-cases,
}
use aws_k8s_tester.Common.Int.{ℤ, pos}
use aws_k8s_tester.Config.{Config, ClusterState, AlbIngressController}
use aws_k8s_tester.Runtime.Outside.{Reply, done, failed, Outside}
use aws_k8s_tester.Runtime.Action.{
  World, Result, ok, err, panic, hung, ◌>>=◌, raise, gets, modify, modify_alb,
}
use aws_k8s_tester.Eks.Vpc.{split_commas}
use aws_k8s_tester.EksConfig.Setter.{
  Setter, Field, text, flag, number, duration, float, texts, unsupported,
}
use aws_k8s_tester.EksConfig.Envs.{
  parsed, set_field, update_field, update_fields, and_then, env_name, config_fields, store_alb,
  store_config, update_from_envs, env_pfx,
}

-- A value of every kind.
record Values : Type 0 where
  a_text : String
  a_flag : Bool
  a_number : ℤ
  a_float : ℕ
  some_texts : List String

abbrev blank : Values
blank = record { a_text = ""; a_flag = true; a_number = pos 0; a_float = 0; some_texts = [] }

module _ {R X : Type 0} (g : R → X) where
  abbrev apply : Values → Setter R → R → R
  apply v (text f) r = f v.a_text r
  apply v (flag f) r = f v.a_flag r
  apply v (number f) r = f v.a_number r
  apply v (duration f) r = f v.a_number r
  apply v (float f) r = f v.a_float r
  apply v (texts f) r = f v.some_texts r
  apply v (unsupported type) r = r

  abbrev IsKept : Field R → Type 0
  IsKept f = (v : Values) (r : R) → g (apply v f.setter r) ≡ g r

  abbrev heads : X → List X → X
  heads x [] = x
  heads x (y ∷ ys) = y

  abbrev tails : List X → List X
  tails [] = []
  tails (y ∷ ys) = ys

  All-IsKept :
      (fs : List (Field R))
      → ((v : Values) (r : R) → map (λ f. g (apply v f.setter r)) fs ≡ map (λ f. g r) fs)
      → All IsKept fs
  All-IsKept [] h = tt
  All-IsKept (f ∷ fs) h = (λ v r. ap (heads (g r)) (h v r), All-IsKept fs (λ v r. ap tails (h v r)))

  abbrev Same : R → Reply R → Type 0
  Same r (done s) = g s ≡ g r
  Same r (failed e) = Unit

  parsed-Same :
      {A : Type 0} (o : Outside) (env sv : String) (a : Reply A) (f : A → R → R) (r : R)
      → ((x : A) → g (f x r) ≡ g r)
      → Same r (parsed o env sv a f r)
  unfolding parsed
  parsed-Same o env sv (done x) f r h = h x
  parsed-Same o env sv (failed e) f r h = tt

  set_field-Same :
      (o : Outside) (env sv : String) (s : Setter R) (r : R)
      → ((v : Values) → g (apply v s r) ≡ g r)
      → Same r (set_field o env sv s r)
  unfolding set_field
  set_field-Same o env sv (text f) r h = h (record blank { a_text = sv })
  set_field-Same o env sv (flag f) r h =
      parsed-Same o env sv (o.parse_bool sv) f r (λ x. h (record blank { a_flag = x }))
  set_field-Same o env sv (number f) r h =
      parsed-Same o env sv (o.parse_int sv) f r (λ x. h (record blank { a_number = x }))
  set_field-Same o env sv (duration f) r h =
      parsed-Same o env sv (o.parse_duration sv) f r (λ x. h (record blank { a_number = x }))
  set_field-Same o env sv (float f) r h =
      parsed-Same o env sv (o.parse_float sv) f r (λ x. h (record blank { a_float = x }))
  set_field-Same o env sv (texts f) r h = h (record blank { some_texts = (split_commas sv) })
  set_field-Same o env sv (unsupported type) r h = tt

  update_field-Same :
      (o : Outside) (prefix : String) (f : Field R) (r : R)
      → IsKept f
      → Same r (update_field o prefix f r)
  unfolding update_field
  update_field-Same o prefix f r kept = elim (Bool-cases (str_eq f.tag "")) [
    | inl untagged ↦ rw untagged refl
    | inr tagged ↦ elim (Bool-cases (str_eq (o.environment (env_name o prefix f.tag)) "")) [
      | inl unset ↦ rw (tagged, unset) refl
      | inr given ↦ rw (tagged, given) (set_field-Same o _ _ f.setter r (λ v. kept v r))
    ]
  ]

  and_then-Same :
      (r : R) (x : Reply R) (k : R → Reply R)
      → Same r x
      → ((s : R) → Same s (k s))
      → Same r (and_then x k)
  and_then-Same r (failed e) k h t = tt
  and_then-Same r (done s) k h t = later (k s) (t s)
    where
      later : (y : Reply R) → Same s y → Same r y
      later (done u) e = e ∙ h
      later (failed e) _ = tt

  update_fields-Same :
      (o : Outside) (prefix : String) (fs : List (Field R)) (r : R)
      → All IsKept fs
      → Same r (update_fields o prefix fs r)
  unfolding update_fields
  update_fields-Same o prefix [] r kept = refl
  update_fields-Same o prefix (f ∷ fs) r kept =
      and_then-Same r _ _ (update_field-Same o prefix f r kept.0)
        (λ s. update_fields-Same o prefix fs s kept.1)

shared_state : Config → ClusterState × AlbIngressController
shared_state c = (c.cluster_state, c.alb_ingress_controller)

config_fields-IsKept : All (IsKept shared_state) config_fields
unfolding shared_state
config_fields-IsKept = All-IsKept shared_state config_fields (λ v r. refl)

-- No panic; on an error the settings of the ALB Ingress Controller are as before.
abbrev pub Updated : World → Result (Unit {0}) → World → Type 0
Updated w (ok _) v = v.cfg.cluster_state ≡ w.cfg.cluster_state
Updated w (err e) v =
    (v.cfg.cluster_state ≡ w.cfg.cluster_state)
    × (v.cfg.alb_ingress_controller ≡ w.cfg.alb_ingress_controller)
Updated w (panic e) v = ⊥
Updated w hung v = ⊥

store_alb-Updated :
    (w v : World) (r : Reply AlbIngressController)
    → shared_state v.cfg ≡ shared_state w.cfg
    → Updated w (store_alb r v).0 (store_alb r v).1
unfolding store_alb raise modify_alb shared_state
store_alb-Updated w v (failed e) h = (ap (λ p. p.0) h, ap (λ p. p.1) h)
store_alb-Updated w v (done av) h = ap (λ p. p.0) h

store_config-Updated :
    (w : World) (o : Outside) (r : Reply Config)
    → Same shared_state w.cfg r
    → Updated w (store_config o r w).0 (store_config o r w).1
unfolding store_config raise ◌>>=◌ modify
store_config-Updated w o (failed e) h = (refl, refl)
store_config-Updated w o (done cc) h = store_alb-Updated w _ _ h

-- `UpdateFromEnvs` returns, and no variable changes the state of the cluster, with its names and flags.
-- When it fails, the settings of the ALB Ingress Controller are as they were.
pub update_from_envs-Updated : (w : World) → Updated w (update_from_envs w).0 (update_from_envs w).1
unfolding update_from_envs ◌>>=◌ gets
update_from_envs-Updated w =
    store_config-Updated w w.outside _
      (update_fields-Same shared_state w.outside env_pfx config_fields w.cfg config_fields-IsKept)
