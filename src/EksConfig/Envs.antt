-- ===== src/EksConfig/Envs.antt =====
-- eksconfig/config.go: `UpdateFromEnvs`.
use aws_k8s_tester.Common.{String, ◌<>◌, List, [], ◌∷◌, ◌++◌, str_eq, if◌then◌else◌}
use aws_k8s_tester.Config.{Config, AlbIngressController}
use aws_k8s_tester.Runtime.Words.{
  Reply, done, failed, Outside, M, raise, gets, ◌>>=◌, ◌>>◌, modify, modify_alb,
}
use aws_k8s_tester.Eks.Vpc.{split_commas}
use aws_k8s_tester.EksConfig.Setter.{
  Setter, Field, text, flag, number, duration, float, texts, unsupported,
}
use aws_k8s_tester.EksConfig.Fields.{cluster_fields, worker_fields, test_fields, result_fields}

abbrev pub env_pfx : String
env_pfx = "AWS_K8S_TESTER_EKS_"

abbrev pub env_pfx_alb : String
env_pfx_alb = "AWS_K8S_TESTER_EKS_ALB_"

-- The variable of a field.
unfoldable pub env_name : Outside → String → String → String
env_name o prefix tag =
    prefix <> o.to_upper (o.replace_all (o.replace_all tag ",omitempty" "") "-" "_")

module _ {A R : Type 0} where
  unfoldable pub parsed : Outside → String → String → Reply A → (A → R → R) → R → Reply R
  parsed o env sv (done a) f r = done (f a r)
  parsed o env sv (failed e) f r =
      failed
        ("failed to parse " <> (o.quoted sv <> (" (" <> (o.quoted env <> (", " <> (e <> ")"))))))

module _ {R : Type 0} where
  -- `switch vv.Field(i).Type().Kind()`
  unfoldable pub set_field : Outside → String → String → Setter R → R → Reply R
  set_field o env sv (text f) r = done (f sv r)
  set_field o env sv (flag f) r = parsed o env sv (o.parse_bool sv) f r
  set_field o env sv (number f) r = parsed o env sv (o.parse_int sv) f r
  set_field o env sv (duration f) r = parsed o env sv (o.parse_duration sv) f r
  set_field o env sv (float f) r = parsed o env sv (o.parse_float sv) f r
  set_field o env sv (texts f) r = done (f (split_commas sv) r)
  set_field o env sv (unsupported type) r =
      failed (o.quoted env <> (" (" <> (type <> ") is not supported as an env")))

  -- A field without a tag is passed over, and so is one whose variable is not set.
  unfoldable pub update_field : Outside → String → Field R → R → Reply R
  update_field o prefix f r =
      let env = env_name o prefix f.tag in
      if str_eq f.tag ""
      then done r
      else if str_eq (o.environment env) ""
      then done r
      else set_field o env (o.environment env) f.setter r

  abbrev pub and_then : Reply R → (R → Reply R) → Reply R
  and_then (done r) k = k r
  and_then (failed e) k = failed e

  unfoldable pub update_fields : Outside → String → List (Field R) → R → Reply R
  update_fields o prefix [] r = done r
  update_fields o prefix (f ∷ fs) r =
      and_then (update_field o prefix f r) (update_fields o prefix fs)

abbrev pub config_fields : List (Field Config)
config_fields = cluster_fields ++ worker_fields

abbrev pub alb_fields : List (Field AlbIngressController)
alb_fields = test_fields ++ result_fields

unfoldable pub store_alb : Reply AlbIngressController → M (Unit {0})
store_alb (failed e) = raise e
store_alb (done av) = modify_alb (λ _. av)

-- `*cfg = cc`, which stays when the second loop fails.
unfoldable pub store_config : Outside → Reply Config → M (Unit {0})
store_config o (failed e) = raise e
store_config o (done cc) = do
  modify (λ _. cc)
  store_alb (update_fields o env_pfx_alb alb_fields cc.alb_ingress_controller)

unfoldable pub update_from_envs : M (Unit {0})
update_from_envs = do
  o ← gets (λ w. w.outside)
  c ← gets (λ w. w.cfg)
  store_config o (update_fields o env_pfx config_fields c)
