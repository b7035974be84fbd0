-- ===== src/Runtime/Action.antt =====
-- Actions over the state of a tester: sequencing with early return on an error, calls that leave
-- the program, deferred cleanup, and `Config.Sync`.
use aws_k8s_tester.Common.{ℕ, zero, suc, ◌+◌, String, List, [], ◌∷◌, Option, none, some, str_eq}
use aws_k8s_tester.Common.{if◌then◌else◌, starts_with}
use aws_k8s_tester.Config.{Config, ClusterState, AlbIngressController}
use aws_k8s_tester.Runtime.Outside.{
  Reply, done, failed, Call, abs_path, write_config, History, Outside, Writing, wrote, not_opened,
  truncated,
}

-- A `panic` passes every check of an error and ends the program, but for the deferred cleanups.
-- `hung` stands for a loop that has not ended, and for a call that never answers.
pub data Result {ℓ} (A : Type ℓ) : Type ℓ where
  ok : A → Result A
  err : String → Result A
  panic : String → Result A
  hung : Result A

-- The configurations that files hold, by their paths: none when a file is missing or broken.
abbrev pub Files : Type 0
Files = String → Option Config

abbrev pub put : String → Option Config → Files → Files
put path c files p = if str_eq p path then c else files p

-- `clock` counts nanoseconds.
pub record World : Type 0 where
  pub cfg : Config
  pub outside : Outside
  pub history : History
  pub clock : ℕ
  pub saved : Files

abbrev pub M {ℓ} : Type ℓ → Type ℓ
M A = World → Result A × World

module _ {ℓ} {A : Type ℓ} where
  unfoldable pub pure : A → M A
  pure a w = (ok a, w)

  unfoldable pub raise : String → M A
  raise e w = (err e, w)

  unfoldable pub crash : String → M A
  crash e w = (panic e, w)

  -- A loop that is out of fuel.
  unfoldable pub spin : M A
  spin w = (hung, w)

  unfoldable pub gets : (World → A) → M A
  gets f w = (ok (f w), w)

  abbrev pub lift_reply : Reply A → World → Result A × World
  lift_reply (done a) w = (ok a, w)
  lift_reply (failed e) w = (err e, w)

  -- The error of an action as a value: `err` is looked at, and not returned.
  abbrev pub observe : Result A → World → Result (Reply A) × World
  observe (ok a) w = (ok (done a), w)
  observe (err e) w = (ok (failed e), w)
  observe (panic e) w = (panic e, w)
  observe hung w = (hung, w)

  unfoldable pub attempt : M A → M (Reply A)
  attempt m w = let (r, w') = m w in observe r w'

module _ {ℓ κ} {A : Type ℓ} {B : Type κ} where
  abbrev pub continue : Result A → (A → M B) → M B
  continue (ok a) f w = f a w
  continue (err e) f w = (err e, w)
  continue (panic e) f w = (panic e, w)
  continue hung f w = (hung, w)

  infixl 10 ◌>>=◌
  unfoldable pub ◌>>=◌ : M A → (A → M B) → M B
  ◌>>=◌ m f w = let (r, w') = m w in continue r f w'

infixl 10 ◌>>◌
abbrev pub ◌>>◌ {ℓ} : {B : Type ℓ} → M (Unit {0}) → M B → M B
m >> n = m >>= λ _. n

-- `defer cleanup()`: the cleanup runs on every way out, and cannot change what is returned.
unfoldable pub deferring {ℓ} : {A : Type ℓ} → M (Unit {0}) → M A → M A
deferring cleanup m w = let (r, w') = m w in (r, (cleanup w').1)

-- `for _, x := range xs { … }` with early return.
unfoldable pub for_each {ℓ} : {A : Type ℓ} → List A → (A → M (Unit {0})) → M (Unit {0})
for_each [] body = pure tt
for_each (x ∷ xs) body = do body x; for_each xs body

-- `for i := 0; i < n; i++ { … }`: a round is given the rounds that follow it.
unfoldable pub rounds {ℓ} : {A : Type ℓ} → ℕ → (M A → M A) → M A → M A
rounds zero round last = last
rounds (suc n) round last = round (rounds n round last)

-- A call is recorded, and takes at least a nanosecond.
unfoldable pub calling : World → Call → World
calling w c =
    let h = c ∷ w.history in record w { history = h; clock = w.clock + 1 + w.outside.latency h }

unfoldable pub ask {ℓ} : {A : Type ℓ} → Call → (Outside → History → A) → M A
unfolding calling
ask c answer w = (ok (answer w.outside (c ∷ w.history)), calling w c)

unfoldable pub call {ℓ} : {A : Type ℓ} → Call → (Outside → History → Reply A) → M A
unfolding calling
call c answer w = lift_reply (answer w.outside (c ∷ w.history)) (calling w c)

abbrev pub acknowledge : Outside → History → Reply (Unit {0})
acknowledge o = o.acknowledged

unfoldable pub sleep : ℕ → M (Unit {0})
sleep d w = (ok tt, record w { clock = w.clock + d + w.outside.overslept w.history })

unfoldable pub modify : (Config → Config) → M (Unit {0})
modify f w = (ok tt, record w { cfg = f w.cfg })

-- Changes of the shared `*ClusterState` and `*ALBIngressController`.
unfoldable pub modify_state : (ClusterState → ClusterState) → M (Unit {0})
modify_state f w =
    (ok tt, record w { cfg = record w.cfg { cluster_state = f w.cfg.cluster_state } })

unfoldable pub modify_alb : (AlbIngressController → AlbIngressController) → M (Unit {0})
modify_alb f w = (
  ok tt,
  record w { cfg = record w.cfg { alb_ingress_controller = f w.cfg.alb_ingress_controller } },
)

-- A call whose error is dropped.
unfoldable pub ignore {ℓ} : {A : Type ℓ} → M A → M (Unit {0})
unfolding attempt
ignore m = attempt m >>= λ _. pure tt

-- On an error `filepath.Abs` returns the empty path, which is stored.
unfoldable pub set_absolute : Reply String → M (Unit {0})
set_absolute (done p) = modify (λ c. record c { config_path = p })
set_absolute (failed e) = do modify (λ c. record c { config_path = "" }); raise e

unfoldable pub make_absolute : String → M (Unit {0})
make_absolute path =
    if starts_with path "/"
    then pure tt
    else attempt (call (abs_path path) (λ o. o.text)) >>= set_absolute

-- `ioutil.WriteFile` to the path of the configuration.
unfoldable pub write_to_disk : Writing → World → Result (Unit {0}) × World
write_to_disk wrote w = (ok tt, record w { saved = put w.cfg.config_path (some w.cfg) w.saved })
write_to_disk (not_opened e) w = (err e, w)
write_to_disk (truncated e) w = (err e, record w { saved = put w.cfg.config_path none w.saved })

-- `Config.Sync`
unfoldable pub sync : M (Unit {0})
sync = do
  path ← gets (λ w. w.cfg.config_path)
  make_absolute path
  now ← gets (λ w. w.clock)
  modify (λ c. record c { updated_at = now })
  c ← gets (λ w. w.cfg)
  r ← ask (write_config c) (λ o. o.written)
  write_to_disk r
