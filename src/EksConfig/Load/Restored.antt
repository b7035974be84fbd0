-- ===== src/EksConfig/Load/Restored.antt =====
-- `Load`, on a file whose YAML is that of a configuration.
use aws_k8s_tester.Common.{
  String, ◌≡◌, ◌≢◌, ◌⊎◌, inl, inr, refl, sym, ap, ◌∷◌, some, test_of_eq, test_of_ne,
}
use aws_k8s_tester.Common.Int.{ℤ, pos}
use aws_k8s_tester.Config.{Config, ClusterState, AlbIngressController}
use aws_k8s_tester.Runtime.Outside.{done, Decoded, Outside, read_file, abs_path}
use aws_k8s_tester.Runtime.Action.{ok, World, pure, gets, ◌>>=◌, call, calling}
use aws_k8s_tester.EksConfig.Load.{returned, parse_up_took, parse_ingress_up_took, load}

-- What the YAML of a configuration holds: all but the two durations, which are not exported.
abbrev pub exported : Config → Decoded
exported c = record {
  fields = c;
  cluster_state = some (record c.cluster_state { up_took_duration = pos 0 });
  alb_ingress_controller =
      some (record c.alb_ingress_controller { ingress_up_took_duration = pos 0 });
}

-- A duration and its text: both are missing, or the text stands for the duration.
abbrev pub IsTextOf : Outside → String → ℤ → Type 0
IsTextOf o took d = (took ≡ "") × (d ≡ pos 0) ⊎ (took ≢ "") × (o.parse_duration took ≡ done d)

parse_up_took_restores :
    (o : Outside) (s : ClusterState) (w : World)
    → IsTextOf o s.up_took s.up_took_duration
    → parse_up_took o (record s { up_took_duration = pos 0 }) w ≡ (ok s, w)
unfolding parse_up_took pure ◌>>=◌ returned
parse_up_took_restores o s w (inl (empty, zero)) =
    rw (test_of_eq _ _ empty) (ap (λ d. (ok (record s { up_took_duration = d }), w)) (sym zero))
parse_up_took_restores o s w (inr (given, parsed)) = rw (test_of_ne _ _ given, parsed) refl

parse_ingress_up_took_restores :
    (o : Outside) (a : AlbIngressController) (w : World)
    → IsTextOf o a.ingress_up_took a.ingress_up_took_duration
    → parse_ingress_up_took o (record a { ingress_up_took_duration = pos 0 }) w ≡ (ok a, w)
unfolding parse_ingress_up_took pure ◌>>=◌ returned
parse_ingress_up_took_restores o a w (inl (empty, zero)) =
    rw (test_of_eq _ _ empty)
      (ap (λ d. (ok (record a { ingress_up_took_duration = d }), w)) (sym zero))
parse_ingress_up_took_restores o a w (inr (given, parsed)) = rw (test_of_ne _ _ given, parsed) refl

-- Loading a file whose YAML is that of a configuration gives this configuration, with its durations and
-- with the file's absolute path. Decoding YAML gives back the exported fields, and parsing a
-- duration's text the duration; the file can be read and its path resolved.
pub load_restores :
    (w : World) (c : Config) (p text path : String)
    → w.outside.text (read_file p ∷ w.history) ≡ done text
    → w.outside.decode_config text ≡ done (exported c)
    → w.outside.text (abs_path p ∷ read_file p ∷ w.history) ≡ done path
    → IsTextOf w.outside c.cluster_state.up_took c.cluster_state.up_took_duration
    → IsTextOf w.outside c.alb_ingress_controller.ingress_up_took
        c.alb_ingress_controller.ingress_up_took_duration
    → (load p w).0 ≡ ok (record c { config_path = path })
unfolding load ◌>>=◌ gets call calling returned pure
load_restores w c p text path read decoded absolute up ingress =
    rw (read, decoded, absolute)
      (rw (parse_up_took_restores w.outside c.cluster_state _ up)
        (rw (parse_ingress_up_took_restores w.outside c.alb_ingress_controller _ ingress) refl))
