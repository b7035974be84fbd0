-- ===== src/Eks/Tester/Saves.antt =====
-- `Sync` and the file of the configuration.
use aws_k8s_tester.Common.{
  String, ◌≡◌, ◌⊎◌, refl, ap, inl, inr, none, some, Bool-cases, starts_with,
}
use aws_k8s_tester.Runtime.Outside.{
  Reply, done, failed, write_config, Writing, wrote, not_opened, truncated,
}
use aws_k8s_tester.Runtime.Action.{
  Result, ok, err, panic, hung, World, M, put, pure, raise, gets, attempt, observe, ◌>>=◌, ◌>>◌,
  ask, call, lift_reply, modify, calling, sync, set_absolute, make_absolute, write_to_disk,
}

-- After a success the file at the path of the configuration holds it, as it is then; after an error the
-- file is what it was, or broken. No other file has changed.
abbrev pub Saved : World → Result (Unit {0}) → World → Type 0
Saved w (ok a) v = v.saved ≡ put v.cfg.config_path (some v.cfg) w.saved
Saved w (err e) v = (v.saved ≡ w.saved) ⊎ (v.saved ≡ put v.cfg.config_path none w.saved)
Saved w (panic e) v = ⊥
Saved w hung v = ⊥

written :
    (w : World) (r : Writing) (v : World)
    → v.saved ≡ w.saved
    → Saved w (write_to_disk r v).0 (write_to_disk r v).1
unfolding write_to_disk
written w wrote v same = ap (put v.cfg.config_path (some v.cfg)) same
written w (not_opened e) v same = inl same
written w (truncated e) v same = inr (ap (put v.cfg.config_path none) same)

saving : M (Unit {0})
saving = do
  now ← gets (λ w. w.clock)
  modify (λ c. record c { updated_at = now })
  c ← gets (λ w. w.cfg)
  r ← ask (write_config c) (λ o. o.written)
  write_to_disk r

saving_saves : (w v : World) → v.saved ≡ w.saved → Saved w (saving v).0 (saving v).1
unfolding saving ◌>>=◌ gets modify ask calling
saving_saves w v same = written w _ _ same

resolved_saves :
    (w : World) (r : Reply String) (v : World)
    → v.saved ≡ w.saved
    → Saved w ((set_absolute r >>= λ _. saving) v).0 ((set_absolute r >>= λ _. saving) v).1
unfolding set_absolute ◌>>=◌ modify raise
resolved_saves w (done p) v same = saving_saves w _ same
resolved_saves w (failed e) v same = inl same

observed_resolves :
    (w : World) (r : Reply String) (v : World)
    → v.saved ≡ w.saved
    → Saved w
        (((λ u. observe (lift_reply r v).0 (lift_reply r v).1) >>= set_absolute >>= λ _. saving)
          v).0
        (((λ u. observe (lift_reply r v).0 (lift_reply r v).1) >>= set_absolute >>= λ _. saving)
          v).1
unfolding ◌>>=◌
observed_resolves w (done p) v same = resolved_saves w (done p) v same
observed_resolves w (failed e) v same = resolved_saves w (failed e) v same

-- `Sync` returns. When it succeeds, the file at the path of the configuration holds the configuration as
-- it is then; when it fails, the file holds what it held before, or is broken. No other file changes.
pub sync_saves : (w : World) → Saved w (sync w).0 (sync w).1
unfolding sync ◌>>=◌ gets make_absolute pure attempt call calling modify saving
sync_saves w = elim (Bool-cases (starts_with w.cfg.config_path "/")) [
  | inl absolute ↦ rw absolute (saving_saves w w refl)
  | inr relative ↦ rw relative (observed_resolves w _ _ refl)
]
