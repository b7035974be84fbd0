-- ===== src/Prow/Status/Pages.antt =====
-- What a refresh leaves of the page.
use aws_k8s_tester.Common.{
  ◌-◌, String, Bool, true, false, List, [], ◌∷◌, ◌≡◌, refl, ◌⊎◌, inl, inr, ltb, if◌then◌else◌,
  Option, none, some,
}
use aws_k8s_tester.Runtime.Outside.{Reply, done, failed}
use aws_k8s_tester.Runtime.Action.{Result, ok, err, panic, hung}
use aws_k8s_tester.Prow.Job.{Job}
use aws_k8s_tester.Prow.Munge.{Jobs}
use aws_k8s_tester.Prow.Load.{load_jobs, no_jobs}
use aws_k8s_tester.Prow.Status.{
  with_short, Counts, Status, Sources, Git, counts, create_job_rows, status_update_limit, loaded,
  downloaded, fetched_test_infra, fetched_k8s, refresh,
}

-- The tables and the time of the page are the old ones; the jobs behind them are, or there are none.
abbrev pub IsStale : Status → Status → Type 0
IsStale old new =
    (new.updated ≡ old.updated)
    × (new.html_git_rows ≡ old.html_git_rows)
    × (new.html_job_rows ≡ old.html_job_rows)
    × ((new.maps ≡ old.maps) ⊎ (new.maps ≡ no_jobs))

-- The tables, the message and the time of the page are those of the new jobs.
abbrev pub IsFresh : Sources → Status → Type 0
IsFresh src new =
    (gs : List (Git × String)) × (with_short (new.git_k8s ∷ new.git_test_infra ∷ []) ≡ some gs)
    × (new.html_git_rows ≡ src.git_rows src.finished gs)
    × (new.updated ≡ src.finished)
    × (new.html_job_rows ≡ create_job_rows src new.maps.filed)
    × (new.html_update_msg ≡ src.update_msg (counts new) src.finished none)

-- A hash of a commit has fewer than nine characters, which ends the refresh with a panic: the message and
-- the time are new, and the tables old.
abbrev pub IsHalf : Sources → Status → Result (Unit {0}) × Status → Type 0
IsHalf src old (r, new) =
    (r ≡ panic "slice bounds out of range")
    × (with_short (new.git_k8s ∷ new.git_test_infra ∷ []) ≡ none)
    × (new.updated ≡ src.finished)
    × (new.html_update_msg ≡ src.update_msg (counts new) src.finished none)
    × (new.html_git_rows ≡ old.html_git_rows)
    × (new.html_job_rows ≡ old.html_job_rows)

Option-cases : {A : Type 0} (x : Option A) → (x ≡ none) ⊎ ((a : A) × (x ≡ some a))
Option-cases none = inl refl
Option-cases (some a) = inr (a, refl)

module _ (src : Sources) (k : Counts) (old : Status) where
  abbrev IsShown : Result (Unit {0}) × Status → Type 0
  IsShown p = IsStale old p.1 ⊎ IsFresh src p.1 ⊎ IsHalf src old p

  -- The page itself is the old one.
  abbrev IsKept : Status → Type 0
  IsKept s =
      (s.updated ≡ old.updated)
      × (s.html_git_rows ≡ old.html_git_rows)
      × (s.html_job_rows ≡ old.html_job_rows)
      × (s.maps ≡ old.maps)

  loaded-IsShown :
      (s : Status) (r : Result (List Job × Jobs)) → IsKept s → IsShown (loaded src k s r)
  loaded-IsShown s (ok (jobs, maps)) h =
      elim (Option-cases (with_short (s.git_k8s ∷ s.git_test_infra ∷ []))) [
        | inl short ↦ rw short (inr (inr (refl, short, refl, refl, h.1, h.2)))
        | inr (gs, long) ↦ rw long (inr (inl (gs, long, refl, refl, refl, refl)))
      ]
  loaded-IsShown s (err e) h = inl (h.0, h.1, h.2, inr refl)
  loaded-IsShown s (panic e) h = inl (h.0, h.1, h.2, inl h.3)
  loaded-IsShown s hung h = inl (h.0, h.1, h.2, inl h.3)

  downloaded-IsShown :
      (s : Status) (r : Reply (List String)) → IsKept s → IsShown (downloaded src k s r)
  downloaded-IsShown s (failed e) h = inl (h.0, h.1, h.2, inl h.3)
  downloaded-IsShown s (done paths) h = loaded-IsShown s (load_jobs src.tools paths) h

  fetched_test_infra-IsShown :
      (s : Status) (r : Git × Option String) → IsKept s → IsShown (fetched_test_infra src k s r)
  fetched_test_infra-IsShown s (g, some e) h = inl (h.0, h.1, h.2, inl h.3)
  fetched_test_infra-IsShown s (g, none) h =
      downloaded-IsShown (record s { git_test_infra = g }) src.download h

  fetched_k8s-IsShown :
      (s : Status) (r : Git × Option String) → IsKept s → IsShown (fetched_k8s src k s r)
  fetched_k8s-IsShown s (g, some e) h = inl (h.0, h.1, h.2, inl h.3)
  fetched_k8s-IsShown s (g, none) h = fetched_test_infra-IsShown (record s { git_k8s = g }) _ h

  if-IsShown :
      (b : Bool) (m n : Result (Unit {0}) × Status)
      → IsShown m
      → IsShown n
      → IsShown (if b then m else n)
  if-IsShown true m n h l = h
  if-IsShown false m n h l = l

-- However a refresh ends, the page is the old one but for its message, and the jobs behind it are the old
-- ones or none; or its tables, message and time are those of the jobs behind it; or the refresh has
-- panicked on a short hash, and the message and the time are new, the tables old.
pub refresh_shows :
    (src : Sources) (old : Status)
    → IsStale old (refresh src old).1
      ⊎ IsFresh src (refresh src old).1
      ⊎ IsHalf src old (refresh src old)
unfolding refresh
refresh_shows src old =
    let first = src.fetch_git "https://github.com/kubernetes/kubernetes" "master" in
    if-IsShown src (counts old) old (ltb (src.started - old.updated) status_update_limit) _
      (fetched_k8s src (counts old) old first) (inl (refl, refl, refl, inl refl))
      (fetched_k8s-IsShown src (counts old) old old first (refl, refl, refl, refl))
