-- ===== src/Eks/Asg/Batches.antt =====
-- `checkASG`: the calls of the loop over the ids of the instances.
use aws_k8s_tester.Common.{
  ℕ, zero, suc, String, ◌≡◌, refl, sym, ◌∙◌, ap, subst, inl, inr, List, [], ◌∷◌, ◌==◌, leb, length,
  take, Bool-cases,
}
use aws_k8s_tester.Runtime.Outside.{
  Described, Reply, done, failed, Outside, Call, History, ec2_describe_instances,
}
use aws_k8s_tester.Runtime.Action.{
  World, M, pure, raise, spin, attempt, observe, lift_reply, call, calling, sleep, ◌>>=◌,
}
use aws_k8s_tester.Eks.Asg.{flatten, running, batch, batch_described, describe_batches}
use aws_k8s_tester.Eks.Asg.Group.{batch≡take, take-take}

-- The history is the base and then the one call, some number of times.
pub data Repeats (c : Call) (base : History) : History → Type 0 where
  unchanged : Repeats c base base
  once_more : (h : History) → Repeats c base h → Repeats c base (c ∷ h)

batch_described-Repeats :
    (c : Call) (base : History) (o : Outside) (ids : List String) (found : List Described)
    (rest : List String → List Described → M (List Described)) (r : Reply (List (List Described)))
    (w : World)
    → Repeats c base w.history
    → ((more : List Described) (v : World)
        → Repeats c base v.history
        → Repeats c base (rest (take 10 ids) more v).1.history)
    → Repeats c base (batch_described o ids found rest r w).1.history
unfolding batch_described raise pure ◌>>=◌ sleep
batch_described-Repeats c base o ids found rest (failed e) w h k = h
batch_described-Repeats c base o ids found rest (done rs) w h k =
    elim (Bool-cases (running (flatten rs) == length (batch ids))) [
      | inr some_down ↦ rw some_down h
      | inl all_up ↦ elim (Bool-cases (leb (length ids) 10)) [
        | inl few ↦ rw (all_up, few) h
        | inr many ↦ rw (all_up, many) (k _ _ h)
      ]
    ]

observed-Repeats :
    (c : Call) (base : History) (o : Outside) (ids : List String) (found : List Described)
    (rest : List String → List Described → M (List Described)) (r : Reply (List (List Described)))
    (w : World)
    → Repeats c base w.history
    → ((more : List Described) (v : World)
        → Repeats c base v.history
        → Repeats c base (rest (take 10 ids) more v).1.history)
    → Repeats c base
        (((λ u. observe (lift_reply r w).0 (lift_reply r w).1) >>= batch_described o ids found rest)
          w).1.history
unfolding ◌>>=◌
observed-Repeats c base o ids found rest (done rs) w h k =
    batch_described-Repeats c base o ids found rest (done rs) w h k
observed-Repeats c base o ids found rest (failed e) w h k =
    batch_described-Repeats c base o ids found rest (failed e) w h k

describe_batches_from :
    (fuel : ℕ) (c : Call) (base : History) (o : Outside) (ids : List String)
    (found : List Described) (w : World)
    → ec2_describe_instances (take 10 ids) ≡ c
    → Repeats c base w.history
    → Repeats c base (describe_batches fuel o ids found w).1.history
unfolding describe_batches ◌>>=◌ attempt call calling pure spin
describe_batches_from fuel c base o [] found w same h = h
describe_batches_from zero c base o (id ∷ ids) found w same h = h
describe_batches_from (suc fuel) c base o (id ∷ ids) found w same h =
    observed-Repeats c base o (id ∷ ids) found (describe_batches fuel o) _ _
      (subst (λ d. Repeats c base (d ∷ w.history))
        (sym (ap ec2_describe_instances (batch≡take (id ∷ ids)) ∙ same)) (once_more w.history h))
      (λ more v g.
        describe_batches_from fuel c base o (take 10 (id ∷ ids)) more v
          (ap ec2_describe_instances (take-take 10 (id ∷ ids)) ∙ same) g)

-- Every call that the loop over the ids makes asks for the first ten of them, whatever is answered:
-- an instance after the tenth is never described.
pub describe_batches-Repeats :
    (fuel : ℕ) (o : Outside) (ids : List String) (found : List Described) (w : World)
    → Repeats
        (ec2_describe_instances (take 10 ids))
        w.history
        (describe_batches fuel o ids found w).1.history
describe_batches-Repeats fuel o ids found w =
    describe_batches_from fuel _ _ o ids found w refl unchanged
