-- ===== src/Runtime/Poll.antt =====
-- `for time.Now().UTC().Sub(retryStart) < limit { … }` as a recursion on fuel. Every round takes
-- at least a nanosecond, so that `limit` rounds are enough: see `Runtime/Good.antt`.
use aws_k8s_tester.Common.{ℕ, zero, suc, ◌-◌, true, false, ltb}
use aws_k8s_tester.Runtime.Action.{Result, ok, err, panic, hung, M}

-- How the body of a loop ends: with the next round, by `break`, or by `return nil`.
pub data Next (S : Type 0) : Type 0 where
  again : S → Next S
  stop : S → Next S
  leave : Next S

-- Whether the code after the loop is reached.
pub data Finish (S : Type 0) : Type 0 where
  ended : S → Finish S
  left : Finish S

module _ {S : Type 0} where
  abbrev pub proceed : (S → M (Finish S)) → Result (Next S) → M (Finish S)
  proceed rest (ok (again s)) w = rest s w
  proceed rest (ok (stop s)) w = (ok (ended s), w)
  proceed rest (ok leave) w = (ok left, w)
  proceed rest (err e) w = (err e, w)
  proceed rest (panic e) w = (panic e, w)
  proceed rest hung w = (hung, w)

  unfoldable pub poll_from : ℕ → ℕ → ℕ → (S → M (Next S)) → S → M (Finish S)
  poll_from zero start limit body s w = elim (ltb (w.clock - start) limit) [
    | false ↦ (ok (ended s), w)
    | true ↦ (hung, w)
  ]
  poll_from (suc fuel) start limit body s w = elim (ltb (w.clock - start) limit) [
    | false ↦ (ok (ended s), w)
    | true ↦ let (r, w') = body s w in proceed (poll_from fuel start limit body) r w'
  ]

  unfoldable pub poll : ℕ → (S → M (Next S)) → S → M (Finish S)
  unfolding poll_from
  poll limit body s w = poll_from limit w.clock limit body s w
