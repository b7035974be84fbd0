-- ===== src/Runtime/Chain.antt =====
-- Results in a row: what follows is done when what comes before has succeeded.
use aws_k8s_tester.Runtime.Action.{Result, ok, err, panic, hung}

module _ {A B : Type 0} where
  abbrev pub then_do : Result A → (A → Result B) → Result B
  then_do (ok a) k = k a
  then_do (err e) k = err e
  then_do (panic e) k = panic e
  then_do hung k = hung
