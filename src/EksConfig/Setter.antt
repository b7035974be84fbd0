-- ===== src/EksConfig/Setter.antt =====
-- eksconfig/config.go, `UpdateFromEnvs`: a field of a struct, by the kind of its type.
use aws_k8s_tester.Common.{ℕ, String, Bool, List}
use aws_k8s_tester.Common.Int.{ℤ}

-- What a variable is parsed as, and where the value goes. `unsupported` has the name of the type.
pub data Setter (R : Type 0) : Type 0 where
  text : (String → R → R) → Setter R
  flag : (Bool → R → R) → Setter R
  number duration : (ℤ → R → R) → Setter R
  float : (ℕ → R → R) → Setter R
  texts : (List String → R → R) → Setter R
  unsupported : String → Setter R

pub record Field (R : Type 0) : Type 0 where
  pub tag : String
  pub setter : Setter R

abbrev pub field : {R : Type 0} → String → Setter R → Field R
field tag setter = record { tag = tag; setter = setter }
