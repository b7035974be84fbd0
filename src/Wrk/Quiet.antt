-- ===== src/Wrk/Quiet.antt =====
-- What `Parse` makes of an output without a line of socket errors.
use aws_k8s_tester.Common.{
  String, Bool, true, false, List, [], ◌∷◌, ◌≡◌, refl, starts_with, if◌then◌else◌, All,
}
use aws_k8s_tester.Common.Int.{pos}
use aws_k8s_tester.Runtime.Action.{Result, ok, err, panic, hung}
use aws_k8s_tester.Runtime.Chain.{then_do}
use aws_k8s_tester.Wrk.Output.{Output, Library}
use aws_k8s_tester.Wrk.Parse.{
  State, two_fields, three_fields, four_fields, nothing, parse_running, parse_threads,
  parse_latency, parse_req, parse_requests_in, parse_per_sec, parse_line, parse_lines, parse,
}

-- A result of the text `s` that counts no socket errors.
abbrev pub IsQuiet : String → Output → Type 0
IsQuiet s rs =
    (rs.output ≡ s)
    × (rs.errors_connect ≡ pos 0)
    × (rs.errors_read ≡ pos 0)
    × (rs.errors_write ≡ pos 0)
    × (rs.errors_timeout ≡ pos 0)

-- A success with the property, or an error.
abbrev pub Ends : {A : Type 0} → (A → Type 0) → Result A → Type 0
Ends P (ok a) = P a
Ends P (err e) = Unit
Ends P (panic e) = ⊥
Ends P hung = ⊥

abbrev pub QuietState : String → State → Type 0
QuietState s st = IsQuiet s st.1

then_do-Ends :
    {A B : Type 0} (P : A → Type 0) (Q : B → Type 0) (r : Result A) (k : A → Result B)
    → Ends P r
    → ((a : A) → P a → Ends Q (k a))
    → Ends Q (then_do r k)
then_do-Ends P Q (ok a) k h f = f a h
then_do-Ends P Q (err e) k h f = tt
then_do-Ends P Q (panic e) k h f = elim h [ ]
then_do-Ends P Q hung k h f = elim h [ ]

module _ {B : Type 0} (Q : B → Type 0) (e : String) where
  then_two_fields :
      (xs : List String) (k : String × String → Result B)
      → ((p : String × String) → Ends Q (k p))
      → Ends Q (then_do (two_fields e xs) k)
  then_two_fields [] k f = tt
  then_two_fields (a ∷ []) k f = tt
  then_two_fields (a ∷ b ∷ []) k f = f (a, b)
  then_two_fields (a ∷ b ∷ c ∷ xs) k f = tt

  then_three_fields :
      (xs : List String) (k : String × String × String → Result B)
      → ((p : String × String × String) → Ends Q (k p))
      → Ends Q (then_do (three_fields e xs) k)
  then_three_fields [] k f = tt
  then_three_fields (a ∷ []) k f = tt
  then_three_fields (a ∷ b ∷ []) k f = tt
  then_three_fields (a ∷ b ∷ c ∷ []) k f = f (a, b, c)
  then_three_fields (a ∷ b ∷ c ∷ d ∷ xs) k f = tt

  then_four_fields :
      (xs : List String) (k : String × String × String × String → Result B)
      → ((p : String × String × String × String) → Ends Q (k p))
      → Ends Q (then_do (four_fields e xs) k)
  then_four_fields [] k f = tt
  then_four_fields (a ∷ []) k f = tt
  then_four_fields (a ∷ b ∷ []) k f = tt
  then_four_fields (a ∷ b ∷ c ∷ []) k f = tt
  then_four_fields (a ∷ b ∷ c ∷ d ∷ []) k f = f (a, b, c, d)
  then_four_fields (a ∷ b ∷ c ∷ d ∷ x ∷ xs) k f = tt

if-Ends :
    {A : Type 0} (P : A → Type 0) (b : Bool) (x y : Result A)
    → Ends P x
    → Ends P y
    → Ends P (if b then x else y)
if-Ends P true x y h k = h
if-Ends P false x y h k = k

otherwise :
    {A : Type 0} (P : A → Type 0) (x y : Result A) → Ends P y → Ends P (if false then x else y)
otherwise P x y h = h

module _ (g : Library) (s : String) where
  -- The line is not one of socket errors.
  abbrev pub IsPlain : String → Type 0
  IsPlain line = starts_with (g.trim_space line) "Socket errors:" ≡ false

  -- A result that differs in none of the fields of `IsQuiet`.
  module _ (prev : Bool) (line : String) (rs : Output) (h : IsQuiet s rs) where
    parse_running-Ends : Ends (QuietState s) (parse_running g prev line rs)
    unfolding parse_running
    parse_running-Ends = search (then_two_fields, h)

    parse_threads-Ends : Ends (QuietState s) (parse_threads g prev line rs)
    unfolding parse_threads
    parse_threads-Ends = search (then_two_fields, h)

    parse_latency-Ends : Ends (QuietState s) (parse_latency g line rs)
    unfolding parse_latency
    parse_latency-Ends = search (then_four_fields, h)

    parse_req-Ends : Ends (QuietState s) (parse_req g prev line rs)
    unfolding parse_req
    parse_req-Ends = search (then_four_fields, h)

    parse_requests_in-Ends : Ends (QuietState s) (parse_requests_in g prev line rs)
    unfolding parse_requests_in
    parse_requests_in-Ends = search (then_three_fields, h)

    parse_per_sec-Ends : Ends (QuietState s) (parse_per_sec g prev line rs)
    unfolding parse_per_sec
    parse_per_sec-Ends = search (then_two_fields, h)

    parse_line-Ends :
        starts_with line "Socket errors:" ≡ false → Ends (QuietState s) (parse_line g prev line rs)
    unfolding parse_line
    parse_line-Ends plain = rw plain (
        search
          (
            if-Ends, otherwise, parse_running-Ends, parse_threads-Ends, parse_latency-Ends,
            parse_req-Ends, parse_requests_in-Ends, parse_per_sec-Ends, h,
          )
          depth 20)

  parse_lines-Ends :
      (lines : List String) (st : State)
      → All IsPlain lines
      → QuietState s st
      → Ends (QuietState s) (parse_lines g lines st)
  unfolding parse_lines
  parse_lines-Ends [] st all h = h
  parse_lines-Ends (line ∷ rest) (prev, rs) (plain, all) h =
      then_do-Ends (QuietState s) (QuietState s) (parse_line g prev (g.trim_space line) rs)
        (parse_lines g rest) (parse_line-Ends prev (g.trim_space line) rs h plain)
        λ st quiet. parse_lines-Ends rest st all quiet

-- For an output of which no trimmed line begins with `Socket errors:`: `parse` returns an error, or a
-- result that holds the output as it is and whose four numbers of socket errors are 0. It does not
-- panic.
pub parse-Ends :
    (g : Library) (s : String) → All (IsPlain g s) (g.lines s) → Ends (IsQuiet s) (parse g s)
unfolding parse
parse-Ends g s all =
    then_do-Ends (QuietState s) (IsQuiet s) (parse_lines g (g.lines s) (false, nothing g s))
      (λ st. ok st.1)
      (parse_lines-Ends g s (g.lines s) (false, nothing g s) all (refl, refl, refl, refl, refl))
      λ st quiet. quiet
