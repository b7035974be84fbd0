-- ===== src/Wrk/Parse.antt =====
-- pkg/wrk/wrk.go: `Parse`. `rs` is the result so far.
use aws_k8s_tester.Common.{
  ℕ, String, ◌<>◌, Bool, true, false, ◌&&◌, List, [], ◌∷◌, contains, starts_with, if◌then◌else◌,
}
use aws_k8s_tester.Common.Int.{pos}
use aws_k8s_tester.Runtime.Action.{Result, ok, err, panic}
use aws_k8s_tester.Runtime.Chain.{then_do}
use aws_k8s_tester.Wrk.Output.{Output, Library}

-- The output, and whether the line before was the header of the thread statistics.
abbrev pub State : Type 0
State = Bool × Output

-- The fields when there are as many as expected.
abbrev pub two_fields : String → List String → Result (String × String)
two_fields e (a ∷ b ∷ []) = ok (a, b)
two_fields e _ = err e

abbrev pub three_fields : String → List String → Result (String × String × String)
three_fields e (a ∷ b ∷ c ∷ []) = ok (a, b, c)
three_fields e _ = err e

abbrev pub four_fields : String → List String → Result (String × String × String × String)
four_fields e (a ∷ b ∷ c ∷ d ∷ []) = ok (a, b, c, d)
four_fields e _ = err e

-- `strings.Fields(s)[1]`
abbrev pub second_word : List String → Result String
second_word (_ ∷ word ∷ _) = ok word
second_word _ = panic "index out of range"

module _ (g : Library) where
  -- `parseWithK`
  unfoldable pub parse_with_k : String → ℕ
  parse_with_k s =
      if g.float_fails s && contains s "." && g.has_suffix s "k"
      then g.float_thousand (g.float (g.replace_all s "k" ""))
      else g.float s

  abbrev pub without : String → String → String
  without line part = g.trim_space (g.replace_all line part "")

  abbrev pub expected : String → String → String
  expected what line = "expected " <> (what <> (" from " <> g.quoted line))

  unfoldable pub parse_running : Bool → String → Output → Result State
  parse_running prev line rs =
      then_do
        (two_fields (expected "2 fields" line)
          (g.fields (g.replace_all (g.replace_all line "Running " " ") "test @" " ")))
        λ (a, b). ok (prev, record rs { duration = g.duration a; endpoint = g.trim_space b })

  unfoldable pub parse_threads : Bool → String → Output → Result State
  parse_threads prev line rs =
      then_do
        (two_fields (expected "2 numbers" line)
          (g.fields (g.replace_all (g.replace_all line " threads and " " ") " connections" " ")))
        λ (a, b). ok (prev, record rs { threads = g.int a; connections = g.int b })

  unfoldable pub parse_latency : String → Output → Result State
  parse_latency line rs =
      then_do (four_fields (expected "4 numbers" line) (g.fields (g.replace_all line "Latency" "")))
        λ (a, b, c, d). ok (
          false,
          record rs {
            latency_avg = g.duration a;
            latency_avg_ms = g.milliseconds (g.duration a);
            latency_stdev = g.duration b;
            latency_max = g.duration c;
          },
        )

  unfoldable pub parse_req : Bool → String → Output → Result State
  unfolding parse_with_k
  parse_req prev line rs =
      then_do (four_fields (expected "4 numbers" line) (g.fields (g.replace_all line "Req/Sec" "")))
        λ (a, b, c, d). ok (
          prev,
          record rs {
            requests_per_sec_avg = parse_with_k a;
            requests_per_sec_stdev = parse_with_k b;
            requests_per_sec_max = parse_with_k c;
          },
        )

  unfoldable pub parse_requests_in : Bool → String → Output → Result State
  parse_requests_in prev line rs =
      then_do
        (three_fields (expected "3 numbers" line) (
          g.fields (
            g.replace_all (g.replace_all (g.replace_all line " requests in " " ") ", " " ") " read"
              "")))
        λ (a, b, c). ok (
          prev,
          record rs {
            total_requests = g.uint a;
            total_took = g.duration b;
            total_read_data = c;
            total_read_data_bytes = g.bytes c;
          },
        )

  -- Each field is a name and a number; one without a second word is an index out of range.
  unfoldable pub parse_errors : Bool → String → Output → Result State
  parse_errors prev line rs =
      then_do
        (four_fields (expected "4 fields" line) (g.split (without line "Socket errors:") ", "))
        λ (a, b, c, d). then_do (second_word (g.fields a)) λ connect.
          then_do (second_word (g.fields b)) λ read. then_do (second_word (g.fields c)) λ write.
            then_do (second_word (g.fields d)) λ timeout. ok (
              prev,
              record rs {
                errors_connect = g.int connect;
                errors_read = g.int read;
                errors_write = g.int write;
                errors_timeout = g.int timeout;
              },
            )

  unfoldable pub parse_per_sec : Bool → String → Output → Result State
  parse_per_sec prev line rs =
      then_do (two_fields (expected "2 fields" line) (g.fields line))
        λ (a, b). ok (prev, record rs { requests_per_sec = g.float b })

  -- The cases of the switch, in their order, on a trimmed line.
  unfoldable pub parse_line : Bool → String → Output → Result State
  parse_line prev line rs =
      if contains line "Running" && contains line "test @"
      then parse_running prev line rs
      else if contains line " threads and " && contains line " connections"
      then parse_threads prev line rs
      else if starts_with line "Thread Stats"
      then ok (true, rs)
      else if starts_with line "Latency Distribution"
      then ok (prev, rs)
      else if prev && starts_with line "Latency"
      then parse_latency line rs
      else if starts_with line "Req/Sec"
      then parse_req prev line rs
      else if starts_with line "50%"
      then ok (prev, record rs { latency_50_pct = g.duration (without line "50%") })
      else if starts_with line "75%"
      then ok (prev, record rs { latency_75_pct = g.duration (without line "75%") })
      else if starts_with line "90%"
      then ok (prev, record rs { latency_90_pct = g.duration (without line "90%") })
      else if starts_with line "99%"
      then ok (prev, record rs { latency_99_pct = g.duration (without line "99%") })
      else if contains line " requests in " && contains line " read"
      then parse_requests_in prev line rs
      else if starts_with line "Socket errors:"
      then parse_errors prev line rs
      else if starts_with line "Requests/sec:"
      then parse_per_sec prev line rs
      else if starts_with line "Transfer/sec:"
      then ok (
        prev,
        record rs {
          transfer_per_sec = without line "Transfer/sec:";
          transfer_per_sec_bytes = g.bytes (without line "Transfer/sec:");
        },
      )
      else ok (prev, rs)

  unfoldable pub parse_lines : List String → State → Result State
  parse_lines [] st = ok st
  parse_lines (line ∷ rest) (prev, rs) =
      then_do (parse_line prev (g.trim_space line) rs) (parse_lines rest)

  abbrev pub nothing : String → Output
  nothing s = record {
    output = s;
    duration = pos 0;
    endpoint = "";
    threads = pos 0;
    connections = pos 0;
    total_took = pos 0;
    requests_per_sec = 0;
    transfer_per_sec = "";
    transfer_per_sec_bytes = 0;
    total_requests = 0;
    total_read_data = "";
    total_read_data_bytes = 0;
    latency_50_pct = pos 0;
    latency_75_pct = pos 0;
    latency_90_pct = pos 0;
    latency_99_pct = pos 0;
    latency_avg_ms = 0;
    latency_avg = pos 0;
    requests_per_sec_avg = 0;
    latency_stdev = pos 0;
    requests_per_sec_stdev = 0;
    latency_max = pos 0;
    requests_per_sec_max = 0;
    errors_connect = pos 0;
    errors_read = pos 0;
    errors_write = pos 0;
    errors_timeout = pos 0;
  }

  unfoldable pub parse : String → Result Output
  parse s = then_do (parse_lines (g.lines s) (false, nothing s)) λ (_, rs). ok rs
