-- ===== src/AlbLog/Table.antt =====
-- internal/alb-log/alb-log.go: `ConvertToCSV`, and pkg/csvutil/csv.go: `Save`.
use aws_k8s_tester.Common.{String, List, [], ◌∷◌, ◌++◌, Option, none, some}
use aws_k8s_tester.Runtime.Outside.{Reply, done, failed}
use aws_k8s_tester.Runtime.Action.{Result, ok, err}
use aws_k8s_tester.Runtime.Chain.{then_do}
use aws_k8s_tester.AlbLog.Entry.{Reads, line, broken, end_of_file, Library, split_log, wrong_number}

abbrev pub log_header : List String
log_header =
    "type" ∷ "timestamp" ∷ "elb" ∷ "client_port" ∷ "target_port" ∷ "request_processing_time"
    ∷ "target_processing_time" ∷ "response_processing_time" ∷ "elb_status_code"
    ∷ "target_status_code" ∷ "received_bytes" ∷ "sent_bytes" ∷ "request" ∷ "user_agent"
    ∷ "ssl_cipher" ∷ "ssl_protocol" ∷ "target_group_arn" ∷ "trace_id" ∷ "domain_name"
    ∷ "chosen_cert_arn" ∷ "matched_rule_priority" ∷ "request_creation_time" ∷ "actions_executed"
    ∷ "redirect_url" ∷ []

module _ (g : Library) where
  -- The fields of a line when there are 24.
  unfoldable pub to_row : String → List String → Result (List String)
  to_row l
        (a0 ∷ a1 ∷ a2 ∷ a3 ∷ a4 ∷ a5 ∷ a6 ∷ a7 ∷ a8 ∷ a9 ∷ a10 ∷ a11 ∷ a12 ∷ a13 ∷ a14 ∷ a15 ∷ a16
          ∷ a17 ∷ a18 ∷ a19 ∷ a20 ∷ a21 ∷ a22 ∷ a23 ∷ []) =
      ok (
        a0 ∷ a1 ∷ a2 ∷ a3 ∷ a4 ∷ a5 ∷ a6 ∷ a7 ∷ a8 ∷ a9 ∷ a10 ∷ a11 ∷ a12 ∷ a13 ∷ a14 ∷ a15 ∷ a16
        ∷ a17 ∷ a18 ∷ a19 ∷ a20 ∷ a21 ∷ a22 ∷ a23 ∷ [])
  to_row l fields = err (wrong_number g l fields)

  -- The inner loop of `ConvertToCSV`.
  unfoldable pub read_rows : Reads → List (List String) → Result (List (List String))
  unfolding split_log to_row
  read_rows (line l rest) rows =
      then_do (split_log g l)
        λ fields. then_do (to_row l fields) λ row. read_rows rest (rows ++ (row ∷ []))
  read_rows (broken e) rows = err e
  read_rows (end_of_file s) rows = ok rows

  abbrev pub rows_opened : List (List String) → Reply Reads → Result (List (List String))
  unfolding read_rows
  rows_opened rows (done reads) = read_rows reads rows
  rows_opened rows (failed e) = err e

  unfoldable pub read_files : List String → List (List String) → Result (List (List String))
  read_files [] rows = ok rows
  read_files (p ∷ ps) rows = then_do (rows_opened rows (g.open_file p)) (read_files ps)

  -- pkg/csvutil/csv.go: `Save`. On success the file holds the header and the rows.
  abbrev pub unless_fails : {A : Type 0} → Option String → Result A → Result A
  unless_fails none r = r
  unless_fails (some e) r = err e

  abbrev pub opened : String → Option String → Option String
  opened output none = none
  opened output (some e) = g.create output

  unfoldable pub save : List String → List (List String) → String → Result (List (List String))
  save header rows output = unless_fails (opened output (g.open_truncated output)) (
      unless_fails (g.write header)
        (unless_fails (g.write_all rows) (unless_fails g.flushed (ok (header ∷ rows)))))

  unfoldable pub convert_to_csv : String → List String → Result (List (List String))
  unfolding read_files save
  convert_to_csv output ps = then_do (read_files ps []) λ rows. save log_header rows output
