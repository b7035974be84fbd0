-- ===== src/AlbLog/Agrees.antt =====
-- The table of `ConvertToCSV` against the entries of `Parse`.
use aws_k8s_tester.Common.{String, List, [], ◌∷◌, ◌++◌, map, ◌≡◌, refl, ap, ◌∙◌, sym, subst}
use aws_k8s_tester.Runtime.Outside.{Reply, done, failed}
use aws_k8s_tester.Runtime.Action.{Result, ok, err, panic, hung}
use aws_k8s_tester.Runtime.Chain.{then_do}
use aws_k8s_tester.AlbLog.Entry.{
  Log, Reads, line, broken, end_of_file, Library, split_log, to_log, read_logs, parse_opened, parse,
}
use aws_k8s_tester.AlbLog.Table.{
  log_header, to_row, read_rows, rows_opened, read_files, save, convert_to_csv,
}

-- The texts of an entry, in the order of the header.
abbrev pub texts : Log → List String
texts d =
    d.log_type ∷ d.timestamp ∷ d.elb ∷ d.client_port ∷ d.target_port ∷ d.request_processing_time
    ∷ d.target_processing_time ∷ d.response_processing_time ∷ d.elb_status_code
    ∷ d.target_status_code ∷ d.received_bytes ∷ d.sent_bytes ∷ d.request ∷ d.user_agent
    ∷ d.ssl_cipher ∷ d.ssl_protocol ∷ d.target_group_arn ∷ d.trace_id ∷ d.domain_name
    ∷ d.chosen_cert_arn ∷ d.matched_rule_priority ∷ d.request_creation_time ∷ d.actions_executed
    ∷ d.redirect_url ∷ []

-- The rows of the entries, behind those there are.
abbrev pub with_rows : List (List String) → List Log → List (List String)
with_rows rows logs = rows ++ map texts logs

append_nil : (rows : List (List String)) → with_rows rows [] ≡ rows
append_nil [] = refl
append_nil (r ∷ rows) = rw (append_nil rows) refl

append_one :
    (rows : List (List String)) (logs : List Log) (d : Log)
    → with_rows rows logs ++ (texts d ∷ []) ≡ with_rows rows (logs ++ (d ∷ []))
append_one [] [] d = refl
append_one [] (e ∷ logs) d = ap (λ r. texts e ∷ r) (append_one [] logs d)
append_one (r ∷ rows) logs d = ap (λ rs. r ∷ rs) (append_one rows logs d)

append_more :
    (rows : List (List String)) (logs more : List Log)
    → with_rows (with_rows rows logs) more ≡ with_rows rows (logs ++ more)
append_more [] [] more = refl
append_more [] (e ∷ logs) more = ap (λ r. texts e ∷ r) (append_more [] logs more)
append_more (r ∷ rows) logs more = ap (λ rs. r ∷ rs) (append_more rows logs more)

module _ (g : Library) where
  to_row-to_log :
      (l : String) (fields : List String)
      → to_row g l fields ≡ then_do (to_log g l fields) λ d. ok (texts d)
  unfolding to_row to_log
  to_row-to_log l
        (a0 ∷ a1 ∷ a2 ∷ a3 ∷ a4 ∷ a5 ∷ a6 ∷ a7 ∷ a8 ∷ a9 ∷ a10 ∷ a11 ∷ a12 ∷ a13 ∷ a14 ∷ a15 ∷ a16
          ∷ a17 ∷ a18 ∷ a19 ∷ a20 ∷ a21 ∷ a22 ∷ a23 ∷ []) =
      refl
  to_row-to_log l fields = refl

  -- The entries of several files, one file after the other.
  unfoldable pub parse_files : List String → Result (List Log)
  unfolding parse
  parse_files [] = ok []
  parse_files (p ∷ ps) =
      then_do (parse g p) λ logs. then_do (parse_files ps) λ more. ok (logs ++ more)

  -- The rows that the entries are read as.
  abbrev rows_of : List (List String) → Result (List Log) → Result (List (List String))
  rows_of rows r = then_do r λ logs. ok (with_rows rows logs)

  module _ (rest : Reads) (rows : List (List String)) (logs : List Log)
      (rest_read : (ls : List Log)
        → read_rows g rest (with_rows rows ls) ≡ rows_of rows (read_logs g rest ls)) where
    read_entry :
        (r : Result Log)
        → then_do
            (then_do r λ d. ok (texts d))
            (λ row. read_rows g rest (with_rows rows logs ++ (row ∷ [])))
          ≡ rows_of rows (then_do r λ d. read_logs g rest (logs ++ (d ∷ [])))
    read_entry (ok d) = rw (append_one rows logs d) (rest_read (logs ++ (d ∷ [])))
    read_entry (err e) = refl
    read_entry (panic e) = refl
    read_entry hung = refl

    read_fields :
        (l : String) (r : Result (List String))
        → then_do r (λ fields.
          then_do (to_row g l fields) λ row. read_rows g rest (with_rows rows logs ++ (row ∷ [])))
          ≡ rows_of rows (
              then_do r
                λ fields. then_do (to_log g l fields) λ d. read_logs g rest (logs ++ (d ∷ [])))
    read_fields l (ok fields) = rw (to_row-to_log l fields) (read_entry (to_log g l fields))
    read_fields l (err e) = refl
    read_fields l (panic e) = refl
    read_fields l hung = refl

  read_rows-read_logs :
      (reads : Reads) (rows : List (List String)) (logs : List Log)
      → read_rows g reads (with_rows rows logs) ≡ rows_of rows (read_logs g reads logs)
  unfolding read_rows read_logs
  read_rows-read_logs (line l rest) rows logs =
      read_fields rest rows logs (read_rows-read_logs rest rows) l (split_log g l)
  read_rows-read_logs (broken e) rows logs = refl
  read_rows-read_logs (end_of_file s) rows logs = refl

  read_opened :
      (rows : List (List String)) (r : Reply Reads)
      → rows_opened g rows r ≡ rows_of rows (parse_opened g r)
  unfolding read_rows read_logs
  read_opened rows (done reads) =
      subst (λ rs. read_rows g reads rs ≡ rows_of rows (read_logs g reads [])) (append_nil rows)
        (read_rows-read_logs reads rows [])
  read_opened rows (failed e) = refl

  module _ (ps : List String)
      (rest_read : (rows : List (List String))
        → read_files g ps rows ≡ rows_of rows (parse_files ps)) where
    read_rest :
        (rows : List (List String)) (logs : List Log) (r : Result (List Log))
        → rows_of (with_rows rows logs) r ≡ rows_of rows (then_do r λ more. ok (logs ++ more))
    read_rest rows logs (ok more) = ap ok (append_more rows logs more)
    read_rest rows logs (err e) = refl
    read_rest rows logs (panic e) = refl
    read_rest rows logs hung = refl

    read_next :
        (rows : List (List String)) (r : Result (List Log))
        → then_do (rows_of rows r) (read_files g ps)
          ≡ rows_of rows (then_do r λ logs. then_do (parse_files ps) λ more. ok (logs ++ more))
    read_next rows (ok logs) =
        rest_read (with_rows rows logs) ∙ read_rest rows logs (parse_files ps)
    read_next rows (err e) = refl
    read_next rows (panic e) = refl
    read_next rows hung = refl

  read_files-parse_files :
      (ps : List String) (rows : List (List String))
      → read_files g ps rows ≡ rows_of rows (parse_files ps)
  unfolding read_files parse_files parse
  read_files-parse_files [] rows = ap ok (sym (append_nil rows))
  read_files-parse_files (p ∷ ps) rows =
      rw (read_opened rows (g.open_file p))
        (read_next ps (read_files-parse_files ps) rows (parse_opened g (g.open_file p)))

  saved_from :
      (output : String) (r : Result (List Log))
      → then_do (rows_of [] r) (λ rows. save g log_header rows output)
        ≡ then_do r λ logs. save g log_header (map texts logs) output
  saved_from output (ok logs) = refl
  saved_from output (err e) = refl
  saved_from output (panic e) = refl
  saved_from output hung = refl

  -- `convert_to_csv` reads all files and saves a table whose rows are the 24 texts of the entries that
  -- `parse` returns for the files, in their order; it fails with the error of the first file for which
  -- `parse` fails, and otherwise as `save` does.
  pub convert_to_csv-parse_files :
      (output : String) (ps : List String)
      → convert_to_csv g output ps
        ≡ then_do (parse_files ps) λ logs. save g log_header (map texts logs) output
  unfolding convert_to_csv
  convert_to_csv-parse_files output ps =
      rw (read_files-parse_files ps []) (saved_from output (parse_files ps))
