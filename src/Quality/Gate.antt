-- ===== src/Quality/Gate.antt =====
-- What passes `check_batch`, what it refuses, and what it leaves in quarantine.
use batch_api_snowflake.Base.{◌≡◌, refl, ◌≢◌, ap, ◌∙◌, sym, ℕ, ◌*◌, ◌<◌, ◌≤◌, String, false, not}
use batch_api_snowflake.Base.{
  none, some, List, [], ◌∷◌, length, keep, is_empty, if◌then◌else◌, arith,
}
use batch_api_snowflake.Base.{eqb, map, ◌++◌, ◌<>◌, decimal}
use batch_api_snowflake.Errors.{Error, Result, ok, err, data_quality_error}
use batch_api_snowflake.Values.{Datetime, Row}
use batch_api_snowflake.Calendar.{Date, isoformat}
use batch_api_snowflake.Contract.{Contract, Rejected, split_valid}
use batch_api_snowflake.Contract.Splitting.{
  length-rows_of, is_valid, split_valid-Split, length-split_valid,
}
use batch_api_snowflake.Disk.{QuarantineLine, jsonl, FilePath, FilePath-discrete, Disk, read_file}
use batch_api_snowflake.Landing.Publishing.{read-write}
use batch_api_snowflake.Quality.{
  Percent, default_max_reject_ratio, QualityReport, exceeds, quarantine_path,
}
use batch_api_snowflake.Quality.{
  quarantine_lines, write_quarantine, report_of, pass_gate, check_batch,
}

pass_gate-eq-ok :
    (acc accepted : List Row) (report r : QualityReport) (limit : Percent)
    → pass_gate acc report limit ≡ ok (accepted, r)
    → (acc ≡ accepted) × (report ≡ r) × (exceeds report limit ≡ false)
unfolding pass_gate
pass_gate-eq-ok acc accepted report r limit h = ground arith

not_exceeds :
    (r : QualityReport) (limit : Percent) (n : ℕ)
    → r.total_rows ≡ n
    → r.rejected_rows ≤ n
    → exceeds r limit ≡ false
    → r.rejected_rows * 100 ≤ limit * n
unfolding exceeds
not_exceeds r limit n e le h = rw (← e) (ground (arith, le, e))

module _ (c : Contract) (rows : List Row) (city_id : String) (day : Date) (root : FilePath)
    (now : Datetime) (limit : Percent) where
  -- The file that quarantines the rejected rows of the batch.
  abbrev pub quarantine_file : FilePath
  quarantine_file =
      root ++ c.name ∷ ("v" <> decimal c.version) ∷ isoformat day ∷ (city_id <> ".jsonl") ∷ []

  -- The line of a rejected row: the time, the contract, the reasons and the row.
  abbrev pub line_of : Rejected → QuarantineLine
  line_of rejected = record {
    quarantined_at_utc = now;
    contract = c.name <> (".v" <> decimal c.version);
    reasons = rejected.1;
    row = rejected.0;
  }

  quarantine_lines-eq-map :
      (rejected : List Rejected) → quarantine_lines c now rejected ≡ map line_of rejected
  unfolding quarantine_lines
  quarantine_lines-eq-map [] = refl
  quarantine_lines-eq-map (r ∷ rejected) =
      ap (λ lines. line_of r ∷ lines) (quarantine_lines-eq-map rejected)

  -- The report, from the two lists of the split.
  abbrev pub report : List Row → List Rejected → QualityReport
  report accepted rejected =
      report_of c rows city_id day accepted rejected
        (if is_empty rejected then none else some (quarantine_path root c city_id day))

  check_batch_lem :
      (accepted : List Row) (rejected : List Rejected) (d : Disk)
      → split_valid c rows ≡ ok (accepted, rejected)
      → check_batch c rows city_id day root now limit d ≡ (
        pass_gate accepted (report accepted rejected) limit,
        (write_quarantine root c now city_id day rejected d).1,
      )
  unfolding check_batch
  check_batch_lem accepted [] d e = rw e
  check_batch_lem accepted (r ∷ rejected) d e = rw e

  check_batch-raises :
      (d : Disk) (e : Error)
      → split_valid c rows ≡ err e
      → (check_batch c rows city_id day root now limit d).0 ≡ err e
  unfolding check_batch
  check_batch-raises d e es = rw es

  -- When `check_batch` returns, it returns exactly the valid rows, in their order; its report
  -- counts the other rows as rejected, and these are at most the given percentage of the batch.
  pub check_batch-accepts :
      (d : Disk) (accepted : List Row) (r : QualityReport)
      → (check_batch c rows city_id day root now limit d).0 ≡ ok (accepted, r)
      → (accepted ≡ keep (is_valid c) rows)
        × (r.rejected_rows ≡ length (keep (λ row. not (is_valid c row)) rows))
        × (r.rejected_rows * 100 ≤ limit * length rows)
  unfolding report_of
  check_batch-accepts d accepted r h = go (split_valid c rows) refl
    where
      go :
          (s : Result (List Row × List Rejected))
          → split_valid c rows ≡ s
          → (accepted ≡ keep (is_valid c) rows)
            × (r.rejected_rows ≡ length (keep (λ row. not (is_valid c row)) rows))
            × (r.rejected_rows * 100 ≤ limit * length rows)
      go (err e) es = absurd (cc (check_batch-raises d e es, h))
      go (ok (acc, rej)) es =
          let passed : pass_gate acc (report acc rej) limit ≡ ok (accepted, r) =
            rw (check_batch_lem acc rej d es) at h in
          let (same, made, low) = pass_gate-eq-ok acc accepted (report acc rej) r limit passed in
          let (valid, others, _) = split_valid-Split c rows (acc, rej) es in
          let counted : r.rejected_rows ≡ length rej =
            ap (λ (s : QualityReport). s.rejected_rows) (sym made) in
          let total : r.total_rows ≡ length rows =
            ap (λ (s : QualityReport). s.total_rows) (sym made) in
          (
            sym same ∙ valid,
            omega (arith, counted, ap length others, length-rows_of rej),
            not_exceeds r limit (length rows) total
                (omega (arith, counted, length-split_valid c rows acc rej es)) (rw (← made) low),
          )

  -- A batch with a row that violates the contract leaves the file of the contract, its version, the
  -- day and the city under the quarantine root with one line for each such row, in order: the time,
  -- the contract, the reasons for which `split_valid` rejects it and the row; whether the gate then lets the
  -- batch pass or raises, and with every other file as it was.
  pub read-check_batch :
      (accepted : List Row) (rejected : List Rejected) (d : Disk) (q : FilePath)
      → split_valid c rows ≡ ok (accepted, rejected)
      → rejected ≢ []
      → read_file q (check_batch c rows city_id day root now limit d).1 ≡ (
          if eqb FilePath-discrete q quarantine_file
          then some (jsonl (map line_of rejected))
          else read_file q d)
  unfolding write_quarantine quarantine_path
  read-check_batch accepted [] d q e h = absurd (h refl)
  read-check_batch accepted (r ∷ rejected) d q e h =
      rw (check_batch_lem accepted (r ∷ rejected) d e, ← quarantine_lines-eq-map (r ∷ rejected))
        (read-write _ q _ d)

-- Under the default ratio a batch of fewer than 50 rows, such as the 24 hours of a day, is refused
-- as soon as one of its rows violates the contract.
pub check_batch-small :
    (c : Contract) (rows : List Row) (city_id : String) (day : Date) (root : FilePath)
    (now : Datetime) (accepted : List Row) (rejected : List Rejected) (d : Disk)
    → split_valid c rows ≡ ok (accepted, rejected)
    → rejected ≢ []
    → length rows < 50
    → (check_batch c rows city_id day root now default_max_reject_ratio d).0
      ≡ err (data_quality_error (length rejected) (length rows))
unfolding pass_gate report_of
check_batch-small c rows city_id day root now accepted [] d e h few = absurd (h refl)
check_batch-small c rows city_id day root now accepted (r ∷ rejected) d e h few =
    rw
      (check_batch_lem c rows city_id day root now default_max_reject_ratio accepted (r ∷ rejected)
        d e)
      (ground (arith, length-split_valid c rows accepted (r ∷ rejected) e))
