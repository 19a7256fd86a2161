-- ===== src/Api/Reporting/Csv/Tests.antt =====
-- A report with quotes and line breaks in its cells.
use carbon_veritas.Base.{◌≡◌, ℕ, String, none, [], ◌∷◌}
use carbon_veritas.Api.Reporting.Csv.{Scope3LineItem, csv_headers, to_scope3_csv}
use carbon_veritas.Api.Reporting.Csv.Reader.{read_csv, without_mark}
use carbon_veritas.Api.Reporting.Csv.RoundTrip.{report_rows, read-to_scope3_csv}

abbrev one : ℕ → String
one n = "1"

abbrev item : Scope3LineItem
item = record {
  retirement_id = "r";
  credit_id = 1;
  project_id = "p";
  methodology = "VM0007, v1";
  geography = "BR";
  vintage_start = "2020-01-01";
  vintage_end = "2021-01-01";
  serial_prefix = "A";
  tonnes_retired = 1;
  beneficiary = "the \"Acme\" company";
  reason = "line\nbreak";
  accounting_period = "2024";
  retirement_date = "2024-05-01";
  tx_hash = "h";
  ledger_sequence = 1;
  certificate_hash = none;
}

read-to_scope3_csv_example :
    read_csv (without_mark (to_scope3_csv one (item ∷ [])))
    ≡ csv_headers ∷ report_rows one (item ∷ [])
read-to_scope3_csv_example = read-to_scope3_csv one (item ∷ [])
