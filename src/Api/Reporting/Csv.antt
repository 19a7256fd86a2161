-- ===== src/Api/Reporting/Csv.antt =====
-- The line items of the scope 3 report and their CSV, api/src/reporting/reporting.service.ts.
-- `iso` is `toISOString` of a date, `show` writes a number.
pub mod Reader
pub mod RoundTrip
mod Tests
use Prim.Native.Char.{code}
use carbon_veritas.Base.{
  ℕ, String, Bool, true, false, ◌||◌, Option, none, some, List, [], ◌∷◌, ◌++◌, map, ◌==◌, or_else,
  if◌then◌else◌, join, glue,
}
use carbon_veritas.Store.Schema.{Credit, Retirement}

pub record Scope3LineItem : Type 0 where
  pub retirement_id : String
  pub credit_id : ℕ
  pub project_id : String
  pub methodology : String
  pub geography : String
  pub vintage_start : String
  pub vintage_end : String
  pub serial_prefix : String
  pub tonnes_retired : ℕ
  pub beneficiary : String
  pub reason : String
  pub accounting_period : String
  pub retirement_date : String
  pub tx_hash : String
  pub ledger_sequence : ℕ
  pub certificate_hash : Option String

-- `text.split('T')[0]`
unfoldable pub before_t : String → String
before_t String.[] = ""
before_t (String.◌∷◌ c s) =
    let rest = before_t s in if code c == b'T' then "" else String.◌∷◌ c rest

unfoldable pub to_line_item : (ℕ → String) → Retirement → Credit → Scope3LineItem
to_line_item iso row credit = record {
  retirement_id = row.id;
  credit_id = credit.credit_id;
  project_id = credit.project_id;
  methodology = credit.methodology;
  geography = credit.geography;
  vintage_start = before_t (iso credit.vintage_start);
  vintage_end = before_t (iso credit.vintage_end);
  serial_prefix = credit.serial_prefix;
  tonnes_retired = row.tonnes_retired;
  beneficiary = row.beneficiary;
  reason = row.reason;
  accounting_period = row.accounting_period;
  retirement_date = iso row.timestamp;
  tx_hash = row.tx_hash;
  ledger_sequence = row.ledger_sequence;
  certificate_hash = row.certificate_hash;
}

abbrev pub csv_headers : List String
csv_headers =
    "credit_id" ∷ "project_id" ∷ "methodology" ∷ "geography" ∷ "vintage_start" ∷ "vintage_end"
    ∷ "serial_prefix" ∷ "tonnes_retired" ∷ "beneficiary" ∷ "reason" ∷ "accounting_period"
    ∷ "retirement_date" ∷ "tx_hash" ∷ "ledger_sequence" ∷ "certificate_hash" ∷ []

-- `/[",\n\r]/.test(value)`
unfoldable pub is_special : ℕ → Bool
is_special n = n == b'"' || (n == b',' || (n == b'\n' || n == b'\r'))

unfoldable pub needs_quotes : String → Bool
needs_quotes String.[] = false
needs_quotes (String.◌∷◌ c s) =
    let rest = needs_quotes s in if is_special (code c) then true else rest

-- `value.replace(/"/g, '""')`
unfoldable pub double_quotes : String → String
double_quotes String.[] = ""
double_quotes (String.◌∷◌ c s) =
    let rest = double_quotes s in
    if code c == b'"' then String.◌∷◌ c (String.◌∷◌ c rest) else String.◌∷◌ c rest

unfoldable pub escape_csv : String → String
escape_csv value = if needs_quotes value then glue "\"" (glue (double_quotes value) "\"") else value

-- The cells of one line, before they are escaped.
unfoldable pub line_cells : (ℕ → String) → Scope3LineItem → List String
line_cells show item =
    show item.credit_id
    ∷ item.project_id
    ∷ item.methodology
    ∷ item.geography
    ∷ item.vintage_start
    ∷ item.vintage_end
    ∷ item.serial_prefix
    ∷ show item.tonnes_retired
    ∷ item.beneficiary
    ∷ item.reason
    ∷ item.accounting_period
    ∷ item.retirement_date
    ∷ item.tx_hash
    ∷ show item.ledger_sequence
    ∷ or_else item.certificate_hash ""
    ∷ []

unfoldable pub csv_line : List String → String
csv_line cells = join "," (map escape_csv cells)

-- `if (rows.length > 1) rows.push('')`
abbrev pub end_rows : List String → List String
end_rows [] = []
end_rows (line ∷ lines) = line ∷ lines ++ "" ∷ []

abbrev pub byte_order_mark : String
byte_order_mark = "\u{feff}"

unfoldable pub to_scope3_csv : (ℕ → String) → List Scope3LineItem → String
to_scope3_csv show items =
    let lines = map (λ item. csv_line (line_cells show item)) items in
    glue byte_order_mark (join "\n" (join "," csv_headers ∷ end_rows lines))
