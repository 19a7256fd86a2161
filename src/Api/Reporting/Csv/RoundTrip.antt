-- ===== src/Api/Reporting/Csv/RoundTrip.antt =====
-- A reader gets back the cells of the exported report.
use Prim.Native.Char.{Char, code}
use text.Mathlib.TextLemmas.{nil-append, cons-append, append_assoc, append-nil}
use carbon_veritas.Base.{
  ◌≡◌, refl, sym, ap, ◌∙◌, ℕ, String, false, List, [], ◌∷◌, ◌++◌, map, ◌==◌, join, glue, arith,
  Bool-cases, inl, inr, All,
}
use carbon_veritas.Api.Reporting.Csv.{
  Scope3LineItem, csv_headers, is_special, needs_quotes, double_quotes, escape_csv, line_cells,
  csv_line, end_rows, to_scope3_csv,
}
use carbon_veritas.Api.Reporting.Csv.Reader.{
  keep, start, plain, quoted, closing, delimit, read_char, read_from, read_csv, without_mark,
}

-- A text that ends a cell, in any mode outside quotes.
abbrev Ends : String → List String → List (List String) → Type 0
Ends t cells rows =
    (read_from start t ≡ ("", cells, rows))
    × (read_from plain t ≡ ("", cells, rows))
    × (read_from closing t ≡ ("", cells, rows))

nothing-Ends : Ends "" [] []
unfolding read_from
nothing-Ends = (refl, refl, refl)

comma-Ends :
    (s cell : String) (cells : List String) (rows : List (List String))
    → read_from start s ≡ (cell, cells, rows)
    → Ends (String.◌∷◌ "," s) (cell ∷ cells) rows
unfolding read_from read_char delimit
comma-Ends s cell cells rows e = (rw e refl, rw e refl, rw e refl)

newline-Ends :
    (s cell : String) (cells : List String) (rows : List (List String))
    → read_from start s ≡ (cell, cells, rows)
    → Ends (String.◌∷◌ "\n" s) [] ((cell ∷ cells) ∷ rows)
unfolding read_from read_char delimit
newline-Ends s cell cells rows e = (rw e refl, rw e refl, rw e refl)

one_char : (c : Char) (x : String) → glue (String.◌∷◌ c "") x ≡ String.◌∷◌ c x
one_char c x = cons-append c "" x ∙ ap (String.◌∷◌ c) (nil-append x)

quote_both :
    (d t : String) → glue (glue "\"" (glue d "\"")) t ≡ String.◌∷◌ "\"" (glue d (String.◌∷◌ "\"" t))
quote_both d t =
    append_assoc "\"" (glue d "\"") t
    ∙ one_char "\"" (glue (glue d "\"") t)
    ∙ ap (String.◌∷◌ "\"") (append_assoc d "\"" t ∙ ap (glue d) (one_char "\"" t))

module _ (t : String) (cells : List String) (rows : List (List String))
    (ends : Ends t cells rows) where
  -- An ordinary character in a mode outside quotes.
  plain_char :
      (n : ℕ)
      → is_special n ≡ false
      → (read_char start n ≡ (plain, keep)) × (read_char plain n ≡ (plain, keep))
  unfolding read_char delimit is_special
  plain_char n h = ground arith

  plain_text : (f : String) → needs_quotes f ≡ false → read_from plain (glue f t) ≡ (f, cells, rows)
  unfolding needs_quotes read_from
  plain_text String.[] h = rw (nil-append t) ends.1
  plain_text (String.◌∷◌ c s) h = elim (Bool-cases (is_special (code c))) [
    | inl special ↦ ground arith
    | inr ordinary ↦
        let later : needs_quotes s ≡ false = ground arith in
        rw (cons-append c s t, (plain_char (code c) ordinary).1, plain_text s later) refl
  ]

  quoted_text :
      (f : String)
      → read_from quoted (glue (double_quotes f) (String.◌∷◌ "\"" t)) ≡ (f, cells, rows)
  unfolding read_from read_char double_quotes
  quoted_text String.[] = rw (nil-append (String.◌∷◌ "\"" t)) ends.2
  quoted_text (String.◌∷◌ c s) = elim (Bool-cases (code c == b'"')) [
    | inl quote ↦
        rw
          (
            quote,
            cons-append c (String.◌∷◌ c (double_quotes s)) (String.◌∷◌ "\"" t),
            cons-append c (double_quotes s) (String.◌∷◌ "\"" t),
            quote,
            quote,
            quoted_text s,
          )
          refl
    | inr other ↦
        rw (other, cons-append c (double_quotes s) (String.◌∷◌ "\"" t), other, quoted_text s) refl
  ]

  unquoted_cell :
      (f : String) → needs_quotes f ≡ false → read_from start (glue f t) ≡ (f, cells, rows)
  unfolding needs_quotes read_from
  unquoted_cell String.[] h = rw (nil-append t) ends.0
  unquoted_cell (String.◌∷◌ c s) h = elim (Bool-cases (is_special (code c))) [
    | inl special ↦ ground arith
    | inr ordinary ↦
        let later : needs_quotes s ≡ false = ground arith in
        rw (cons-append c s t, (plain_char (code c) ordinary).0, plain_text s later) refl
  ]

  -- An escaped cell at the start of a cell.
  escaped_cell : (f : String) → read_from start (glue (escape_csv f) t) ≡ (f, cells, rows)
  unfolding escape_csv read_from read_char delimit
  escaped_cell f = elim (Bool-cases (needs_quotes f)) [
    | inl special ↦ rw (special, quote_both (double_quotes f) t) (quoted_text f)
    | inr ordinary ↦ rw ordinary (unquoted_cell f ordinary)
  ]

read_line :
    (c : String) (cs : List String) (t : String) (rows : List (List String))
    → Ends t [] rows
    → read_from start (glue (csv_line (c ∷ cs)) t) ≡ (c, cs, rows)
unfolding csv_line join
read_line c [] t rows ends = escaped_cell t [] rows ends c
read_line c (d ∷ ds) t rows ends =
    let rest = csv_line (d ∷ ds) in
    rw
      (
        append_assoc (escape_csv c) (glue "," rest) t,
        append_assoc "," rest t,
        one_char "," (glue rest t),
      )
      (escaped_cell (String.◌∷◌ "," (glue rest t)) (d ∷ ds) rows
        (comma-Ends (glue rest t) d ds rows (read_line d ds t rows ends)) c)

-- Rows with at least one cell.
abbrev HasCell : List String → Type 0
HasCell [] = ⊥
HasCell (c ∷ cs) = Unit

abbrev written : List (List String) → String
written rows = join "\n" (map csv_line rows)

read_written :
    (c : String) (cs : List String) (rs : List (List String))
    → All HasCell rs
    → read_from start (written ((c ∷ cs) ∷ rs)) ≡ (c, cs, rs)
unfolding join
read_written c cs [] hs =
    rw (sym (append-nil (csv_line (c ∷ cs)))) (read_line c cs "" [] nothing-Ends)
read_written c cs ([] ∷ rs) (g, hs) = elim g [ ]
read_written c cs ((d ∷ ds) ∷ rs) (g, hs) =
    let later = written ((d ∷ ds) ∷ rs) in
    rw (one_char "\n" later) (
      read_line c cs (String.◌∷◌ "\n" later) ((d ∷ ds) ∷ rs)
        (newline-Ends later d ds rs (read_written d ds rs hs)))

-- The rows of the report: behind the line items, if there are any, comes an empty line.
abbrev pub report_rows : (ℕ → String) → List Scope3LineItem → List (List String)
report_rows show [] = []
report_rows show (item ∷ items) =
    line_cells show item ∷ map (line_cells show) items ++ ("" ∷ []) ∷ []

lines-HasCell :
    (show : ℕ → String) (items : List Scope3LineItem)
    → All HasCell (map (line_cells show) items ++ ("" ∷ []) ∷ [])
unfolding line_cells
lines-HasCell show [] = (tt, tt)
lines-HasCell show (item ∷ items) = (tt, lines-HasCell show items)

report_rows-HasCell :
    (show : ℕ → String) (items : List Scope3LineItem) → All HasCell (report_rows show items)
unfolding line_cells
report_rows-HasCell show [] = tt
report_rows-HasCell show (item ∷ items) = (tt, lines-HasCell show items)

lines_written :
    (show : ℕ → String) (items : List Scope3LineItem)
    → map csv_line (map (line_cells show) items ++ ("" ∷ []) ∷ [])
      ≡ map (λ item. csv_line (line_cells show item)) items ++ "" ∷ []
unfolding csv_line join escape_csv needs_quotes
lines_written show [] = refl
lines_written show (item ∷ items) =
    ap (λ l. csv_line (line_cells show item) ∷ l) (lines_written show items)

rows_written :
    (show : ℕ → String) (items : List Scope3LineItem)
    → map csv_line (report_rows show items)
      ≡ end_rows (map (λ item. csv_line (line_cells show item)) items)
rows_written show [] = refl
rows_written show (item ∷ items) =
    ap (λ l. csv_line (line_cells show item) ∷ l) (lines_written show items)

header_written : csv_line csv_headers ≡ join "," csv_headers
unfolding csv_line join escape_csv needs_quotes is_special
header_written = refl

-- A reader of CSV, given the exported report without its byte order mark, gets the headers and
-- then the cells of every line item as they were, whatever commas, quotes and line breaks they
-- have; behind the line items, if there are any, comes one empty line.
pub read-to_scope3_csv :
    (show : ℕ → String) (items : List Scope3LineItem)
    → read_csv (without_mark (to_scope3_csv show items)) ≡ csv_headers ∷ report_rows show items
unfolding to_scope3_csv without_mark read_csv
read-to_scope3_csv show items =
    rw
      (
        one_char "\u{feff}" (
            join "\n" (
              join "," csv_headers
              ∷ end_rows (map (λ item. csv_line (line_cells show item)) items))),
        sym header_written,
        sym (rows_written show items),
        read_written _ _ (report_rows show items) (report_rows-HasCell show items),
      )
      refl
