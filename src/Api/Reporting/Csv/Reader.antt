-- ===== src/Api/Reporting/Csv/Reader.antt =====
-- A reader of CSV texts (RFC 4180), independent of the code that writes them.
use Prim.Native.Char.{Char, code}
use carbon_veritas.Base.{ℕ, String, List, [], ◌∷◌, ◌==◌, if◌then◌else◌}

pub data Mode : Type 0 where
  start plain quoted closing : Mode

pub data Move : Type 0 where
  keep skip close_cell close_row : Move

-- What a character does, and the mode after it.
unfoldable pub delimit : ℕ → Mode × Move → Mode × Move
delimit n other =
    if n == b',' then (start, close_cell) else (if n == b'\n' then (start, close_row) else other)

unfoldable pub read_char : Mode → ℕ → Mode × Move
read_char start n = if n == b'"' then (quoted, skip) else delimit n (plain, keep)
read_char plain n = delimit n (plain, keep)
read_char quoted n = if n == b'"' then (closing, skip) else (quoted, keep)
read_char closing n = if n == b'"' then (quoted, keep) else delimit n (plain, keep)

-- The rest of a cell, the cells behind it in its row, and the rows behind that.
abbrev pub Rest : Type 0
Rest = String × List String × List (List String)

abbrev pub emit : Move → Char → Rest → Rest
emit keep c (cell, cells, rows) = (String.◌∷◌ c cell, cells, rows)
emit skip c rest = rest
emit close_cell c (cell, cells, rows) = ("", cell ∷ cells, rows)
emit close_row c (cell, cells, rows) = ("", [], (cell ∷ cells) ∷ rows)

unfoldable pub read_from : Mode → String → Rest
read_from mode String.[] = ("", [], [])
read_from mode (String.◌∷◌ c s) =
    let (mode', move) = read_char mode (code c) in emit move c (read_from mode' s)

abbrev all_rows : Rest → List (List String)
all_rows (cell, cells, rows) = (cell ∷ cells) ∷ rows

unfoldable pub read_csv : String → List (List String)
read_csv text = all_rows (read_from start text)

-- A text without its first character, the mark of the byte order.
unfoldable pub without_mark : String → String
without_mark String.[] = ""
without_mark (String.◌∷◌ c s) = s
