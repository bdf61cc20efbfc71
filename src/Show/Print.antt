-- ===== src/Show/Print.antt =====
-- The lines that the commands of src/main.rs print, and `cmd_export`.
use netmeter.Prelude.{
  ℕ, ◌-◌, ◌++◌, Bool, List, [], ◌∷◌, Option, none, some, Text, codes, length, map, replicate,
  text_eq,
}
use netmeter.Prelude.Int.{ℤ, pos, negsuc}
use netmeter.Prelude.Decimal.{print_int}
use netmeter.Capture.Nft.{Json, Items, Fields}
use netmeter.Db.{Db, Row, wan_rx, wan_tx}
use netmeter.Db.Time.{Calendar, Date}
use netmeter.Show.Status.{export_rows}

-- One call of `println!` with a text or a JSON value, or of `eprintln!`. The keys of a JSON object
-- stand in the order of the source.
pub data Line : Type 0 where
  out : Text → Line
  json : Json → Line
  warn : Text → Line

-- `{:<w}` and `{:>w}`.
abbrev pub left : ℕ → Text → Text
left w t = t ++ replicate (w - length t) b' '

abbrev pub right : ℕ → Text → Text
right w t = replicate (w - length t) b' ' ++ t

abbrev pub int_json : ℤ → Json
int_json (pos n) = Json.number n
int_json (negsuc n) = Json.negative n

abbrev pub array_of {ℓ} : {A : Type ℓ} → (A → Json) → List A → Items
array_of f [] = Items.end
array_of f (x ∷ xs) = Items.item (f x) (array_of f xs)

-- The columns after the first.
abbrev pub spaced : List Text → Text
spaced [] = []
spaced (t ∷ ts) = b' ' ∷ t ++ spaced ts

abbrev pub columns : Text → List Text → Text
columns first rest = first ++ spaced rest

abbrev pub api_version : Json
api_version = Json.number 1

-- The object with a list of rows.
abbrev pub rows_json : Items → Json
rows_json rows = Json.object (
    Fields.field (codes "api_version") api_version
      (Fields.field (codes "rows") (Json.array rows) Fields.stop))

-- The seven numbers of an exported row.
abbrev pub csv_numbers : Row → List ℤ
csv_numbers r = r.ts ∷ r.rx ∷ r.tx ∷ r.lan_rx ∷ r.lan_tx ∷ wan_rx r ∷ wan_tx r ∷ []

abbrev pub with_commas : List Text → Text
with_commas [] = []
with_commas (t ∷ []) = t
with_commas (t ∷ u ∷ ts) = t ++ b',' ∷ with_commas (u ∷ ts)

unfoldable pub csv_line : Row → Text
csv_line r = with_commas (map print_int (csv_numbers r))

abbrev pub csv_header : Line
csv_header = Line.out (codes "ts,rx,tx,lan_rx,lan_tx,wan_rx,wan_tx")

-- The bytes of a row, in the words of the JSON outputs.
unfoldable pub bytes_json : Row → Fields → Fields
bytes_json r rest = Fields.field (codes "rx") (int_json r.rx) (
    Fields.field (codes "tx") (int_json r.tx) (
      Fields.field (codes "lan_rx") (int_json r.lan_rx) (
        Fields.field (codes "lan_tx") (int_json r.lan_tx) (
          Fields.field (codes "wan_rx") (int_json (wan_rx r))
            (Fields.field (codes "wan_tx") (int_json (wan_tx r)) rest)))))

unfoldable pub export_json : Row → Json
export_json r = Json.object (Fields.field (codes "ts") (int_json r.ts) (bytes_json r Fields.stop))

-- `OutFmt`.
pub data OutFmt : Type 0 where
  csv json : OutFmt

abbrev pub export_lines : OutFmt → List Row → List Line
export_lines OutFmt.csv rows = csv_header ∷ map (λ r. Line.out (csv_line r)) rows
export_lines OutFmt.json rows = Line.json (Json.array (array_of export_json rows)) ∷ []

-- `cmd_export`; the database is none where it cannot be opened.
unfoldable pub cmd_export : Calendar → Bool → Date → Date → OutFmt → Option Db → List Line
cmd_export j local from to format none = csv_header ∷ []
cmd_export j local from to format (some db) = export_lines format (export_rows j db from to local)
