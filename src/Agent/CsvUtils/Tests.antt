-- ===== src/Agent/CsvUtils/Tests.antt =====
-- Runs of the escaping of CSV fields.
use mu5250_open_ui.Base.{ℕ, ◌≡◌, refl, inl, List, [], ◌∷◌, ◌++◌}
use mu5250_open_ui.Base.Texts.{codes, decimal}
use mu5250_open_ui.Euicc.Hex.{repeat}
use mu5250_open_ui.Agent.CsvUtils.{device_datetime, contains, doubled, csv_escape}
use mu5250_open_ui.Agent.CsvUtils.Escape.{read_field, read_field-csv_escape}

-- `a,"b`
abbrev field : List ℕ
field = b'a' ∷ b',' ∷ 34 ∷ b'b' ∷ []

csv_escape_run : csv_escape field ≡ 34 ∷ b'a' ∷ b',' ∷ 34 ∷ 34 ∷ b'b' ∷ 34 ∷ []
unfolding csv_escape contains doubled
csv_escape_run = refl

read_field-csv_escape_example :
    read_field (csv_escape field ++ (b',' ∷ b'c' ∷ [])) ≡ (field, b',' ∷ b'c' ∷ [])
read_field-csv_escape_example = read_field-csv_escape field b',' (b'c' ∷ []) (inl refl)

epoch_start_run : device_datetime 0 ≡ codes "1970-01-01T00:00:00"
unfolding device_datetime decimal repeat
epoch_start_run = refl

epoch_later_run : device_datetime 1790844311 ≡ codes "2026-10-01T08:45:11"
unfolding device_datetime decimal repeat
epoch_later_run = refl
