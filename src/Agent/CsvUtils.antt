-- ===== src/Agent/CsvUtils.antt =====
-- agent/src/csv_utils.rs: fields of the CSV logs, and their dates. Texts are lists of bytes.
mod Escape
mod Tests
use mu5250_open_ui.Base.{
  ℕ, ◌+◌, ◌-◌, ◌*◌, ◌/◌, ◌%◌, Bool, true, false, ◌||◌, List, [], ◌∷◌, ◌++◌, length, ltb, leb, ◌==◌,
  if◌then◌else◌,
}
use mu5250_open_ui.Base.Texts.{decimal}
use mu5250_open_ui.Euicc.Hex.{repeat}

-- `s.contains(c)`
unfoldable pub contains : ℕ → List ℕ → Bool
contains c [] = false
contains c (x ∷ xs) = x == c || contains c xs

-- `s.replace('"', "\"\"")`
unfoldable pub doubled : List ℕ → List ℕ
doubled [] = []
doubled (x ∷ xs) = let rest = doubled xs in if x == 34 then 34 ∷ (34 ∷ rest) else x ∷ rest

unfoldable pub csv_escape : List ℕ → List ℕ
unfolding contains doubled
csv_escape s =
    if contains b',' s || contains 34 s || contains 10 s then 34 ∷ (doubled s ++ (34 ∷ [])) else s

-- `{n:02}` and `{n:04}`
abbrev pub padded : ℕ → ℕ → List ℕ
padded width n = let digits = decimal n in repeat (width - length digits) b'0' ++ digits

-- The date of a day since 1970-01-01: year, month and day of the month.
unfoldable pub civil_date : ℕ → ℕ × ℕ × ℕ
civil_date days =
    let z = days + 719468 in
    let era = z / 146097 in
    let doe = z % 146097 in
    let yoe = (doe - doe / 1460 + doe / 36524 - doe / 146096) / 365 in
    let y = yoe + era * 400 in
    let doy = doe - (365 * yoe + yoe / 4 - yoe / 100) in
    let mp = (5 * doy + 2) / 153 in
    let d = doy - (153 * mp + 2) / 5 + 1 in
    let mo = if ltb mp 10 then mp + 3 else mp - 9 in (if leb mo 2 then y + 1 else y, mo, d)

-- The text of an epoch below 2^63, where the sums of the code are not negative.
unfoldable pub device_datetime : ℕ → List ℕ
unfolding civil_date
device_datetime epoch =
    let (yr, mo, d) = civil_date (epoch / 86400) in
    let time = epoch % 86400 in
    padded 4 yr
    ++ (b'-'
        ∷ (padded 2 mo
            ++ (b'-'
                ∷ (padded 2 d
                    ++ (b'T'
                        ∷ (padded 2 (time / 3600)
                            ++ (b':'
                                ∷ (padded 2 (time % 3600 / 60)
                                    ++ (b':' ∷ padded 2 (time % 60))))))))))
