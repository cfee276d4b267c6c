-- ===== src/Euicc/Es8p/Tests.antt =====
-- Runs of the reader of metadata.
use mu5250_open_ui.Base.{ℕ, ◌≡◌, refl, List, [], ◌∷◌, some}
use mu5250_open_ui.Base.Results.{ok, err}
use mu5250_open_ui.Base.Utf8.{from_utf8_lossy}
use mu5250_open_ui.Euicc.Der.{iter, iter_loop, next, parse, length_loop, filter_tag}
use mu5250_open_ui.Euicc.Hex
use mu5250_open_ui.Euicc.Session.{malformed}
use mu5250_open_ui.Euicc.Es8p.{
  before_nul, rule_loop, one_ref_do, access_rule, entry_loop, parse_access_rules,
}
use mu5250_open_ui.Euicc.Es8p.Rules.{ok_of, rules_of, parse_access_rules-rules_of}

-- A rule with a certificate hash and a package name.
abbrev rules : List ℕ
rules = 0xe2 ∷ 0x0a ∷ 0xe1 ∷ 0x08 ∷ 0xc1 ∷ 0x02 ∷ 0xab ∷ 0xcd ∷ 0xca ∷ 0x02 ∷ b'h' ∷ 0x00 ∷ []

parse_access_rules_run :
    parse_access_rules rules
    ≡ ok (
        record {
          certificate_hash = some (b'a' ∷ b'b' ∷ b'c' ∷ b'd' ∷ []);
          package_name = some (b'h' ∷ []);
        }
        ∷ [])
unfolding parse_access_rules entry_loop access_rule one_ref_do rule_loop before_nul iter iter_loop
    next parse length_loop filter_tag Hex.encode Hex.hex_char from_utf8_lossy
parse_access_rules_run = refl

parse_access_rules_refused :
    parse_access_rules (0xe2 ∷ 0x02 ∷ 0xe1 ∷ 0x00 ∷ [])
    ≡ err (malformed "access rule without certificate hash")
unfolding parse_access_rules entry_loop access_rule one_ref_do rule_loop iter iter_loop next parse
    length_loop filter_tag
parse_access_rules_refused = refl

parse_access_rules-rules_of_example :
    ok_of (parse_access_rules rules) ≡ rules_of (filter_tag 0xe2 (iter rules))
parse_access_rules-rules_of_example = parse_access_rules-rules_of rules
