-- ===== src/Signalfmt/Runs.antt =====
-- Concrete runs of the formatter, and its theorems at concrete inputs.
use mautrix_signal.Common.{ℕ, ◌≡◌, refl, false, none, some, List, [], ◌∷◌, codes, arith, inl, inr}
use mathlib.Core.Option
use mautrix_signal.Signalfmt.Tree.{BodyRange, bare, add, add_all}
use mautrix_signal.Signalfmt.Tree.Styles.{styles_at, values_at, styles_at-add, styles_at-add_all}
use mautrix_signal.Signalfmt.Utf16.{encode, decode, decode-encode}
use mautrix_signal.Signalfmt.Format.{format}
use mautrix_signal.Signalfmt.Format.Annotate.{annotate, plain, mark}
use mautrix_signal.Signalfmt.Convert.{
  style, mention_aci_binary, ProtoRange, Range, Content, Services, UserInfo, nil_uuid, parse,
  is_monospace, read_ranges, sort, insert, start_state, parse_sorted, visit_all, visit, write_text,
  write_value, format_style,
}
use mautrix_signal.Signalfmt.Convert.Ranges.{parsed_tree, kept_sorted, parse-annotate}
use mautrix_signal.Signalfmt.Convert.Total.{parse-total, parse_defective}

abbrev someone : UserInfo
someone = record { mxid = codes "@a:x"; name = codes "Ann" }

abbrev test_services : Services
test_services = record {
  parse_uuid = λ t. some t;
  user_info = λ u. someone;
  matrix_to_url = λ m. m;
  text_to_html = λ t. t;
}

abbrev one_value : BodyRange ℕ
one_value = record { start = 2; len = 3; value = 7 }

abbrev two_ranges : List (BodyRange ℕ)
two_ranges =
    record { start = 0; len = 5; value = 1 } ∷ record { start = 2; len = 6; value = 2 } ∷ []

styles_at-add_example : styles_at (add bare one_value) 4 ≡ 7 ∷ []
unfolding styles_at
styles_at-add_example = styles_at-add bare one_value 4 tt

styles_at-add_all_example : styles_at (add_all bare two_ranges) 3 ≡ 1 ∷ 2 ∷ []
unfolding values_at
styles_at-add_all_example = styles_at-add_all two_ranges 3 (omega arith)

decode-encode_example : decode (encode (0x48 ∷ 0x1f600 ∷ [])) ≡ 0x48 ∷ 0x1f600 ∷ []
decode-encode_example =
    decode-encode (0x48 ∷ 0x1f600 ∷ []) (inl (omega arith), (inr (omega arith), tt))

abbrev bold_and_italic : List ProtoRange
bold_and_italic =
    record { start = some 1; len = some 4; associated = style 2 }
    ∷ record { start = some 0; len = some 3; associated = style 1 }
    ∷ []

abbrev nil_mention : List ProtoRange
nil_mention = record { start = some 0; len = some 1; associated = mention_aci_binary nil_uuid } ∷ []

abbrev one_range : List Range
one_range = record { start = 0; len = 9; associated = style 1 } ∷ []

parse-annotate_example :
    format plain mark is_monospace
      (parsed_tree test_services (codes "hi") one_range)
      (encode (codes "hi"))
      false
    ≡ some (
        annotate
          (values_at (kept_sorted test_services (codes "hi") one_range))
          (encode (codes "hi")))
parse-annotate_example = parse-annotate test_services (codes "hi") one_range is_monospace

parse-total_example :
    (c : Content) × (parse test_services (codes "abcdef") bold_and_italic ≡ some c)
parse-total_example =
    parse-total test_services (codes "abcdef") bold_and_italic
      (((1, refl), (4, refl), λ h. h), (((0, refl), (3, refl), λ h. h), tt))

parse_defective_example : parse test_services (codes "x") nil_mention ≡ none
unfolding encode
parse_defective_example =
    parse_defective test_services (codes "x") nil_mention
      (inl (inr (inr (0, refl, omega arith, refl))))

parse_run :
    Option.map
      (λ (c : Content). c.formatted_body)
      (parse test_services (codes "abcdef") bold_and_italic)
    ≡ some (some (codes "<strong>a<em>bc</em></strong><em>de</em>f"))
unfolding parse read_ranges sort insert start_state parse_sorted visit_all visit write_text
    write_value encode decode add format format_style
parse_run = refl
