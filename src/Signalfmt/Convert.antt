-- ===== src/Signalfmt/Convert.antt =====
-- pkg/msgconv/signalfmt: Parse of convert.go, with the values of tags.go and their Format methods of
-- html.go. A Go string is the list of its code points; `none` as a result is a panic.
pub mod Ranges
pub mod Values
pub mod Sorting
pub mod Total
use mautrix_signal.Common.{
  ℕ, ◌+◌, ltb, leb, ◌==◌, ◌||◌, if◌then◌else◌, Bool, true, false, Option, none, some, List, [], ◌∷◌,
  ◌++◌, length, replicate, list_eq, codes,
}
use mautrix_signal.Signalfmt.Tree.{BodyRange, RangeTree, bare, truncate_end, add}
use mautrix_signal.Signalfmt.Utf16.{encode, decode}
use mautrix_signal.Signalfmt.Format.{format, ◌>>=◌}

pub record UserInfo : Type 0 where
  pub mxid : List ℕ
  pub name : List ℕ

-- BodyRangeValue. `unset` is the nil interface of a range whose value was never assigned.
pub data Value : Type 0 where
  unset : Value
  style : ℕ → Value
  mention : UserInfo → List ℕ → Value

-- The associated value of a signalpb.BodyRange.
pub data Associated : Type 0 where
  style : ℕ → Associated
  mention_aci : List ℕ → Associated
  mention_aci_binary : List ℕ → Associated
  unsupported : Associated

-- A signalpb.BodyRange: Start and Length are optional fields, read through their pointers.
pub record ProtoRange : Type 0 where
  pub start : Option ℕ
  pub len : Option ℕ
  pub associated : Associated

-- What the code takes from elsewhere: uuid.Parse, FormatParams.GetUserInfo, MatrixToURL of a user's
-- URI, and event.TextToHTML.
pub record Services : Type 0 where
  pub parse_uuid : List ℕ → Option (List ℕ)
  pub user_info : List ℕ → UserInfo
  pub matrix_to_url : List ℕ → List ℕ
  pub text_to_html : List ℕ → List ℕ

abbrev pub style_bold : ℕ
style_bold = 1

abbrev pub style_italic : ℕ
style_italic = 2

abbrev pub style_spoiler : ℕ
style_spoiler = 3

abbrev pub style_strikethrough : ℕ
style_strikethrough = 4

abbrev pub style_monospace : ℕ
style_monospace = 5

abbrev pub nil_uuid : List ℕ
nil_uuid = replicate 16 0

-- strings.Replace(s, "\ufffc", name, 1).
pub replace_placeholder : List ℕ → List ℕ → List ℕ
replace_placeholder [] name = []
replace_placeholder (c ∷ cs) name =
    if c == 0xfffc then name ++ cs else c ∷ replace_placeholder cs name

contains_newline : List ℕ → Bool
contains_newline [] = false
contains_newline (c ∷ cs) = (c == 10) || contains_newline cs

-- Style.Format.
unfoldable pub format_style : ℕ → List ℕ → List ℕ
unfolding contains_newline
format_style s message =
    if s == style_bold
    then codes "<strong>" ++ message ++ codes "</strong>"
    else (if s == style_italic
        then codes "<em>" ++ message ++ codes "</em>"
        else (if s == style_spoiler
            then codes "<span data-mx-spoiler>" ++ message ++ codes "</span>"
            else (if s == style_strikethrough
                then codes "<del>" ++ message ++ codes "</del>"
                else (if s == style_monospace
                    then (if contains_newline message
                        then codes "<pre><code>" ++ message ++ codes "</code></pre>"
                        else codes "<code>" ++ message ++ codes "</code>")
                    else message))))

-- html.EscapeString of the standard library.
escape_char : ℕ → List ℕ
escape_char c =
    if c == b'&'
    then codes "&amp;"
    else (if c == 39
        then codes "&#39;"
        else (if c == b'<'
            then codes "&lt;"
            else (if c == b'>' then codes "&gt;" else (if c == 34 then codes "&#34;" else c ∷ []))))

unfoldable pub escape_string : List ℕ → List ℕ
unfolding escape_char
escape_string [] = []
escape_string (c ∷ cs) = escape_char c ++ escape_string cs

abbrev pub is_monospace : Value → Bool
is_monospace unset = false
is_monospace (style s) = s == style_monospace
is_monospace (mention user aci) = false

-- The comparison of the SortFunc call: by increasing start, then by decreasing length.
pub record Range : Type 0 where
  pub start : ℕ
  pub len : ℕ
  pub associated : Associated

abbrev pub comes_first : Range → Range → Bool
comes_first a b = if a.start == b.start then leb b.len a.len else ltb a.start b.start

unfoldable pub insert : Range → List Range → List Range
insert r [] = r ∷ []
insert r (x ∷ xs) = if comes_first r x then r ∷ x ∷ xs else x ∷ insert r xs

-- slices.SortFunc keeps no order among equal elements; this is the sorted list that does.
unfoldable pub sort : List Range → List Range
sort [] = []
sort (r ∷ rs) = insert r (sort rs)

pub record State : Type 0 where
  pub tree : RangeTree Value
  pub body : List ℕ
  pub mentions : List (List ℕ)

pub record Content : Type 0 where
  pub body : List ℕ
  pub formatted_body : Option (List ℕ)
  pub user_ids : List (List ℕ)

-- The key set of the `mentions` map.
add_mention : List ℕ → List (List ℕ) → List (List ℕ)
add_mention u [] = u ∷ []
add_mention u (v ∷ vs) = if list_eq u v then v ∷ vs else v ∷ add_mention u vs

-- `*r.Start` and `*r.Length`: the loop reads both of every range, and a nil pointer panics.
unfoldable pub read_ranges : List ProtoRange → Option (List Range)
read_ranges [] = some []
read_ranges (r ∷ rs) = do
  start ← r.start
  len ← r.len
  rest ← read_ranges rs
  some (record { start = start; len = len; associated = r.associated } ∷ rest)

unfoldable pub start_state : List ℕ → State
start_state message = record { tree = bare; body = message; mentions = [] }

module _ (services : Services) where
  open services use {parse_uuid, user_info, matrix_to_url, text_to_html}

  unfoldable pub write_text : Bool → List ℕ → List ℕ
  write_text code message =
      if code then escape_string (decode message) else text_to_html (decode message)

  -- The Format method of a value; a call on the nil interface panics.
  unfoldable pub write_value : Value → List ℕ → Option (List ℕ)
  write_value unset message = none
  write_value (style s) message = some (format_style s message)
  write_value (mention user aci) message = some (
      codes "<a href=\""
      ++ matrix_to_url user.mxid
      ++ codes "\">"
      ++ replace_placeholder message user.name
      ++ codes "</a>")

  -- The switch on the associated value: the range's value so far and `mentionACI`; `none` is `continue`.
  pub resolve : Associated → Option (Value × List ℕ)
  resolve (style s) = some (style s, nil_uuid)
  resolve (mention_aci text) = do aci ← parse_uuid text; some (unset, aci)
  resolve (mention_aci_binary bytes) = if length bytes == 16 then some (unset, bytes) else none
  resolve unsupported = none

  place : State → BodyRange Value → Option (Value × List ℕ) → State
  unfolding add_mention
  place st br none = st
  place st br (some (value, aci)) =
      if list_eq aci nil_uuid
      then record st { tree = add st.tree (record br { value = value }) }
      else (let user = user_info aci in
          if list_eq user.mxid [] then st else record {
            tree = add st.tree (record br { value = mention user aci });
            body = replace_placeholder st.body user.name;
            mentions = add_mention user.mxid st.mentions;
          })

  -- One round of the loop over the ranges.
  unfoldable pub visit : ℕ → State → Range → State
  unfolding place resolve
  visit max_length st r =
      let br = truncate_end (record { start = r.start; len = r.len; value = unset }) max_length in
      if leb max_length br.start then st else place st br (resolve r.associated)

  unfoldable pub visit_all : ℕ → State → List Range → State
  visit_all max_length st [] = st
  visit_all max_length st (r ∷ rs) = visit_all max_length (visit max_length st r) rs

  unfoldable pub parse_sorted : List ℕ → List Range → Option Content
  parse_sorted message ranges = do
    let utf16_message = encode message
    let st = visit_all (length utf16_message) (start_state message) ranges
    html ← format write_text write_value is_monospace st.tree utf16_message false
    some (record { body = st.body; formatted_body = some html; user_ids = st.mentions })

  unfoldable pub parse : List ℕ → List ProtoRange → Option Content
  parse message [] = some (record { body = message; formatted_body = none; user_ids = [] })
  parse message (r ∷ rs) = do ranges ← read_ranges (r ∷ rs); parse_sorted message (sort ranges)
