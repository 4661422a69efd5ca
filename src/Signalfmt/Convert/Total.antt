-- ===== src/Signalfmt/Convert/Total.antt =====
-- When Parse returns, and when it panics.
use mautrix_signal.Common.{
  ℕ, ◌<◌, ◌≡◌, ◌⊎◌, inl, inr, refl, sym, ◌∙◌, subst, false, none, some, List, [], ◌∷◌, All, Any,
  length, Option-cases,
}
use mathlib.Core.Option.{some-injective}
use mautrix_signal.Signalfmt.Tree.{bare}
use mautrix_signal.Signalfmt.Tree.Contents.{AllNodes, AnyNode, add_all-AllNodes, add_all-AnyNode}
use mautrix_signal.Signalfmt.Utf16.{encode}
use mautrix_signal.Signalfmt.Convert.{
  ProtoRange, Range, Content, Services, sort, read_ranges, parse, parse_sorted, visit_all,
  start_state,
}
use mautrix_signal.Signalfmt.Convert.Ranges.{
  kept_sorted, parsed_tree, parsed_tree-kept, parsed_tree-Fits,
}
use mautrix_signal.Signalfmt.Convert.Values.{
  Formattable, IsUnset, format-total, format-none, MentionsNil, kept-Formattable, NilAt, kept-Any,
}
use mautrix_signal.Signalfmt.Convert.Sorting.{sort-All, sort-Any}

module _ (services : Services) where
  -- The range has both numbers, and mentions somebody if it is a mention.
  abbrev pub IsProper : ProtoRange → Type 0
  IsProper r =
      ((s : ℕ) × (r.start ≡ some s))
      × ((l : ℕ) × (r.len ≡ some l))
      × (¬ MentionsNil services r.associated)

  -- The range lacks a number, or starts in the message and mentions the nil UUID.
  abbrev pub IsDefective : List ℕ → ProtoRange → Type 0
  IsDefective message r =
      (r.start ≡ none)
      ⊎ ((r.len ≡ none)
          ⊎ ((s : ℕ) × (r.start ≡ some s)
              × (s < length (encode message))
              × MentionsNil services r.associated))

  parse_sorted-total :
      (message : List ℕ) (rs : List Range)
      → All (λ r. ¬ MentionsNil services r.associated) rs
      → (c : Content) × (parse_sorted services message (sort rs) ≡ some c)
  unfolding parse_sorted
  parse_sorted-total message rs h =
      let l = length (encode message) in
      let formattable : AllNodes Formattable (parsed_tree services message rs) =
        rw (parsed_tree-kept services message rs) (
          add_all-AllNodes Formattable bare (kept_sorted services message rs)
            (kept-Formattable services l (sort rs) (sort-All _ rs h)) tt) in
      let (html, shown) =
        format-total services (parsed_tree services message rs) (encode message) false
          (parsed_tree-Fits services message rs) formattable in
      let st = visit_all services l (start_state message) (sort rs) in
      (record { body = st.body; formatted_body = some html; user_ids = st.mentions }, rw shown)

  parse_sorted-none :
      (message : List ℕ) (rs : List Range)
      → Any (NilAt services (length (encode message))) rs
      → parse_sorted services message (sort rs) ≡ none
  unfolding parse_sorted
  parse_sorted-none message rs h =
      let l = length (encode message) in
      let any : AnyNode IsUnset (parsed_tree services message rs) =
        rw (parsed_tree-kept services message rs) (
          add_all-AnyNode IsUnset bare (kept_sorted services message rs)
            (kept-Any services l (sort rs) (sort-Any _ rs h))) in
      rw (format-none services (parsed_tree services message rs) (encode message) false any)

  read_ranges-total :
      (ranges : List ProtoRange)
      → All IsProper ranges
      → (rs : List Range) × (read_ranges ranges ≡ some rs)
        × All (λ r. ¬ MentionsNil services r.associated) rs
  unfolding read_ranges
  read_ranges-total [] h = ([], refl, tt)
  read_ranges-total (r ∷ ranges) (((s, es), (l, el), m), hs) =
      let (rs, e, h) = read_ranges-total ranges hs in
      (record { start = s; len = l; associated = r.associated } ∷ rs, rw (es, el, e), (m, h))

  abbrev read_as : ProtoRange → ℕ → ℕ → Range
  read_as r s l = record { start = s; len = l; associated = r.associated }

  -- Reading fails, or gives a range that starts in the message and mentions the nil UUID.
  abbrev Fails : List ℕ → List ProtoRange → Type 0
  Fails message ranges =
      (read_ranges ranges ≡ none)
      ⊎ ((rs : List Range) × (read_ranges ranges ≡ some rs)
          × Any (NilAt services (length (encode message))) rs)

  nil_among :
      (message : List ℕ) (r : ProtoRange) (ranges : List ProtoRange) (s l : ℕ) (rest : List Range)
      → r.start ≡ some s
      → r.len ≡ some l
      → read_ranges ranges ≡ some rest
      → IsDefective message r ⊎ Fails message ranges
      → Any (NilAt services (length (encode message))) (read_as r s l ∷ rest)
  nil_among message r ranges s l rest es el er (inl (inl e)) = cc
  nil_among message r ranges s l rest es el er (inl (inr (inl e))) = cc
  nil_among message r ranges s l rest es el er (inl (inr (inr (s', e, q, m)))) =
      inl (m, subst (λ t. t < length (encode message)) (some-injective _ _ (sym e ∙ es)) q)
  nil_among message r ranges s l rest es el er (inr (inl e)) = cc
  nil_among message r ranges s l rest es el er (inr (inr (rs, e, a))) =
      inr
        (subst (Any (NilAt services (length (encode message)))) (some-injective _ _ (sym e ∙ er)) a)

  Fails-cons :
      (message : List ℕ) (r : ProtoRange) (ranges : List ProtoRange)
      → IsDefective message r ⊎ Fails message ranges
      → Fails message (r ∷ ranges)
  unfolding read_ranges
  Fails-cons message r ranges h = elim (Option-cases r.start) [
    | inl e ↦ inl (rw e)
    | inr (s, es) ↦ elim (Option-cases r.len) [
      | inl e ↦ inl (rw (es, e))
      | inr (l, el) ↦ elim (Option-cases (read_ranges ranges)) [
        | inl e ↦ inl (rw (es, el, e))
        | inr (rest, er) ↦
            inr (
              read_as r s l ∷ rest,
              rw (es, el, er),
              nil_among message r ranges s l rest es el er h,
            )
      ]
    ]
  ]

  read_ranges-Fails :
      (message : List ℕ) (ranges : List ProtoRange)
      → Any (IsDefective message) ranges
      → Fails message ranges
  read_ranges-Fails message [] h = elim h [ ]
  read_ranges-Fails message (r ∷ ranges) (inl d) = Fails-cons message r ranges (inl d)
  read_ranges-Fails message (r ∷ ranges) (inr a) =
      Fails-cons message r ranges (inr (read_ranges-Fails message ranges a))

  -- Parse returns, without a panic, whatever the message is, if every range has a start and a length
  -- and no range is a mention of the nil UUID.
  pub parse-total :
      (message : List ℕ) (ranges : List ProtoRange)
      → All IsProper ranges
      → (c : Content) × (parse services message ranges ≡ some c)
  unfolding parse
  parse-total message [] h = (_, refl)
  parse-total message (r ∷ ranges) h =
      let (rs, e, m) = read_ranges-total (r ∷ ranges) h in
      let (c, shown) = parse_sorted-total message rs m in (c, rw e shown)

  -- Parse panics if one range lacks its start or its length, or starts in the message and mentions
  -- the nil UUID: no value is assigned to that range, and its Format method is called all the same.
  pub parse_defective :
      (message : List ℕ) (ranges : List ProtoRange)
      → Any (IsDefective message) ranges
      → parse services message ranges ≡ none
  unfolding parse
  parse_defective message [] h = elim h [ ]
  parse_defective message (r ∷ ranges) h = elim (read_ranges-Fails message (r ∷ ranges) h) [
    | inl e ↦ rw e
    | inr (rs, e, a) ↦ rw e (parse_sorted-none message rs a)
  ]
