-- ===== src/Signalfmt/Convert/Ranges.antt =====
-- The ranges that Parse keeps, in the order in which it adds them, and the tree that they make.
use mautrix_signal.Common.{
  ℕ, ◌≤◌, ◌<◌, ◌≡◌, refl, ap, ◌∙◌, leb, if◌then◌else◌, if_cases, Bool, Option, none, some, List, [],
  ◌∷◌, All, list_eq, length, arith, false,
}
use mathlib.Core.Path.{fun_ext}
use mautrix_signal.Signalfmt.Tree.{BodyRange, RangeTree, bare, end_of, truncate_end, add, add_all}
use mautrix_signal.Signalfmt.Tree.Styles.{SortedFrom, styles_at, values_at, styles_at-add_all}
use mautrix_signal.Signalfmt.Tree.Contents.{Fits, add_all-Fits}
use mautrix_signal.Signalfmt.Format.{format}
use mautrix_signal.Signalfmt.Format.Annotate.{annotate, plain, mark, format-annotate}
use mautrix_signal.Signalfmt.Utf16.{encode}
use mautrix_signal.Signalfmt.Convert.{
  Value, mention, Range, State, Services, comes_first, insert, sort, resolve, place, visit,
  visit_all, start_state, nil_uuid, unset,
}

-- The starts do not decrease, from `s` on.
abbrev pub StartsFrom : ℕ → List Range → Type 0
StartsFrom s [] = Unit
StartsFrom s (r ∷ rs) = (s ≤ r.start) × StartsFrom r.start rs

StartsFrom-mono : (s s' : ℕ) (rs : List Range) → s ≤ s' → StartsFrom s' rs → StartsFrom s rs
StartsFrom-mono s s' [] h k = tt
StartsFrom-mono s s' (r ∷ rs) h (k, ks) = (omega arith, ks)

insert-StartsFrom :
    (r : Range) (s : ℕ) (rs : List Range)
    → s ≤ r.start
    → StartsFrom s rs
    → StartsFrom s (insert r rs)
unfolding insert
insert-StartsFrom r s [] h k = (h, tt)
insert-StartsFrom r s (x ∷ xs) h (k, ks) =
    if_cases (StartsFrom s) (comes_first r x) (λ q. (h, (ground arith, ks)))
      (λ q. (k, insert-StartsFrom r x.start xs (ground arith) ks))

sort-StartsFrom : (rs : List Range) → StartsFrom 0 (sort rs)
unfolding sort
sort-StartsFrom [] = tt
sort-StartsFrom (r ∷ rs) = insert-StartsFrom r 0 (sort rs) (omega arith) (sort-StartsFrom rs)

abbrev pub cons_some {ℓ} : {A : Type ℓ} → Option A → List A → List A
cons_some none xs = xs
cons_some (some x) xs = x ∷ xs

abbrev add_some : RangeTree Value → Option (BodyRange Value) → RangeTree Value
add_some t none = t
add_some t (some r) = add t r

abbrev pub truncated : Range → ℕ → Value → BodyRange Value
truncated r l v = truncate_end (record { start = r.start; len = r.len; value = v }) l

abbrev pub cut_some : Range → ℕ → Option Value → Option (BodyRange Value)
cut_some r l none = none
cut_some r l (some v) = some (truncated r l v)

module _ (services : Services) where
  open services use {user_info}

  -- The value that a resolved range ends up with; a mention of someone with no MXID is dropped.
  abbrev pub chosen : Option (Value × List ℕ) → Option Value
  chosen none = none
  chosen (some (value, aci)) =
      if list_eq aci nil_uuid
      then some value
      else (let user = user_info aci in
          if list_eq user.mxid [] then none else some (mention user aci))

  -- The range with its value, cut off at the end of the message, if it starts in the message.
  abbrev pub kept_one : ℕ → Range → Option (BodyRange Value)
  kept_one max_length r =
      if leb max_length r.start
      then none
      else cut_some r max_length (chosen (resolve services r.associated))

  unfoldable pub kept : ℕ → List Range → List (BodyRange Value)
  kept max_length [] = []
  kept max_length (r ∷ rs) = cons_some (kept_one max_length r) (kept max_length rs)

  abbrev with_value : BodyRange Value → Option Value → Option (BodyRange Value)
  with_value br none = none
  with_value br (some v) = some (record br { value = v })

  place-tree :
      (st : State) (br : BodyRange Value) (found : Option (Value × List ℕ))
      → (place services st br found).tree ≡ add_some st.tree (with_value br (chosen found))
  unfolding place
  place-tree st br none = refl
  place-tree st br (some (value, aci)) = ground arith

  truncated_value :
      (r : Range) (l : ℕ) (v : Value) → record (truncated r l unset) { value = v } ≡ truncated r l v
  truncated_value r l v = ground arith

  truncated_start : (r : Range) (l : ℕ) → (truncated r l unset).start ≡ r.start
  truncated_start r l = ground arith

  visit-place :
      (l : ℕ) (st : State) (r : Range)
      → visit services l st r ≡ (
          if leb l r.start
          then st
          else place services st (truncated r l unset) (resolve services r.associated))
  unfolding visit
  visit-place l st r =
      ap
        (λ s.
          if leb l s
          then st
          else place services st
              (truncate_end (record { start = r.start; len = r.len; value = unset }) l)
              (resolve services r.associated))
        (truncated_start r l)

  with_value-truncated :
      (r : Range) (l : ℕ) (v : Option Value) → with_value (truncated r l unset) v ≡ cut_some r l v
  with_value-truncated r l none = refl
  with_value-truncated r l (some v) = ap some (truncated_value r l v)

  visit-tree :
      (max_length : ℕ) (st : State) (r : Range)
      → (visit services max_length st r).tree ≡ add_some st.tree (kept_one max_length r)
  visit-tree l st r = rw (visit-place l st r) (
      if_cases (λ (st' : State). st'.tree ≡ add_some st.tree (kept_one l r)) (leb l r.start)
        (λ q. rw q refl)
        (λ q. rw q (
          place-tree st (truncated r l unset) (resolve services r.associated)
          ∙ ap (add_some st.tree)
              (with_value-truncated r l (chosen (resolve services r.associated))))))

  add_all-cons_some :
      (t : RangeTree Value) (found : Option (BodyRange Value)) (rs : List (BodyRange Value))
      → add_all (add_some t found) rs ≡ add_all t (cons_some found rs)
  unfolding add_all
  add_all-cons_some t none rs = refl
  add_all-cons_some t (some r) rs = refl

  visit_all-tree :
      (l : ℕ) (st : State) (rs : List Range)
      → (visit_all services l st rs).tree ≡ add_all st.tree (kept l rs)
  unfolding visit_all kept
  visit_all-tree l st [] = unfold add_all in refl
  visit_all-tree l st (r ∷ rs) =
      visit_all-tree l (visit services l st r) rs
      ∙ ap (λ t. add_all t (kept l rs)) (visit-tree l st r)
      ∙ add_all-cons_some st.tree (kept_one l r) (kept l rs)

  -- A kept range starts where the range did, and ends in the message.
  abbrev KeptAs : ℕ → ℕ → Option (BodyRange Value) → Type 0
  KeptAs s l none = Unit
  KeptAs s l (some b) = (b.start ≡ s) × (end_of b ≤ l)

  cut_some-KeptAs :
      (r : Range) (l : ℕ) (v : Option Value) → r.start < l → KeptAs r.start l (cut_some r l v)
  cut_some-KeptAs r l none h = tt
  cut_some-KeptAs r l (some v) h = (ground arith, ground arith)

  kept_one-KeptAs : (l : ℕ) (r : Range) → KeptAs r.start l (kept_one l r)
  kept_one-KeptAs l r =
      if_cases (KeptAs r.start l) (leb l r.start) (λ q. tt)
        (λ q. cut_some-KeptAs r l (chosen (resolve services r.associated)) (ground arith))

  SortedFrom-mono :
      (s s' : ℕ) (rs : List (BodyRange Value)) → s ≤ s' → SortedFrom s' rs → SortedFrom s rs
  SortedFrom-mono s s' [] h k = tt
  SortedFrom-mono s s' (r ∷ rs) h (k, ks) = (omega arith, ks)

  cons_some-SortedFrom :
      (s s' l : ℕ) (found : Option (BodyRange Value)) (rs : List (BodyRange Value))
      → s ≤ s'
      → KeptAs s' l found
      → SortedFrom s' rs
      → SortedFrom s (cons_some found rs)
  cons_some-SortedFrom s s' l none rs h k ks = SortedFrom-mono s s' rs h ks
  cons_some-SortedFrom s s' l (some b) rs h (k, _) ks =
      (omega arith, SortedFrom-mono b.start s' rs (omega arith) ks)

  pub kept-SortedFrom : (l s : ℕ) (rs : List Range) → StartsFrom s rs → SortedFrom s (kept l rs)
  unfolding kept
  kept-SortedFrom l s [] h = tt
  kept-SortedFrom l s (r ∷ rs) (h, hs) =
      cons_some-SortedFrom s r.start l (kept_one l r) (kept l rs) h (kept_one-KeptAs l r)
        (kept-SortedFrom l r.start rs hs)

  cons_some-within :
      (s l : ℕ) (found : Option (BodyRange Value)) (rs : List (BodyRange Value))
      → KeptAs s l found
      → All (λ b. end_of b ≤ l) rs
      → All (λ b. end_of b ≤ l) (cons_some found rs)
  cons_some-within s l none rs k h = h
  cons_some-within s l (some b) rs (_, k) h = (k, h)

  pub kept-within : (l : ℕ) (rs : List Range) → All (λ b. end_of b ≤ l) (kept l rs)
  unfolding kept
  kept-within l [] = tt
  kept-within l (r ∷ rs) =
      cons_some-within r.start l (kept_one l r) (kept l rs) (kept_one-KeptAs l r) (kept-within l rs)

  -- The tree that Parse formats.
  abbrev pub parsed_tree : List ℕ → List Range → RangeTree Value
  parsed_tree message rs =
      (visit_all services (length (encode message)) (start_state message) (sort rs)).tree

  abbrev pub kept_sorted : List ℕ → List Range → List (BodyRange Value)
  kept_sorted message rs = kept (length (encode message)) (sort rs)

  pub parsed_tree-kept :
      (message : List ℕ) (rs : List Range)
      → parsed_tree message rs ≡ add_all bare (kept_sorted message rs)
  unfolding start_state
  parsed_tree-kept message rs = visit_all-tree _ _ (sort rs)

  pub parsed_tree-Fits :
      (message : List ℕ) (rs : List Range) → Fits (length (encode message)) (parsed_tree message rs)
  parsed_tree-Fits message rs =
      let l = length (encode message) in
      rw (parsed_tree-kept message rs) (
        add_all-Fits bare 0 l (kept_sorted message rs) tt
          (kept-SortedFrom l 0 (sort rs) (sort-StartsFrom rs)) (kept-within l (sort rs)) tt)

  -- Whatever ranges a message comes with, formatting it stays inside the message, shows every UTF-16
  -- unit once and in order, and puts each of them under exactly the values of the kept ranges that
  -- cover it, in the order of the sorted ranges.
  pub parse-annotate :
      (message : List ℕ) (rs : List Range) (is_mono : Value → Bool)
      → format plain mark is_mono (parsed_tree message rs) (encode message) false
        ≡ some (annotate (values_at (kept_sorted message rs)) (encode message))
  parse-annotate message rs is_mono =
      let l = length (encode message) in
      let shown = fun_ext λ p.
        styles_at-add_all (kept_sorted message rs) p
          (kept-SortedFrom l 0 (sort rs) (sort-StartsFrom rs)) in
      format-annotate is_mono (parsed_tree message rs) (encode message) false
        (parsed_tree-Fits message rs)
      ∙ ap (λ t. some (annotate (styles_at t) (encode message))) (parsed_tree-kept message rs)
      ∙ ap (λ f. some (annotate f (encode message))) shown
