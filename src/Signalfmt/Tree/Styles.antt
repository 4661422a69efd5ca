-- ===== src/Signalfmt/Tree/Styles.antt =====
-- What a linked range tree says of each position of the message, and what `add` does to it.
use mautrix_signal.Common.{
  ℕ, ◌-◌, ◌≤◌, ◌<◌, ◌≡◌, sym, subst, ltb, leb, if◌then◌else◌, if_cases, Bool, ◌&&◌, List, [], ◌∷◌,
  ◌++◌, append-nil, append_assoc, ap, ◌∙◌, arith,
}
use mautrix_signal.Signalfmt.Tree.{
  BodyRange, RangeTree, nil, bare, node, end_of, offset_back, truncate_start, truncate_end, add,
  add_all,
}

module _ {V : Type 0} where
  abbrev pub covers : BodyRange V → ℕ → Bool
  covers r p = leb r.start p && ltb p (end_of r)

  -- What one range gives to the position `p`.
  abbrev pub value_at : BodyRange V → ℕ → List V
  value_at r p = if covers r p then r.value ∷ [] else []

  -- The values of all ranges of a list that cover `p`, in the order of the list.
  unfoldable pub values_at : List (BodyRange V) → ℕ → List V
  values_at [] p = []
  values_at (r ∷ rs) p = value_at r p ++ values_at rs p

  -- The values of the nodes that `p` lies in, outermost first.
  unfoldable pub styles_at : RangeTree V → ℕ → List V
  styles_at nil p = []
  styles_at bare p = []
  styles_at (node n sibling child) p =
      let inner = styles_at child (p - n.start) in
      let later = styles_at sibling (p - end_of n) in
      if ltb p n.start then [] else (if ltb p (end_of n) then n.value ∷ inner else later)

  -- A range that starts at `s` or later meets no node that starts behind it.
  abbrev pub Ready : ℕ → RangeTree V → Type 0
  Ready s nil = Unit
  Ready s bare = Unit
  Ready s (node n sibling child) =
      (n.start ≤ s) × Ready (s - end_of n) sibling × Ready (s - n.start) child

  pub Ready-mono : (t : RangeTree V) (s s' : ℕ) → s ≤ s' → Ready s t → Ready s' t
  Ready-mono nil s s' h r = tt
  Ready-mono bare s s' h r = tt
  Ready-mono (node n sibling child) s s' h (a, b, c) = (
    omega arith,
    Ready-mono sibling (s - end_of n) (s' - end_of n) (omega arith) b,
    Ready-mono child (s - n.start) (s' - n.start) (omega arith) c,
  )

  pub cut_start :
      (r : BodyRange V) (e : ℕ) → (offset_back (truncate_start r e) e).start ≡ r.start - e
  cut_start r e = ground arith

  pub inside_start :
      (r : BodyRange V) (e s : ℕ) → (offset_back (truncate_end r e) s).start ≡ r.start - s
  inside_start r e s = ground arith

  abbrev pub past_of : RangeTree V → BodyRange V → BodyRange V → RangeTree V
  past_of sibling n r = add sibling (offset_back r (end_of n))

  abbrev pub cut_of : RangeTree V → BodyRange V → BodyRange V → RangeTree V
  cut_of sibling n r = add sibling (offset_back (truncate_start r (end_of n)) (end_of n))

  abbrev pub inside_of : RangeTree V → BodyRange V → BodyRange V → RangeTree V
  inside_of child n r = add child (offset_back (truncate_end r (end_of n)) n.start)

  -- The three ways in which `add` passes a node: behind it, across its end, inside it.
  pub add_cases {κ} :
      (P : RangeTree V → Type κ) (n r : BodyRange V) (sibling child : RangeTree V)
      → (end_of n ≤ r.start → P (node n (past_of sibling n r) child))
      → (r.start < end_of n
          → end_of n < end_of r
          → P (node n (cut_of sibling n r) (inside_of child n r)))
      → (r.start < end_of n → end_of r ≤ end_of n → P (node n sibling (inside_of child n r)))
      → P (add (node n sibling child) r)
  unfolding add
  add_cases P n r sibling child past cut inside =
      if_cases P (leb (end_of n) r.start) (λ q. past (ground arith))
        λ q.
          if_cases P (ltb (end_of n) (end_of r)) (λ q'. cut (ground arith) (ground arith))
            (λ q'. inside (ground arith) (ground arith))

  pub add-Ready : (t : RangeTree V) (r : BodyRange V) → Ready r.start t → Ready r.start (add t r)
  unfolding add
  add-Ready nil r h = (omega arith, tt, tt)
  add-Ready bare r h = (omega arith, tt, tt)
  add-Ready (node n sibling child) r (a, b, c) =
      let e = end_of n in
      let cut = offset_back (truncate_start r e) e in
      let inside = offset_back (truncate_end r e) n.start in
      let in_sibling : Ready (r.start - e) (add sibling cut) =
        subst (λ s. Ready s (add sibling cut)) (cut_start r e)
          (add-Ready sibling cut (subst (λ s. Ready s sibling) (sym (cut_start r e)) b)) in
      let in_child : Ready (r.start - n.start) (add child inside) =
        subst (λ s. Ready s (add child inside)) (inside_start r e n.start)
          (add-Ready child inside
            (subst (λ s. Ready s child) (sym (inside_start r e n.start)) c)) in
      add_cases (Ready r.start) n r sibling child
        (λ _. (a, add-Ready sibling (offset_back r e) b, c)) (λ _ _. (a, in_sibling, in_child))
        (λ _ _. (a, b, in_child))

  -- What a node shows after its parts have grown by the parts of `r`, in the three cases.
  abbrev Grows : RangeTree V → RangeTree V → BodyRange V → ℕ → Type 0
  Grows t t' r p = styles_at t' p ≡ styles_at t p ++ value_at r p

  past-Grows :
      (n r : BodyRange V) (sibling sibling' child : RangeTree V) (p : ℕ)
      → end_of n ≤ r.start
      → Grows sibling sibling' (offset_back r (end_of n)) (p - end_of n)
      → n.start ≤ r.start
      → Grows (node n sibling child) (node n sibling' child) r p
  unfolding styles_at
  past-Grows n r sibling sibling' child p q g a =
      ground (arith, append-nil (styles_at child (p - n.start)))

  cut-Grows :
      (n r : BodyRange V) (sibling sibling' child child' : RangeTree V) (p : ℕ)
      → r.start < end_of n
      → end_of n < end_of r
      → Grows sibling sibling' (offset_back (truncate_start r (end_of n)) (end_of n)) (p - end_of n)
      → Grows child child' (offset_back (truncate_end r (end_of n)) n.start) (p - n.start)
      → n.start ≤ r.start
      → Grows (node n sibling child) (node n sibling' child') r p
  unfolding styles_at
  cut-Grows n r sibling sibling' child child' p q q' g g' a = ground arith

  inside-Grows :
      (n r : BodyRange V) (sibling child child' : RangeTree V) (p : ℕ)
      → end_of r ≤ end_of n
      → Grows child child' (offset_back (truncate_end r (end_of n)) n.start) (p - n.start)
      → n.start ≤ r.start
      → Grows (node n sibling child) (node n sibling child') r p
  unfolding styles_at
  inside-Grows n r sibling child child' p q g a =
      ground (arith, append-nil (styles_at sibling (p - end_of n)))

  -- Adding a range gives its value, innermost, to exactly the positions that it covers.
  pub styles_at-add :
      (t : RangeTree V) (r : BodyRange V) (p : ℕ)
      → Ready r.start t
      → styles_at (add t r) p ≡ styles_at t p ++ value_at r p
  unfolding add styles_at
  styles_at-add nil r p h = ground arith
  styles_at-add bare r p h = ground arith
  styles_at-add (node n sibling child) r p (a, b, c) =
      let e = end_of n in
      let cut = offset_back (truncate_start r e) e in
      let inside = offset_back (truncate_end r e) n.start in
      let in_past = styles_at-add sibling (offset_back r e) (p - e) b in
      let in_cut =
        styles_at-add sibling cut (p - e) (subst (λ s. Ready s sibling) (sym (cut_start r e)) b) in
      let in_child =
        styles_at-add child inside (p - n.start)
          (subst (λ s. Ready s child) (sym (inside_start r e n.start)) c) in
      add_cases (λ t. styles_at t p ≡ styles_at (node n sibling child) p ++ value_at r p) n r
        sibling child (λ q. past-Grows n r sibling _ child p q in_past a)
        (λ q q'. cut-Grows n r sibling _ child _ p q q' in_cut in_child a)
        (λ _ q'. inside-Grows n r sibling child _ p q' in_child a)

  -- The starts do not decrease, from `s` on.
  abbrev pub SortedFrom : ℕ → List (BodyRange V) → Type 0
  SortedFrom s [] = Unit
  SortedFrom s (r ∷ rs) = (s ≤ r.start) × SortedFrom r.start rs

  styles_at-add_all_from :
      (t : RangeTree V) (s : ℕ) (rs : List (BodyRange V)) (p : ℕ)
      → Ready s t
      → SortedFrom s rs
      → styles_at (add_all t rs) p ≡ styles_at t p ++ values_at rs p
  unfolding add_all values_at
  styles_at-add_all_from t s [] p h k = sym (append-nil (styles_at t p))
  styles_at-add_all_from t s (r ∷ rs) p h (k, ks) =
      let ready = Ready-mono t s r.start k h in
      styles_at-add_all_from (add t r) r.start rs p (add-Ready t r ready) ks
      ∙ ap (λ l. l ++ values_at rs p) (styles_at-add t r p ready)
      ∙ append_assoc (styles_at t p) (value_at r p) (values_at rs p)

  -- A tree built from ranges that are sorted by their start, as `Parse` sorts them, shows at each
  -- position exactly the values of the ranges that cover it, in the order in which they were added.
  pub styles_at-add_all :
      (rs : List (BodyRange V)) (p : ℕ)
      → SortedFrom 0 rs
      → styles_at (add_all bare rs) p ≡ values_at rs p
  unfolding styles_at
  styles_at-add_all rs p h = styles_at-add_all_from bare 0 rs p tt h
