-- ===== src/Signalfmt/Tree/Contents.antt =====
-- What the nodes of a linked range tree hold: their bounds and their values, under `add`.
use mautrix_signal.Common.{
  ℕ, ◌-◌, ◌≤◌, ◌<◌, ◌⊎◌, inl, inr, sym, subst, ltb, if_cases, List, [], ◌∷◌, All, arith,
}
use mautrix_signal.Signalfmt.Tree.{
  BodyRange, RangeTree, nil, bare, node, end_of, offset_back, truncate_start, truncate_end, add,
  add_all,
}
use mautrix_signal.Signalfmt.Tree.Styles.{
  Ready, add_cases, add-Ready, Ready-mono, SortedFrom, cut_start, inside_start,
}

module _ {V : Type 0} where
  -- Every node lies inside a message of length `l`.
  abbrev pub Fits : ℕ → RangeTree V → Type 0
  Fits l nil = Unit
  Fits l bare = Unit
  Fits l (node n sibling child) = (end_of n ≤ l) × Fits (l - end_of n) sibling × Fits n.len child

  cut_end :
      (r : BodyRange V) (e l : ℕ)
      → e < end_of r
      → r.start < e
      → end_of r ≤ l
      → end_of (offset_back (truncate_start r e) e) ≤ l - e
  cut_end r e l h h' k = ground arith

  inside_end :
      (n r : BodyRange V)
      → n.start ≤ r.start
      → r.start < end_of n
      → end_of (offset_back (truncate_end r (end_of n)) n.start) ≤ n.len
  inside_end n r h h' = ground arith

  pub add-Fits :
      (t : RangeTree V) (r : BodyRange V) (l : ℕ)
      → Ready r.start t
      → end_of r ≤ l
      → Fits l t
      → Fits l (add t r)
  unfolding add
  add-Fits nil r l d h f = (omega arith, tt, tt)
  add-Fits bare r l d h f = (omega arith, tt, tt)
  add-Fits (node n sibling child) r l (a, b, c) h (f, g, k) =
      let e = end_of n in
      let cut = offset_back (truncate_start r e) e in
      let inside = offset_back (truncate_end r e) n.start in
      let in_child = λ (q : r.start < e).
        add-Fits child inside n.len (subst (λ s. Ready s child) (sym (inside_start r e n.start)) c)
          (inside_end n r a q) k in
      add_cases (Fits l) n r sibling child
        (λ q. (f, add-Fits sibling (offset_back r e) (l - e) b (omega arith) g, k))
        (λ q q'. (
          f,
          add-Fits sibling cut (l - e) (subst (λ s. Ready s sibling) (sym (cut_start r e)) b)
              (cut_end r e l q' q h) g,
          in_child q,
        ))
        (λ q q'. (f, g, in_child q))

  pub add_all-Fits :
      (t : RangeTree V) (s l : ℕ) (rs : List (BodyRange V))
      → Ready s t
      → SortedFrom s rs
      → All (λ r. end_of r ≤ l) rs
      → Fits l t
      → Fits l (add_all t rs)
  unfolding add_all
  add_all-Fits t s l [] d k h f = f
  add_all-Fits t s l (r ∷ rs) d (k, ks) (h, hs) f =
      let ready = Ready-mono t s r.start k d in
      add_all-Fits (add t r) r.start l rs (add-Ready t r ready) ks hs (add-Fits t r l ready h f)

  -- Every node's value has the property.
  abbrev pub AllNodes : (V → Type 0) → RangeTree V → Type 0
  AllNodes P nil = Unit
  AllNodes P bare = Unit
  AllNodes P (node n sibling child) = P n.value × AllNodes P sibling × AllNodes P child

  -- Some node's value has the property.
  abbrev pub AnyNode : (V → Type 0) → RangeTree V → Type 0
  AnyNode P nil = ⊥
  AnyNode P bare = ⊥
  AnyNode P (node n sibling child) = P n.value ⊎ (AnyNode P sibling ⊎ AnyNode P child)

  module _ (P : V → Type 0) where
    cut_value : (r : BodyRange V) (e : ℕ) → P r.value → P (offset_back (truncate_start r e) e).value
    cut_value r e h = if_cases (λ (b : BodyRange V). P b.value) (ltb r.start e) (λ _. h) (λ _. h)

    inside_value :
        (r : BodyRange V) (e s : ℕ) → P r.value → P (offset_back (truncate_end r e) s).value
    inside_value r e s h =
        if_cases (λ (b : BodyRange V). P b.value) (ltb e (end_of r)) (λ _. h) (λ _. h)

    add-AllNodes :
        (t : RangeTree V) (r : BodyRange V) → P r.value → AllNodes P t → AllNodes P (add t r)
    unfolding add
    add-AllNodes nil r h a = (h, tt, tt)
    add-AllNodes bare r h a = (h, tt, tt)
    add-AllNodes (node n sibling child) r h (a, b, c) =
        let e = end_of n in
        let in_child =
          add-AllNodes child (offset_back (truncate_end r e) n.start) (inside_value r e n.start h)
            c in
        add_cases (AllNodes P) n r sibling child
          (λ _. (a, add-AllNodes sibling (offset_back r e) h b, c))
          (λ _ _. (
            a,
            add-AllNodes sibling (offset_back (truncate_start r e) e) (cut_value r e h) b,
            in_child,
          ))
          (λ _ _. (a, b, in_child))

    pub add_all-AllNodes :
        (t : RangeTree V) (rs : List (BodyRange V))
        → All (λ r. P r.value) rs
        → AllNodes P t
        → AllNodes P (add_all t rs)
    unfolding add_all
    add_all-AllNodes t [] h a = a
    add_all-AllNodes t (r ∷ rs) (h, hs) a = add_all-AllNodes (add t r) rs hs (add-AllNodes t r h a)

    add-AnyNode_new : (t : RangeTree V) (r : BodyRange V) → P r.value → AnyNode P (add t r)
    unfolding add
    add-AnyNode_new nil r h = inl h
    add-AnyNode_new bare r h = inl h
    add-AnyNode_new (node n sibling child) r h =
        let e = end_of n in
        let in_child =
          add-AnyNode_new child (offset_back (truncate_end r e) n.start)
            (inside_value r e n.start h) in
        add_cases (AnyNode P) n r sibling child
          (λ _. inr (inl (add-AnyNode_new sibling (offset_back r e) h))) (λ _ _. inr (inr in_child))
          (λ _ _. inr (inr in_child))

    add-AnyNode_old : (t : RangeTree V) (r : BodyRange V) → AnyNode P t → AnyNode P (add t r)
    unfolding add
    add-AnyNode_old nil r a = elim a [ ]
    add-AnyNode_old bare r a = elim a [ ]
    add-AnyNode_old (node n sibling child) r (inl a) =
        add_cases (AnyNode P) n r sibling child (λ _. inl a) (λ _ _. inl a) (λ _ _. inl a)
    add-AnyNode_old (node n sibling child) r (inr (inl b)) =
        let e = end_of n in
        add_cases (AnyNode P) n r sibling child
          (λ _. inr (inl (add-AnyNode_old sibling (offset_back r e) b)))
          (λ _ _. inr (inl (add-AnyNode_old sibling (offset_back (truncate_start r e) e) b)))
          (λ _ _. inr (inl b))
    add-AnyNode_old (node n sibling child) r (inr (inr c)) =
        let in_child = add-AnyNode_old child (offset_back (truncate_end r (end_of n)) n.start) c in
        add_cases (AnyNode P) n r sibling child (λ _. inr (inr c)) (λ _ _. inr (inr in_child))
          (λ _ _. inr (inr in_child))

    -- Some element's value has the property.
    abbrev pub AnyValue : List (BodyRange V) → Type 0
    AnyValue [] = ⊥
    AnyValue (r ∷ rs) = P r.value ⊎ AnyValue rs

    add_all-AnyNode_old :
        (t : RangeTree V) (rs : List (BodyRange V)) → AnyNode P t → AnyNode P (add_all t rs)
    unfolding add_all
    add_all-AnyNode_old t [] a = a
    add_all-AnyNode_old t (r ∷ rs) a = add_all-AnyNode_old (add t r) rs (add-AnyNode_old t r a)

    pub add_all-AnyNode :
        (t : RangeTree V) (rs : List (BodyRange V)) → AnyValue rs → AnyNode P (add_all t rs)
    unfolding add_all
    add_all-AnyNode t [] h = elim h [ ]
    add_all-AnyNode t (r ∷ rs) (inl h) = add_all-AnyNode_old (add t r) rs (add-AnyNode_new t r h)
    add_all-AnyNode t (r ∷ rs) (inr h) = add_all-AnyNode (add t r) rs h
