-- ===== src/Signalfmt/Convert/Values.antt =====
-- Which values can be formatted, and which of the kept ranges have one.
use mautrix_signal.Common.{
  ℕ, ◌<◌, ◌≡◌, ◌≢◌, ◌⊎◌, inl, inr, refl, sym, ap, ◌∙◌, subst, ltb, leb, ◌==◌, ◌||◌, if_cases, Bool,
  Option, none, some, List, [], ◌∷◌, ◌++◌, All, Any, lt→leb, list_eq, list_eq→eq, length, take,
  drop, arith, Option-cases, length-take, length-drop, le→ltb,
}
use mautrix_signal.Signalfmt.Tree.{BodyRange, RangeTree, nil, bare, node, end_of}
use mautrix_signal.Signalfmt.Tree.Contents.{Fits, AllNodes, AnyNode, AnyValue}
use mautrix_signal.Signalfmt.Format.{format, ◌>>=◌}
use mautrix_signal.Signalfmt.Convert.{
  Value, unset, style, mention, Associated, mention_aci, mention_aci_binary, unsupported, Range,
  Services, resolve, nil_uuid, write_text, write_value, is_monospace,
}
use mautrix_signal.Signalfmt.Convert.Ranges.{chosen, truncated, cut_some, kept_one, kept, cons_some}

-- A value whose Format method can be called.
abbrev pub Formattable : Value → Type 0
Formattable unset = ⊥
Formattable (style s) = Unit
Formattable (mention user aci) = Unit

abbrev pub IsUnset : Value → Type 0
IsUnset unset = Unit
IsUnset (style s) = ⊥
IsUnset (mention user aci) = ⊥

module _ (services : Services) where
  abbrev pub show : RangeTree Value → List ℕ → Bool → Option (List ℕ)
  show = format (write_text services) (write_value services) is_monospace

  write_value-total :
      (v : Value) (message : List ℕ)
      → Formattable v
      → (html : List ℕ) × (write_value services v message ≡ some html)
  unfolding write_value
  write_value-total unset message h = elim h [ ]
  write_value-total (style s) message h = (_, refl)
  write_value-total (mention user aci) message h = (_, refl)

  pub format-total :
      (t : RangeTree Value) (message : List ℕ) (code : Bool)
      → Fits (length message) t
      → AllNodes Formattable t
      → (html : List ℕ) × (show t message code ≡ some html)
  unfolding format
  format-total nil message code f h = (_, refl)
  format-total bare message code f h = (_, refl)
  format-total (node n sibling child) message code (a, b, c) (h, hs, hc) =
      let inner = take n.len (drop n.start message) in
      let inner_length : length inner ≡ n.len =
        length-take n.len (drop n.start message) (omega (arith, length-drop n.start message)) in
      let (child_html, child_shown) =
        format-total child inner (code || is_monospace n.value)
          (subst (λ l. Fits l child) (sym inner_length) c) hc in
      let (own_html, own_shown) = write_value-total n.value child_html h in
      let (sibling_html, sibling_shown) =
        format-total sibling (drop (end_of n) message) code
          (subst (λ l. Fits l sibling) (sym (length-drop (end_of n) message)) b) hs in
      (
        write_text services code (take n.start message) ++ own_html ++ sibling_html,
        rw (le→ltb (length message) (end_of n) a, child_shown, own_shown, sibling_shown),
      )

  write_value_unset :
      (v : Value) (message : List ℕ) → IsUnset v → write_value services v message ≡ none
  unfolding write_value
  write_value_unset unset message h = refl
  write_value_unset (style s) message h = elim h [ ]
  write_value_unset (mention user aci) message h = elim h [ ]

  -- A chain of two calls with a fallible step between them fails if one of the three does.
  chain_none :
      (first : Option (List ℕ)) (step : List ℕ → Option (List ℕ)) (last : Option (List ℕ))
      (join : List ℕ → List ℕ → List ℕ)
      → ((x : List ℕ) → step x ≡ none) ⊎ ((last ≡ none) ⊎ (first ≡ none))
      → (first >>= λ x. step x >>= λ y. last >>= λ z. some (join y z)) ≡ none
  chain_none none step last join h = refl
  chain_none (some x) step last join (inl h) = rw (h x)
  chain_none (some x) step last join (inr (inl h)) = rw h (bind_none (step x))
    where
      bind_none : (m : Option (List ℕ)) → (m >>= λ y. none >>= λ z. some (join y z)) ≡ none
      bind_none none = refl
      bind_none (some y) = refl
  chain_none (some x) step last join (inr (inr h)) = cc

  pub format-none :
      (t : RangeTree Value) (message : List ℕ) (code : Bool)
      → AnyNode IsUnset t
      → show t message code ≡ none
  unfolding format
  format-none nil message code h = elim h [ ]
  format-none bare message code h = elim h [ ]
  format-none (node n sibling child) message code h =
      let inner = take n.len (drop n.start message) in
      let code' = code || is_monospace n.value in
      let rest = drop (end_of n) message in
      if_cases (λ (o : Option (List ℕ)). o ≡ none) (ltb (length message) (end_of n)) (λ _. refl)
        (λ _.
          chain_none (show child inner code') (write_value services n.value)
            (show sibling rest code)
            (λ y z. write_text services code (take n.start message) ++ y ++ z)
            (parts h (format-none sibling rest code) (format-none child inner code')))
    where
      parts :
          AnyNode IsUnset (node n sibling child)
          → (AnyNode IsUnset sibling → show sibling (drop (end_of n) message) code ≡ none)
          → (AnyNode IsUnset child
              → show child (take n.len (drop n.start message)) (code || is_monospace n.value)
                ≡ none)
          → ((x : List ℕ) → write_value services n.value x ≡ none)
            ⊎ ((show sibling (drop (end_of n) message) code ≡ none)
                ⊎ (show child (take n.len (drop n.start message)) (code || is_monospace n.value)
                    ≡ none))
      parts (inl v) f g = inl (λ x. write_value_unset n.value x v)
      parts (inr (inl b)) f g = inr (inl (f b))
      parts (inr (inr c)) f g = inr (inr (g c))

  -- A range that mentions nobody: its author is the UUID of sixteen zero bytes.
  abbrev pub MentionsNil : Associated → Type 0
  MentionsNil (style s) = ⊥
  MentionsNil (mention_aci text) = services.parse_uuid text ≡ some nil_uuid
  MentionsNil (mention_aci_binary bytes) = bytes ≡ nil_uuid
  MentionsNil unsupported = ⊥

  abbrev Okay : Option Value → Type 0
  Okay none = Unit
  Okay (some v) = Formattable v

  mention-Okay : (aci : List ℕ) → aci ≢ nil_uuid → Okay (chosen services (some (unset, aci)))
  mention-Okay aci h =
      if_cases Okay (list_eq aci nil_uuid) (λ q. absurd (h (list_eq→eq aci nil_uuid q)))
        (λ _. if_cases Okay (list_eq (services.user_info aci).mxid []) (λ _. tt) (λ _. tt))

  chosen-Okay : (a : Associated) → ¬ MentionsNil a → Okay (chosen services (resolve services a))
  unfolding resolve
  chosen-Okay (style s) h = tt
  chosen-Okay (mention_aci text) h = elim (Option-cases (services.parse_uuid text)) [
    | inl e ↦ rw e tt
    | inr (aci, e) ↦ rw e (mention-Okay aci (λ q. h (e ∙ ap some q)))
  ]
  chosen-Okay (mention_aci_binary bytes) h =
      if_cases (λ o. Okay (chosen services o)) (length bytes == 16) (λ _. mention-Okay bytes h)
        (λ _. tt)
  chosen-Okay unsupported h = tt

  chosen_unset :
      (a : Associated) → MentionsNil a → chosen services (resolve services a) ≡ some unset
  unfolding resolve
  chosen_unset (style s) h = elim h [ ]
  chosen_unset (mention_aci text) h = rw h
  chosen_unset (mention_aci_binary bytes) h = rw h
  chosen_unset unsupported h = elim h [ ]

  truncated_keeps : (r : Range) (l : ℕ) (v : Value) → (truncated r l v).value ≡ v
  truncated_keeps r l v = ground arith

  kept_one-Okay :
      (l : ℕ) (r : Range)
      → ¬ MentionsNil r.associated
      → (ks : List (BodyRange Value)) → All (λ b. Formattable b.value) ks
      → All (λ b. Formattable b.value) (cons_some (kept_one services l r) ks)
  kept_one-Okay l r h ks hs =
      if_cases (λ o. All (λ b. Formattable b.value) (cons_some o ks)) (leb l r.start) (λ _. hs)
        (λ _. put (chosen services (resolve services r.associated)) (chosen-Okay r.associated h))
    where
      put :
          (o : Option Value)
          → Okay o
          → All (λ (b : BodyRange Value). Formattable b.value) (cons_some (cut_some r l o) ks)
      put none ok = hs
      put (some v) ok = (subst Formattable (sym (truncated_keeps r l v)) ok, hs)

  pub kept-Formattable :
      (l : ℕ) (rs : List Range)
      → All (λ r. ¬ MentionsNil r.associated) rs
      → All (λ b. Formattable b.value) (kept services l rs)
  unfolding kept
  kept-Formattable l [] h = tt
  kept-Formattable l (r ∷ rs) (h, hs) = kept_one-Okay l r h _ (kept-Formattable l rs hs)

  abbrev pub NilAt : ℕ → Range → Type 0
  NilAt l r = MentionsNil r.associated × (r.start < l)

  pub kept-Any :
      (l : ℕ) (rs : List Range) → Any (NilAt l) rs → AnyValue IsUnset (kept services l rs)
  unfolding kept
  kept-Any l [] h = elim h [ ]
  kept-Any l (r ∷ rs) (inl (h, q)) =
      rw (lt→leb l r.start q, chosen_unset r.associated h)
        (inl (subst IsUnset (sym (truncated_keeps r l unset)) tt))
  kept-Any l (r ∷ rs) (inr h) = later (kept_one services l r) (kept-Any l rs h)
    where
      later :
          (o : Option (BodyRange Value))
          → AnyValue IsUnset (kept services l rs)
          → AnyValue IsUnset (cons_some o (kept services l rs))
      later none a = a
      later (some b) a = inr a
