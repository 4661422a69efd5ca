-- ===== src/Signalfmt/Format/Annotate.antt =====
-- Format keeps the text and nests the values: over marks, it pairs each unit of the message with the
-- values that the tree shows at it.
use mautrix_signal.Common.{
  ℕ, suc, ◌+◌, ◌-◌, ◌<◌, ◌≡◌, refl, sym, ap, ◌∙◌, Bool, Option, some, List, [], ◌∷◌, ◌++◌, map,
  length, take, drop, arith, length-take, length-drop, drop-add, take-append-drop, subst,
  append_assoc, le→ltb, ◌||◌,
}
use mautrix_signal.Signalfmt.Tree.{BodyRange, RangeTree, nil, bare, node, end_of}
use mautrix_signal.Signalfmt.Tree.Styles.{styles_at}
use mautrix_signal.Signalfmt.Tree.Contents.{Fits}
use mautrix_signal.Signalfmt.Format.{format}

module _ {V : Type 0} where
  -- Each unit with the values at its position.
  pub annotate : (ℕ → List V) → List ℕ → List (ℕ × List V)
  annotate f [] = []
  annotate f (u ∷ us) = (u, f 0) ∷ annotate (λ p. f (suc p)) us

  -- Text written as units with no value, and a value written onto every unit inside it.
  abbrev pub plain : Bool → List ℕ → List (ℕ × List V)
  plain code us = annotate (λ p. []) us

  abbrev pub mark : V → List (ℕ × List V) → Option (List (ℕ × List V))
  mark v us = some (map (λ u. (u.0, v ∷ u.1)) us)

  annotate-ext :
      (f g : ℕ → List V) (us : List ℕ)
      → ((p : ℕ) → p < length us → f p ≡ g p)
      → annotate f us ≡ annotate g us
  unfolding annotate
  annotate-ext f g [] h = refl
  annotate-ext f g (u ∷ us) h = rw (h 0 (omega arith)) (
      ap (◌∷◌ (u, g 0))
        (annotate-ext (λ p. f (suc p)) (λ p. g (suc p)) us (λ p q. h (suc p) (omega arith))))

  annotate-append :
      (f : ℕ → List V) (us vs : List ℕ)
      → annotate f (us ++ vs) ≡ annotate f us ++ annotate (λ p. f (p + length us)) vs
  unfolding annotate
  annotate-append f [] vs = annotate-ext f (λ p. f (p + 0)) vs (λ p _. ap f (omega arith))
  annotate-append f (u ∷ us) vs = ap (◌∷◌ (u, f 0)) (
      annotate-append (λ p. f (suc p)) us vs
      ∙ ap (λ l. annotate (λ p. f (suc p)) us ++ l)
          (annotate-ext (λ p. f (suc (p + length us))) (λ p. f (p + suc (length us))) vs
            (λ p _. ap f (omega arith))))

  annotate-map :
      (f : ℕ → List V) (v : V) (us : List ℕ)
      → map (λ u. (u.0, v ∷ u.1)) (annotate f us) ≡ annotate (λ p. v ∷ f p) us
  unfolding annotate
  annotate-map f v [] = refl
  annotate-map f v (u ∷ us) = ap (◌∷◌ (u, v ∷ f 0)) (annotate-map (λ p. f (suc p)) v us)

  before_node :
      (n : BodyRange V) (sibling child : RangeTree V) (p : ℕ)
      → p < n.start
      → styles_at (node n sibling child) p ≡ []
  unfolding styles_at
  before_node n sibling child p h = ground arith

  inside_node :
      (n : BodyRange V) (sibling child : RangeTree V) (p q : ℕ)
      → p < n.len
      → q ≡ p + n.start
      → styles_at (node n sibling child) q ≡ n.value ∷ styles_at child p
  unfolding styles_at
  inside_node n sibling child p q h e =
      let back : q - n.start ≡ p = omega arith in ground (arith, ap (styles_at child) back)

  after_node :
      (n : BodyRange V) (sibling child : RangeTree V) (p q : ℕ)
      → q ≡ p + end_of n
      → styles_at (node n sibling child) q ≡ styles_at sibling p
  unfolding styles_at
  after_node n sibling child p q e =
      let back : q - end_of n ≡ p = omega arith in ground (arith, ap (styles_at sibling) back)

  annotate-node :
      (n : BodyRange V) (sibling child : RangeTree V) (a b c : List ℕ)
      → length a ≡ n.start
      → length b ≡ n.len
      → annotate (styles_at (node n sibling child)) (a ++ (b ++ c))
        ≡ annotate (λ p. []) a
          ++ (annotate (λ p. n.value ∷ styles_at child p) b ++ annotate (styles_at sibling) c)
  annotate-node n sibling child a b c la lb =
      let f = styles_at (node n sibling child) in
      let g : ℕ → List V = λ p. f (p + length a) in
      annotate-append f a (b ++ c)
      ∙ ap (λ l. l ++ annotate g (b ++ c))
          (annotate-ext f (λ p. []) a (λ p h. before_node n sibling child p (omega arith)))
      ∙ ap (λ l. annotate (λ p. []) a ++ l)
          (annotate-append g b c
            ∙ ap (λ l. l ++ annotate (λ p. g (p + length b)) c)
                (annotate-ext g (λ p. n.value ∷ styles_at child p) b
                  (λ p h. inside_node n sibling child p _ (omega arith) (omega arith)))
            ∙ ap (λ l. annotate (λ p. n.value ∷ styles_at child p) b ++ l)
                (annotate-ext (λ p. g (p + length b)) (styles_at sibling) c
                  (λ p h. after_node n sibling child p _ (omega arith))))

  split_message :
      (n : BodyRange V) (message : List ℕ)
      → take n.start message ++ (take n.len (drop n.start message) ++ drop (end_of n) message)
        ≡ message
  split_message n message =
      rw (drop-add n.start n.len message, take-append-drop n.len (drop n.start message))
        (take-append-drop n.start message)

  -- Over a message that every node fits into, Format does not panic, and shows each unit of the
  -- message once, in order, with the values that the tree has at its position.
  pub format-annotate :
      (is_monospace : V → Bool) (t : RangeTree V) (message : List ℕ) (code : Bool)
      → Fits (length message) t
      → format plain mark is_monospace t message code ≡ some (annotate (styles_at t) message)
  unfolding format
  format-annotate is_monospace nil message code h = unfold styles_at in refl
  format-annotate is_monospace bare message code h = unfold styles_at in refl
  format-annotate is_monospace (node n sibling child) message code (a, b, c) =
      let inner = take n.len (drop n.start message) in
      let rest = drop (end_of n) message in
      let head : List (ℕ × List V) = annotate (λ p. []) (take n.start message) in
      let inner_length : length inner ≡ n.len =
        length-take n.len (drop n.start message) (omega (arith, length-drop n.start message)) in
      let child_shown =
        format-annotate is_monospace child inner (code || is_monospace n.value)
          (subst (λ l. Fits l child) (sym inner_length) c) in
      let sibling_shown =
        format-annotate is_monospace sibling rest code
          (subst (λ l. Fits l sibling) (sym (length-drop (end_of n) message)) b) in
      let whole =
        annotate-node n sibling child (take n.start message) inner rest
          (length-take n.start message (omega arith)) inner_length in
      rw (le→ltb (length message) (end_of n) a, child_shown, sibling_shown)
        (ap some (
          append_assoc head (map (λ u. (u.0, n.value ∷ u.1)) (annotate (styles_at child) inner))
            (annotate (styles_at sibling) rest)
          ∙ ap (λ l. head ++ (l ++ annotate (styles_at sibling) rest))
              (annotate-map (styles_at child) n.value inner)
          ∙ sym whole
          ∙ ap (annotate (styles_at (node n sibling child))) (split_message n message)))
