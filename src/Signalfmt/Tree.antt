-- ===== src/Signalfmt/Tree.antt =====
-- pkg/msgconv/signalfmt/tree.go: body ranges and the linked range tree.
-- The type of values is a parameter. A Go int is a natural number here: Start and Length come from
-- uint32 fields, and `Ready` of Tree/Styles is the condition under which no subtraction goes below 0.
pub mod Styles
pub mod Contents
use mautrix_signal.Common.{ℕ, ◌+◌, ◌-◌, ltb, leb, if◌then◌else◌, List, [], ◌∷◌}

module _ {ℓ} where
  pub record BodyRange (V : Type ℓ) : Type ℓ where
    pub start : ℕ
    pub len : ℕ
    pub value : V

  -- A nil pointer, or an allocated node. `bare` is a node whose Node field is nil.
  pub data RangeTree (V : Type ℓ) : Type ℓ where
    nil : RangeTree V
    bare : RangeTree V
    node : BodyRange V → RangeTree V → RangeTree V → RangeTree V

module _ {ℓ} {V : Type ℓ} where
  abbrev pub end_of : BodyRange V → ℕ
  end_of b = b.start + b.len

  -- `Offset(-n)`.
  abbrev pub offset_back : BodyRange V → ℕ → BodyRange V
  offset_back b n = record b { start = b.start - n }

  abbrev pub truncate_start : BodyRange V → ℕ → BodyRange V
  truncate_start b at =
      if ltb b.start at then record b { len = b.len - (at - b.start); start = at } else b

  abbrev pub truncate_end : BodyRange V → ℕ → BodyRange V
  truncate_end b max_end =
      if ltb max_end (end_of b) then record b { len = max_end - b.start } else b

  -- `node r sibling child`: the fields Node, Sibling and Child.
  unfoldable pub add : RangeTree V → BodyRange V → RangeTree V
  add nil r = node r nil nil
  add bare r = node r nil nil
  add (node n sibling child) r =
      let e = end_of n in
      let past = add sibling (offset_back r e) in
      let cut = add sibling (offset_back (truncate_start r e) e) in
      let inside = add child (offset_back (truncate_end r e) n.start) in
      if leb e r.start
      then node n past child
      else (if ltb e (end_of r) then node n cut inside else node n sibling inside)

  unfoldable pub add_all : RangeTree V → List (BodyRange V) → RangeTree V
  add_all t [] = t
  add_all t (r ∷ rs) = add_all (add t r) rs
