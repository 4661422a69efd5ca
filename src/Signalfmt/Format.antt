-- ===== src/Signalfmt/Format.antt =====
-- LinkedRangeTree.Format of pkg/msgconv/signalfmt/html.go, over any way to write text and values.
-- `none` is a Go panic: a slice out of range, or a method call on a nil value.
pub mod Annotate
use mautrix_signal.Common.{
  ltb, ◌||◌, Bool, if◌then◌else◌, Option, none, some, ℕ, List, ◌++◌, length, take, drop,
}
use mautrix_signal.Signalfmt.Tree.{RangeTree, nil, bare, node, end_of}

infixl 5 ◌>>=◌
abbrev pub ◌>>=◌ : {A B : Type 0} → Option A → (A → Option B) → Option B
none >>= f = none
some a >>= f = f a

module _ {V C : Type 0} (write_text : Bool → List ℕ → List C)
    (write_value : V → List C → Option (List C)) (is_monospace : V → Bool) where
  -- The Boolean is formatContext.IsInCodeblock.
  unfoldable pub format : RangeTree V → List ℕ → Bool → Option (List C)
  format nil message code = some (write_text code message)
  format bare message code = some (write_text code message)
  format (node n sibling child) message code = if ltb (length message) (end_of n) then none else (do
    let inner = take n.len (drop n.start message)
    child_message ← format child inner (code || is_monospace n.value)
    formatted ← write_value n.value child_message
    sibling_message ← format sibling (drop (end_of n) message) code
    some (write_text code (take n.start message) ++ formatted ++ sibling_message))
