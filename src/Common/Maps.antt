-- ===== src/Common/Maps.antt =====
-- Go maps whose keys are strings or byte arrays, as lists of keys and values.
use Prim.Native.Nat.{ℕ}
use mathlib.Core.Path.{◌≡◌, refl, ap, sym, ◌∙◌}
use mathlib.Core.Logic.{◌≢◌, inl, inr}
use mathlib.Core.Bool.{false}
use mathlib.Core.Option.{Option, none, some}
use mathlib.Core.List.{List, [], ◌∷◌}
use mautrix_signal.Common.Tests.{if◌then◌else◌, if_cases, Bool-cases}
use mautrix_signal.Common.Text.{list_eq, list_eq_refl, list_eq→eq}

other_key : (j k : List ℕ) → j ≢ k → list_eq j k ≡ false
other_key j k h = elim (Bool-cases (list_eq j k)) [
  | inl q ↦ absurd (h (list_eq→eq j k q))
  | inr q ↦ q
]

module _ {V : Type 0} where
  abbrev pub lookup : List ℕ → List (List ℕ × V) → Option V
  lookup k [] = none
  lookup k ((j, v) ∷ m) = if list_eq j k then some v else lookup k m

  -- `delete(m, k)`.
  abbrev pub remove_key : List ℕ → List (List ℕ × V) → List (List ℕ × V)
  remove_key k [] = []
  remove_key k ((j, v) ∷ m) =
      let rest = remove_key k m in if list_eq j k then rest else (j, v) ∷ rest

  -- `m[k] = v`.
  abbrev pub store_key : List ℕ → V → List (List ℕ × V) → List (List ℕ × V)
  store_key k v m = (k, v) ∷ remove_key k m

  pub lookup-store_key :
      (k : List ℕ) (v : V) (m : List (List ℕ × V)) → lookup k (store_key k v m) ≡ some v
  lookup-store_key k v m = rw (list_eq_refl k) refl

  pub lookup-remove_key : (k : List ℕ) (m : List (List ℕ × V)) → lookup k (remove_key k m) ≡ none
  lookup-remove_key k [] = refl
  lookup-remove_key k ((j, v) ∷ m) =
      if_cases (λ l. lookup k l ≡ none) (list_eq j k) (λ _. lookup-remove_key k m)
        (λ q. rw q (lookup-remove_key k m))

  pub lookup-remove_key_other :
      (j k : List ℕ) (m : List (List ℕ × V)) → k ≢ j → lookup j (remove_key k m) ≡ lookup j m
  lookup-remove_key_other j k [] h = refl
  lookup-remove_key_other j k ((i, v) ∷ m) h =
      if_cases (λ l. lookup j l ≡ lookup j ((i, v) ∷ m)) (list_eq i k)
        (λ q.
          rw (other_key i j (λ e. h (sym (list_eq→eq i k q) ∙ e)))
            (lookup-remove_key_other j k m h))
        (λ q. ap (λ o. if list_eq i j then some v else o) (lookup-remove_key_other j k m h))

  pub lookup-store_key_other :
      (j k : List ℕ) (v : V) (m : List (List ℕ × V))
      → k ≢ j
      → lookup j (store_key k v m) ≡ lookup j m
  lookup-store_key_other j k v m h = rw (other_key k j h) (lookup-remove_key_other j k m h)
