-- ===== src/Signalfmt/Convert/Sorting.antt =====
-- The sorting step of Parse, on properties of single ranges.
use mautrix_signal.Common.{◌⊎◌, inl, inr, if_cases, List, [], ◌∷◌, All, Any}
use mautrix_signal.Signalfmt.Convert.{Range, comes_first, insert, sort}

-- Sorting moves ranges about and drops none.
module _ (P : Range → Type 0) where
  insert-All : (r : Range) (rs : List Range) → P r → All P rs → All P (insert r rs)
  unfolding insert
  insert-All r [] h hs = (h, tt)
  insert-All r (x ∷ xs) h (hx, hs) =
      if_cases (All P) (comes_first r x) (λ _. (h, (hx, hs))) (λ _. (hx, insert-All r xs h hs))

  pub sort-All : (rs : List Range) → All P rs → All P (sort rs)
  unfolding sort
  sort-All [] h = tt
  sort-All (r ∷ rs) (h, hs) = insert-All r (sort rs) h (sort-All rs hs)

  insert-Any : (r : Range) (rs : List Range) → P r ⊎ Any P rs → Any P (insert r rs)
  unfolding insert
  insert-Any r [] h = h
  insert-Any r (x ∷ xs) (inl h) =
      if_cases (Any P) (comes_first r x) (λ _. inl h) (λ _. inr (insert-Any r xs (inl h)))
  insert-Any r (x ∷ xs) (inr (inl h)) =
      if_cases (Any P) (comes_first r x) (λ _. inr (inl h)) (λ _. inl h)
  insert-Any r (x ∷ xs) (inr (inr h)) =
      if_cases (Any P) (comes_first r x) (λ _. inr (inr h)) (λ _. inr (insert-Any r xs (inr h)))

  pub sort-Any : (rs : List Range) → Any P rs → Any P (sort rs)
  unfolding sort
  sort-Any [] h = h
  sort-Any (r ∷ rs) (inl h) = insert-Any r (sort rs) (inl h)
  sort-Any (r ∷ rs) (inr h) = insert-Any r (sort rs) (inr (sort-Any rs h))
