-- ===== src/SenderKey/Covered.antt =====
-- Whom the sender key is shared with, and who gets it.
use mautrix_signal.Common.{
  ℕ, ◌≡◌, ◌⊎◌, inl, inr, refl, sym, ◌∙◌, if_cases, Option-cases, Bool, true, false, not, ◌&&◌,
  Option, none, some, List, [], ◌∷◌, lookup, arith,
}
use mautrix_signal.SenderKey.{
  Bytes, Map, SendMeta, keys, mark, devices, new_devices, Difference, is_empty, diff_recipients,
  plan_distribution,
}
use mautrix_signal.SenderKey.Masks.{marked}
use mautrix_signal.SenderKey.Rounds.{
  has, has_key, Effect, has_key-keys, rounds-Effect, collector_mask,
}

empty-has : (x : ℕ) (xs : List ℕ) → is_empty xs ≡ true → has x xs ≡ false
empty-has x [] h = refl
empty-has x (y ∷ ys) h = absurd (ground arith)

-- exslices.Diff returns the elements of the first list that are not in the second one, and the
-- elements of the second list that are not in the first one.
abbrev pub IsDiff : (List ℕ → List ℕ → List ℕ × List ℕ) → Type 0
IsDiff diff =
    (a b : List ℕ) (x : ℕ)
    → (has x (diff a b).0 ≡ (has x a && not (has x b)))
      × (has x (diff a b).1 ≡ (has x b && not (has x a)))

module _ (diff : List ℕ → List ℕ → List ℕ × List ℕ) (prev : Map (List ℕ)) (new : Map SendMeta)
    (k : Bytes) (x : ℕ) where
  -- A device that holds the key is one of the recipient, and a device of the recipient holds the key or
  -- gets it.
  abbrev pub IsCovered : Map (List ℕ) × List Bytes → Type 0
  IsCovered plan =
      ((has x (devices k plan.0) ≡ false) ⊎ (has x (new_devices k new) ≡ true))
      × ((has x (new_devices k new) ≡ false)
          ⊎ ((has x (devices k plan.0) ≡ true) ⊎ (has_key k plan.1 ≡ true)))

  reset-IsCovered : IsCovered ([], keys new)
  reset-IsCovered = elim (Option-cases (lookup k new)) [
    | inl e ↦ (inl refl, inl (rw e refl))
    | inr (meta, e) ↦ (inl refl, inr (inr (has_key-keys k new meta e)))
  ]

  abbrev compared : Difference
  compared = diff_recipients diff prev new

  mask-Effect :
      (p : Option (List ℕ)) (n : Option SendMeta) (mask : ℕ)
      → lookup k prev ≡ p
      → lookup k new ≡ n
      → marked 2 n (marked 1 p none) ≡ some mask
      → is_empty compared.removed_devices ≡ true
      → Effect diff prev new k mask compared.devices_added_to
  unfolding diff_recipients
  mask-Effect p n mask e f m h =
      rounds-Effect diff prev new (mark 2 new (mark 1 prev [])) _ k mask
        (collector_mask diff prev new k ∙ rw (e, f) m) h

  shared-IsCovered :
      (ids : List ℕ) (meta : SendMeta)
      → IsDiff diff
      → lookup k prev ≡ some ids
      → lookup k new ≡ some meta
      → is_empty compared.removed_devices ≡ true
      → IsCovered (prev, compared.devices_added_to)
  shared-IsCovered ids meta law e f h =
      let (gone, fresh) = law (devices k prev) (new_devices k new) x in
      let (one, two, three) = mask-Effect (some ids) (some meta) 3 e f refl h in
      elim three [
        | inl q ↦ absurd (ground arith)
        | inr (r, a) ↦
            let stays : (has x (devices k prev) && not (has x (new_devices k new))) ≡ false =
              sym gone ∙ empty-has x (diff (devices k prev) (new_devices k new)).0 r in
            (
              first (has x (devices k prev)) (has x (new_devices k new)) stays,
              elim a [
                | inr t ↦ inr (inr t)
                | inl t ↦
                    second (has x (new_devices k new)) (has x (devices k prev))
                      (sym fresh ∙ empty-has x (diff (devices k prev) (new_devices k new)).1 t)
              ],
            )
      ]
    where
      first : (a b : Bool) → (a && not b) ≡ false → (a ≡ false) ⊎ (b ≡ true)
      first true true q = inr refl
      first true false q = absurd (ground arith)
      first false b q = inl refl

      second : {P : Type 0} (a b : Bool) → (a && not b) ≡ false → (a ≡ false) ⊎ ((b ≡ true) ⊎ P)
      second true true q = inr (inl refl)
      second true false q = absurd (ground arith)
      second false b q = inl refl

  kept-IsCovered :
      IsDiff diff
      → is_empty compared.removed_devices ≡ true
      → IsCovered (prev, compared.devices_added_to)
  kept-IsCovered law h = elim (Option-cases (lookup k prev)) [
    | inl e ↦ elim (Option-cases (lookup k new)) [
      | inl f ↦ (inl (rw e refl), inl (rw f refl))
      | inr (meta, f) ↦
          let (one, two, three) = mask-Effect none (some meta) 2 e f refl h in
          (inl (rw e refl), elim two [ inl q ↦ absurd (ground arith) | inr q ↦ inr (inr q) ])
    ]
    | inr (ids, e) ↦ elim (Option-cases (lookup k new)) [
      | inl f ↦
          let (one, two, three) = mask-Effect (some ids) none 1 e f refl h in absurd (ground arith)
      | inr (meta, f) ↦ shared-IsCovered ids meta law e f h
    ]
  ]

  -- After the recipients are compared, no device holds the sender key that is not a device of a
  -- recipient now, and each device of a recipient holds the key or its recipient is sent the key.
  pub plan_distribution-IsCovered : IsDiff diff → IsCovered (plan_distribution diff prev new)
  unfolding plan_distribution
  plan_distribution-IsCovered law =
      if_cases IsCovered (not (is_empty compared.removed_devices)) (λ _. reset-IsCovered)
        (λ q. kept-IsCovered law (ground arith))
