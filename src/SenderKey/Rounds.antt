-- ===== src/SenderKey/Rounds.antt =====
-- What the loop of diffRecipients does to a recipient, when nothing is removed.
use mautrix_signal.Common.{
  ℕ, ◌≡◌, ◌⊎◌, inl, inr, refl, ap, subst, ◌==◌, if_cases, if◌then◌else◌, Bool-cases, Bool, true,
  false, not, ◌||◌, Option, none, some, List, [], ◌∷◌, ◌++◌, list_eq, list_eq→eq, list_eq_refl,
  lookup, arith,
}
use mautrix_signal.Groups.Change.{contains_func}
use mautrix_signal.SenderKey.{
  Bytes, Map, SendMeta, keys, mark, devices, new_devices, Difference, is_empty, removes, adds_to,
  changed_devices, with_key, diff_round, diff_rounds,
}
use mautrix_signal.SenderKey.Masks.{mask_value, marked, IsIdempotent, lookup-mark}

abbrev pub has : ℕ → List ℕ → Bool
has x xs = contains_func (λ y. y == x) xs

abbrev pub has_key : Bytes → List Bytes → Bool
has_key k ks = contains_func (λ j. list_eq j k) ks

has_key-append :
    (k : Bytes) (xs ys : List Bytes) → has_key k xs ≡ true → has_key k (xs ++ ys) ≡ true
has_key-append k [] ys h = absurd (ground arith)
has_key-append k (x ∷ xs) ys h = elim (Bool-cases (list_eq x k)) [
  | inl q ↦ rw q refl
  | inr q ↦ rw q (has_key-append k xs ys (subst (λ b. (b || has_key k xs) ≡ true) q h))
]

has_key-append_last : (k : Bytes) (xs : List Bytes) → has_key k (xs ++ k ∷ []) ≡ true
has_key-append_last k [] = rw (list_eq_refl k) refl
has_key-append_last k (x ∷ xs) = elim (Bool-cases (list_eq x k)) [
  | inl q ↦ rw q refl
  | inr q ↦ rw q (has_key-append_last k xs)
]

pub has_key-keys :
    {V : Type 0} (k : Bytes) (m : Map V) (v : V) → lookup k m ≡ some v → has_key k (keys m) ≡ true
has_key-keys k [] v e = absurd (ground arith)
has_key-keys k ((j, u) ∷ m) v e = elim (Bool-cases (list_eq j k)) [
  | inl q ↦ rw q refl
  | inr q ↦ rw q (has_key-keys k m v (subst (λ b. (if b then some u else lookup k m) ≡ some v) q e))
]

module _ (diff : List ℕ → List ℕ → List ℕ × List ℕ) (prev : Map (List ℕ)) (new : Map SendMeta) where
  -- What a round does to the two results, when it removes nothing.
  abbrev pub removed_here : Bytes → List ℕ
  removed_here k = (diff (devices k prev) (new_devices k new)).0

  abbrev pub added_here : Bytes → List ℕ
  added_here k = (diff (devices k prev) (new_devices k new)).1

  -- Nothing is removed of the recipient, and who has new devices is among those that get the key.
  abbrev pub Effect : Bytes → ℕ → List Bytes → Type 0
  Effect k mask added =
      ((mask == 1) ≡ false)
      × (((mask == 2) ≡ false) ⊎ (has_key k added ≡ true))
      × (((mask == 3) ≡ false)
          ⊎ ((is_empty (removed_here k) ≡ true)
              × ((is_empty (added_here k) ≡ true) ⊎ (has_key k added ≡ true))))

  abbrev Grows : Difference → Difference → Type 0
  Grows d e =
      (is_empty e.removed_devices ≡ true → is_empty d.removed_devices ≡ true)
      × ((k : Bytes) → has_key k d.devices_added_to ≡ true → has_key k e.devices_added_to ≡ true)

  with_key-Grows :
      (k : Bytes) (mask : ℕ) (d : Difference) → Grows d (with_key diff prev new k mask d)
  with_key-Grows k mask d =
      if_cases (Grows d) (not (mask == 1)) (λ _. (λ h. h, λ j h. h)) (λ _. (λ h. h, λ j h. h))

  removes-Grows : (k : Bytes) (ids : List ℕ) (d : Difference) → Grows d (removes k ids d)
  removes-Grows k ids d = (λ h. absurd (ground arith), λ j h. h)

  adds_to-Grows : (k : Bytes) (d : Difference) → Grows d (adds_to k d)
  adds_to-Grows k d = (λ h. h, λ j h. has_key-append j d.devices_added_to (k ∷ []) h)

  changed-Grows : (k : Bytes) (d : Difference) → Grows d (changed_devices diff prev new k d)
  changed-Grows k d =
      if_cases (Grows d) (not (is_empty (removed_here k))) (λ _. removes-Grows k (removed_here k) d)
        (λ _.
          if_cases (Grows d) (not (is_empty (added_here k))) (λ _. adds_to-Grows k d)
            (λ _. (λ h. h, λ j h. h)))

  Grows-trans : (c d e : Difference) → Grows c d → Grows d e → Grows c e
  Grows-trans c d e (f, g) (p, q) = (λ h. f (p h), λ j h. q j (g j h))

  round-Grows :
      (k : Bytes) (mask : ℕ) (d : Difference) → Grows d (diff_round diff prev new k mask d)
  unfolding diff_round
  round-Grows k mask d =
      let e : Difference = with_key diff prev new k mask d in
      let start : Grows d e = with_key-Grows k mask d in
      if_cases (Grows d) (mask == 1)
        (λ _.
          Grows-trans d e (removes k (devices k prev) e) start (removes-Grows k (devices k prev) e))
        (λ _.
          if_cases (Grows d) (mask == 2)
            (λ _. Grows-trans d e (adds_to k e) start (adds_to-Grows k e))
            (λ _.
              if_cases (Grows d) (mask == 3)
                (λ _. Grows-trans d e (changed_devices diff prev new k e) start (changed-Grows k e))
                (λ _. start)))

  rounds-Grows : (c : Map ℕ) (d : Difference) → Grows d (diff_rounds diff prev new c d)
  unfolding diff_rounds
  rounds-Grows [] d = (λ h. h, λ j h. h)
  rounds-Grows ((k, mask) ∷ c) d =
      Grows-trans d (diff_round diff prev new k mask d)
        (diff_rounds diff prev new ((k, mask) ∷ c) d) (round-Grows k mask d)
        (rounds-Grows c (diff_round diff prev new k mask d))

  changed-Effect :
      (k : Bytes) (d : Difference)
      → is_empty (changed_devices diff prev new k d).removed_devices ≡ true
      → (is_empty (removed_here k) ≡ true)
        × ((is_empty (added_here k) ≡ true)
            ⊎ (has_key k (changed_devices diff prev new k d).devices_added_to ≡ true))
  changed-Effect k d = elim (Bool-cases (is_empty (removed_here k))) [
    | inr q ↦ rw q (λ h. absurd (ground arith))
    | inl q ↦ elim (Bool-cases (is_empty (added_here k))) [
      | inl r ↦ λ h. (q, inl r)
      | inr r ↦ rw (q, r) (λ h. (refl, inr (has_key-append_last k d.devices_added_to)))
    ]
  ]

  round-Effect :
      (k : Bytes) (mask : ℕ) (d : Difference)
      → is_empty (diff_round diff prev new k mask d).removed_devices ≡ true
      → Effect k mask (diff_round diff prev new k mask d).devices_added_to
  unfolding diff_round
  round-Effect k mask d = elim (Bool-cases (mask == 1)) [
    | inl q ↦ rw q (λ h. absurd (ground arith))
    | inr q ↦ elim (Bool-cases (mask == 2)) [
      | inl r ↦
          let not_three : (mask == 3) ≡ false = ground arith in
          rw (q, r) (λ h. (refl, inr (has_key-append_last k _), inl not_three))
      | inr r ↦ elim (Bool-cases (mask == 3)) [
        | inl t ↦
            rw (q, r, t) (λ h. (refl, inl refl, inr (changed-Effect k (record d { xak = _ }) h)))
        | inr t ↦ rw (q, r, t) (λ h. (refl, inl refl, inl refl))
      ]
    ]
  ]

  Effect-mono :
      (k : Bytes) (mask : ℕ) (xs ys : List Bytes)
      → Effect k mask xs
      → (has_key k xs ≡ true → has_key k ys ≡ true)
      → Effect k mask ys
  Effect-mono k mask xs ys (one, two, three) g = (one, keep two, all three)
    where
      keep : {P : Type 0} → P ⊎ (has_key k xs ≡ true) → P ⊎ (has_key k ys ≡ true)
      keep (inl p) = inl p
      keep (inr h) = inr (g h)

      all :
          ((mask == 3) ≡ false)
            ⊎ ((is_empty (removed_here k) ≡ true)
                × ((is_empty (added_here k) ≡ true) ⊎ (has_key k xs ≡ true)))
          → ((mask == 3) ≡ false)
            ⊎ ((is_empty (removed_here k) ≡ true)
                × ((is_empty (added_here k) ≡ true) ⊎ (has_key k ys ≡ true)))
      all (inl p) = inl p
      all (inr (p, q)) = inr (p, keep q)

  pub rounds-Effect :
      (c : Map ℕ) (d : Difference) (k : Bytes) (mask : ℕ)
      → lookup k c ≡ some mask
      → is_empty (diff_rounds diff prev new c d).removed_devices ≡ true
      → Effect k mask (diff_rounds diff prev new c d).devices_added_to
  unfolding diff_rounds
  rounds-Effect [] d k mask e h = absurd (ground arith)
  rounds-Effect ((j, n) ∷ c) d k mask e h =
      let f : Difference = diff_round diff prev new j n d in
      let (shrinks, grows) = rounds-Grows c f in
      elim (Bool-cases (list_eq j k)) [
        | inl q ↦
            let same : j ≡ k = list_eq→eq j k q in
            let value : some n ≡ some mask =
              subst (λ b. (if b then some n else lookup k c) ≡ some mask) q e in
            subst (λ l. Effect l mask (diff_rounds diff prev new c f).devices_added_to) same
              (subst (λ l. Effect j l (diff_rounds diff prev new c f).devices_added_to)
                (ap mask_value value)
                (Effect-mono j n f.devices_added_to (diff_rounds diff prev new c f).devices_added_to
                  (round-Effect j n d (shrinks h)) (grows j)))
        | inr q ↦
            rounds-Effect c f k mask
              (subst (λ b. (if b then some n else lookup k c) ≡ some mask) q e) h
      ]

  pub collector_mask :
      (k : Bytes)
      → lookup k (mark 2 new (mark 1 prev []))
        ≡ marked 2 (lookup k new) (marked 1 (lookup k prev) none)
  collector_mask k =
      lookup-mark 2 new (mark 1 prev []) k (marked 1 (lookup k prev) none)
        (lookup-mark 1 prev [] k none refl refl) (idem (lookup k prev))
    where
      idem : (o : Option (List ℕ)) → IsIdempotent 2 (marked 1 o none)
      idem none = refl
      idem (some ids) = refl
