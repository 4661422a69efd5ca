-- ===== src/SenderKey/Masks.antt =====
-- The map of diffRecipients that says on which sides a recipient is.
use mautrix_signal.Common.{
  ℕ, ◌≡◌, inl, inr, refl, sym, ◌∙◌, ap, Bool-cases, Option, none, some, on_some, [], ◌∷◌, bit_or,
  list_eq, list_eq→eq, list_eq_refl, lookup, store_key, lookup-store_key, lookup-store_key_other,
  arith,
}
use mautrix_signal.SenderKey.{Bytes, Map, mark}

abbrev pub mask_value : Option ℕ → ℕ
mask_value o = on_some 0 (λ mask. mask) o

abbrev pub marked : {V : Type 0} → ℕ → Option V → Option ℕ → Option ℕ
marked bit none o = o
marked bit (some v) o = some (bit_or (mask_value o) bit)

abbrev pub IsIdempotent : ℕ → Option ℕ → Type 0
IsIdempotent bit o = bit_or (bit_or (mask_value o) bit) bit ≡ bit_or (mask_value o) bit

pub lookup-mark :
    {V : Type 0} (bit : ℕ) (m : Map V) (c : Map ℕ) (k : Bytes) (o : Option ℕ)
    → lookup k c ≡ o
    → IsIdempotent bit o
    → lookup k (mark bit m c) ≡ marked bit (lookup k m) o
unfolding mark
lookup-mark bit [] c k o e i = e
lookup-mark bit ((j, v) ∷ m) c k o e i =
    let next : Map ℕ = store_key j (bit_or (mask_value (lookup j c)) bit) c in
    elim (Bool-cases (list_eq j k)) [
      | inl q ↦
          let same : j ≡ k = list_eq→eq j k q in
          let stored : lookup k next ≡ some (bit_or (mask_value o) bit) =
            ap (λ l. lookup l next) (sym same)
            ∙ lookup-store_key j _ c
            ∙ ap (λ p. some (bit_or (mask_value p) bit)) (ap (λ l. lookup l c) same ∙ e) in
          let rest : lookup k (mark bit m next)
              ≡ marked bit (lookup k m) (some (bit_or (mask_value o) bit)) =
            lookup-mark bit m next k (some (bit_or (mask_value o) bit)) stored
              (ap (λ n. bit_or n bit) i) in
          rw q (rest ∙ again bit (lookup k m) o i)
      | inr q ↦
          let stored : lookup k next ≡ o =
            lookup-store_key_other k j _ c
              (λ p. absurd (ground (arith, q, ap (λ l. list_eq l k) p, list_eq_refl k)))
            ∙ e in
          rw q (lookup-mark bit m next k o stored i)
    ]
  where
    again :
        {V : Type 0} (bit : ℕ) (v : Option V) (o : Option ℕ)
        → IsIdempotent bit o
        → marked bit v (some (bit_or (mask_value o) bit)) ≡ some (bit_or (mask_value o) bit)
    again bit none o i = refl
    again bit (some v) o i = ap some i
