-- ===== src/SenderKey/Runs.antt =====
-- A recipient who has lost a device, and one who is new.
use mautrix_signal.Common.{
  ℕ, ◌≡◌, refl, sym, ◌∙◌, ◌==◌, ==→eq, ap, Bool-cases, Bool, true, false, not, ◌&&◌, if◌then◌else◌,
  none, List, [], ◌∷◌, inl, inr,
}
use mautrix_signal.SenderKey.{
  Bytes, Map, SendMeta, mark, diff_round, diff_rounds, diff_recipients, plan_distribution,
}
use mautrix_signal.SenderKey.Rounds.{has}
use mautrix_signal.SenderKey.Covered.{IsDiff, IsCovered, plan_distribution-IsCovered}

minus : List ℕ → List ℕ → List ℕ
minus [] b = []
minus (x ∷ xs) b = let rest = minus xs b in if has x b then rest else x ∷ rest

abbrev diff_lists : List ℕ → List ℕ → List ℕ × List ℕ
unfolding minus
diff_lists a b = (minus a b, minus b a)

has-minus : (x : ℕ) (a b : List ℕ) → has x (minus a b) ≡ (has x a && not (has x b))
unfolding minus
has-minus x [] b = refl
has-minus x (y ∷ ys) b = elim (Bool-cases (has y b)) [
  | inl q ↦ elim (Bool-cases (y == x)) [
    | inl r ↦
        let there : has x b ≡ true = ap (λ n. has n b) (sym (==→eq y x r)) ∙ q in
        rw (minus, q, has-minus x ys b, r, there) (none_of (has x ys))
    | inr r ↦ rw (minus, q, r) (has-minus x ys b)
  ]
  | inr q ↦ elim (Bool-cases (y == x)) [
    | inl r ↦
        let missing : has x b ≡ false = ap (λ n. has n b) (sym (==→eq y x r)) ∙ q in
        rw (minus, q, r, missing) refl
    | inr r ↦ rw (minus, q, r) (has-minus x ys b)
  ]
]
  where
    none_of : (a : Bool) → (a && false) ≡ false
    none_of true = refl
    none_of false = refl

diff_lists-IsDiff : IsDiff diff_lists
unfolding diff_lists
diff_lists-IsDiff a b x = (has-minus x a b, has-minus x b a)

abbrev alice : Bytes
alice = 1 ∷ []

abbrev bob : Bytes
bob = 2 ∷ []

abbrev shared_before : Map (List ℕ)
shared_before = (alice, 1 ∷ 2 ∷ []) ∷ []

abbrev recipients : Map SendMeta
recipients =
    (alice, record { device_ids = 1 ∷ 3 ∷ []; access_key = none })
    ∷ (bob, record { device_ids = 1 ∷ []; access_key = none })
    ∷ []

plan_distribution-IsCovered_example :
    IsCovered diff_lists shared_before recipients alice 3
      (plan_distribution diff_lists shared_before recipients)
plan_distribution-IsCovered_example =
    plan_distribution-IsCovered diff_lists shared_before recipients alice 3 diff_lists-IsDiff

-- Alice has lost a device, so that the key is reset and sent to both.
reset_test : plan_distribution diff_lists shared_before recipients ≡ ([], alice ∷ bob ∷ [])
unfolding plan_distribution diff_recipients diff_rounds diff_round mark diff_lists minus
reset_test = refl

-- Nobody has lost a device, so that only Bob gets the key.
added_test :
    plan_distribution diff_lists ((alice, 1 ∷ 3 ∷ []) ∷ []) recipients
    ≡ ((alice, 1 ∷ 3 ∷ []) ∷ [], bob ∷ [])
unfolding plan_distribution diff_recipients diff_rounds diff_round mark diff_lists minus
added_test = refl
