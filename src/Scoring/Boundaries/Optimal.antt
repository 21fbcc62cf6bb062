-- ===== src/Scoring/Boundaries/Optimal.antt =====
-- The greedy loop finds a largest matching.
use sddiar.Base.{
  ℕ, suc, ◌+◌, ◌≤◌, ◌<◌, ◌≡◌, subst, List, [], ◌∷◌, ltb, length, arith, All, Bool-cases, inl, inr,
}
use sddiar.Scoring.{sorted_set}
use sddiar.Scoring.SortedSet.{Ascends, All-lt_trans, sorted_set-Ascends}
use sddiar.Scoring.Boundaries.{EventCounts, greedy, score_boundaries}

-- The pairs that may be matched: at most `collar` apart.
abbrev pub Close : ℕ → ℕ → ℕ → Type 0
Close collar r p = (r ≤ p + collar) × (p ≤ r + collar)

-- An order-preserving matching of `n` pairs, each boundary used at most once.
pub data Matching (collar : ℕ) : List ℕ → List ℕ → ℕ → Type 0 where
  done : (refs preds : List ℕ) → Matching collar refs preds 0
  skip_ref :
      {refs preds : List ℕ} {n : ℕ} (r : ℕ)
      → Matching collar refs preds n
      → Matching collar (r ∷ refs) preds n
  skip_pred :
      {refs preds : List ℕ} {n : ℕ} (p : ℕ)
      → Matching collar refs preds n
      → Matching collar refs (p ∷ preds) n
  pair :
      {refs preds : List ℕ} {n : ℕ} (r p : ℕ)
      → Close collar r p
      → Matching collar refs preds n
      → Matching collar (r ∷ refs) (p ∷ preds) (suc n)

greedy_acc :
    (c : ℕ) (refs preds : List ℕ) (tp : ℕ) → greedy c refs preds tp ≡ tp + greedy c refs preds 0
unfolding greedy
greedy_acc c [] preds tp = omega arith
greedy_acc c (r ∷ refs) [] tp = omega arith
greedy_acc c (r ∷ refs) (p ∷ preds) tp = ground (
  arith,
  greedy_acc c (r ∷ refs) preds tp,
  greedy_acc c refs (p ∷ preds) tp,
  greedy_acc c refs preds (tp + 1),
  greedy_acc c refs preds 1,
)

-- The loop's count is that of a matching.
greedy-Matching : (c : ℕ) (refs preds : List ℕ) → Matching c refs preds (greedy c refs preds 0)
unfolding greedy
greedy-Matching c [] preds = done [] preds
greedy-Matching c (r ∷ refs) [] = done (r ∷ refs) []
greedy-Matching c (r ∷ refs) (p ∷ preds) = elim (Bool-cases (ltb (p + c) r)) [
  | inl early ↦ rw early (skip_pred p (greedy-Matching c (r ∷ refs) preds))
  | inr not_early ↦ elim (Bool-cases (ltb (r + c) p)) [
    | inl late ↦ rw (not_early, late) (skip_ref r (greedy-Matching c refs (p ∷ preds)))
    | inr close ↦
        let one_more : suc (greedy c refs preds 0) ≡ greedy c refs preds (0 + 1) =
          omega (arith, greedy_acc c refs preds (0 + 1)) in
        rw (not_early, close)
          (subst (Matching c (r ∷ refs) (p ∷ preds)) one_more
            (pair r p (ground arith) (greedy-Matching c refs preds)))
  ]
]

-- One boundary less costs at most one pair.
drop_ref :
    (c r : ℕ) {refs preds : List ℕ} {n : ℕ}
    → Matching c (r ∷ refs) preds n
    → (m : ℕ) × Matching c refs preds m × (n ≤ m + 1)
drop_ref c r {refs} (done _ preds) = (0, done refs preds, omega arith)
drop_ref c r (skip_ref {n = n} _ m) = (n, m, omega arith)
drop_ref c r (skip_pred p m) = let (k, m', le) = drop_ref c r m in (k, skip_pred p m', le)
drop_ref c r (pair {n = n} _ p close m) = (n, skip_pred p m, omega arith)

drop_pred :
    (c p : ℕ) {refs preds : List ℕ} {n : ℕ}
    → Matching c refs (p ∷ preds) n
    → (m : ℕ) × Matching c refs preds m × (n ≤ m + 1)
drop_pred c p {preds = preds} (done refs _) = (0, done refs preds, omega arith)
drop_pred c p (skip_ref r m) = let (k, m', le) = drop_pred c p m in (k, skip_ref r m', le)
drop_pred c p (skip_pred {n = n} _ m) = (n, m, omega arith)
drop_pred c p (pair {n = n} r _ close m) = (n, skip_ref r m, omega arith)

-- A boundary that is close to none of the other side can be left out.
useless_pred :
    (c p : ℕ) {refs preds : List ℕ} {n : ℕ}
    → Matching c refs (p ∷ preds) n
    → All (λ r. p + c < r) refs
    → Matching c refs preds n
useless_pred c p {preds = preds} (done refs _) far = done refs preds
useless_pred c p (skip_ref r m) far = skip_ref r (useless_pred c p m far.1)
useless_pred c p (skip_pred _ m) far = m
useless_pred c p (pair r _ close m) far = absurd (omega arith)

useless_ref :
    (c r : ℕ) {refs preds : List ℕ} {n : ℕ}
    → All (λ p. r + c < p) preds
    → Matching c (r ∷ refs) preds n
    → Matching c refs preds n
useless_ref c r {refs} far (done _ preds) = done refs preds
useless_ref c r far (skip_ref _ m) = m
useless_ref c r far (skip_pred p m) = skip_pred p (useless_ref c r far.1 m)
useless_ref c r far (pair _ p close m) = absurd (omega arith)

-- Two boundaries together cost at most one pair, since a matching keeps the order.
drop_both :
    (c r p : ℕ) {refs preds : List ℕ} {n : ℕ}
    → Matching c (r ∷ refs) (p ∷ preds) n
    → (m : ℕ) × Matching c refs preds m × (n ≤ m + 1)
drop_both c r p {refs} {preds} (done _ _) = (0, done refs preds, omega arith)
drop_both c r p (skip_ref _ m) = drop_pred c p m
drop_both c r p (skip_pred _ m) = drop_ref c r m
drop_both c r p (pair {n = n} _ _ close m) = (n, m, omega arith)

Matching-nil : (c : ℕ) {preds : List ℕ} {n : ℕ} → Matching c [] preds n → n ≤ 0
Matching-nil c (done _ _) = omega arith
Matching-nil c (skip_pred p m) = Matching-nil c m

Matching-no_preds : (c : ℕ) {refs : List ℕ} {n : ℕ} → Matching c refs [] n → n ≤ 0
Matching-no_preds c (done _ _) = omega arith
Matching-no_preds c (skip_ref r m) = Matching-no_preds c m

greedy-maximal :
    (c : ℕ) (refs preds : List ℕ) {n : ℕ}
    → Ascends refs
    → Ascends preds
    → Matching c refs preds n
    → n ≤ greedy c refs preds 0
unfolding greedy
greedy-maximal c [] preds ar ap m = Matching-nil c m
greedy-maximal c (r ∷ refs) [] ar ap m = Matching-no_preds c m
greedy-maximal c (r ∷ refs) (p ∷ preds) ar ap m = elim (Bool-cases (ltb (p + c) r)) [
  | inl early ↦
      let early_lt : p + c < r = ground arith in
      rw early (
        greedy-maximal c (r ∷ refs) preds ar ap.1
          (useless_pred c p m (early_lt, All-lt_trans (p + c) r refs (omega arith) ar.0)))
  | inr not_early ↦ elim (Bool-cases (ltb (r + c) p)) [
    | inl late ↦
        let late_lt : r + c < p = ground arith in
        rw (not_early, late)
          (greedy-maximal c refs (p ∷ preds) ar.1 ap
            (useless_ref c r (late_lt, All-lt_trans (r + c) p preds (omega arith) ap.0) m))
    | inr close ↦
        let (k, m', le) = drop_both c r p m in
        rw (not_early, close)
          (omega (arith, greedy_acc c refs preds (0 + 1), greedy-maximal c refs preds ar.1 ap.1 m'))
  ]
]

length-Matching :
    (c : ℕ) {refs preds : List ℕ} {n : ℕ}
    → Matching c refs preds n
    → (n ≤ length refs) × (n ≤ length preds)
length-Matching c (done refs preds) = omega arith
length-Matching c (skip_ref r m) = omega (arith, length-Matching c m)
length-Matching c (skip_pred p m) = omega (arith, length-Matching c m)
length-Matching c (pair r p close m) = omega (arith, length-Matching c m)

-- The true positives are the size of an order-preserving one-to-one matching of the two sets of
-- boundaries within the collar; together with the false positives they make up the predicted set,
-- and with the false negatives the reference set.
abbrev pub AreMatched : List ℕ → List ℕ → ℕ → EventCounts → Type 0
AreMatched reference predicted collar s =
    Matching collar (sorted_set reference) (sorted_set predicted) s.true_positives
    × (s.true_positives + s.false_positives ≡ length (sorted_set predicted))
    × (s.true_positives + s.false_negatives ≡ length (sorted_set reference))

score_boundaries-AreMatched :
    (reference predicted : List ℕ) (collar : ℕ)
    → AreMatched reference predicted collar (score_boundaries reference predicted collar)
unfolding score_boundaries
score_boundaries-AreMatched reference predicted collar =
    let m = greedy-Matching collar (sorted_set reference) (sorted_set predicted) in
    (m, omega (arith, length-Matching collar m), omega (arith, length-Matching collar m))

-- The reported true positives are the size of an order-preserving one-to-one matching of the two
-- sets of boundaries within the collar, no such matching has more pairs, and with the false
-- positives they make up the predicted set, with the false negatives the reference set.
pub score_boundaries_maximal :
    (reference predicted : List ℕ) (collar n : ℕ)
    → Matching collar (sorted_set reference) (sorted_set predicted) n
    → AreMatched reference predicted collar (score_boundaries reference predicted collar)
      × (n ≤ (score_boundaries reference predicted collar).true_positives)
unfolding score_boundaries
score_boundaries_maximal reference predicted collar n m = (
  score_boundaries-AreMatched reference predicted collar,
  greedy-maximal collar (sorted_set reference) (sorted_set predicted) (sorted_set-Ascends reference)
      (sorted_set-Ascends predicted) m,
)
