-- ===== src/Execution/Retry/Budget.antt =====
-- How often `retry_with_budget` calls its operation, and which result it hands on.
use qveris_capability_benchm.Prelude.{
  ℕ, zero, suc, ltb, ◌≤◌, ◌≡◌, refl, ap, true, false, Option, none, some, arith, Bool-cases, inl,
  inr, ◌⊎◌, sym, subst, Result, Result-cases, ok, err,
}
use qveris_capability_benchm.Execution.Retry.{Failure, is_retryable, attempt, retry_with_budget}

module _ {ℓ κ} {A : Type ℓ} {W : Type κ} (operation : W → Result Failure A × W) where
  -- `n` calls in a row: each but the last failed in a way that is retried, and the last one's
  -- result is the answer.
  pub data Calls : ℕ → W → Result Failure A → W → Type (ℓ ⊔ κ) where
    last : (w : W) → Calls 1 w (operation w).0 (operation w).1
    again :
        {n : ℕ} (w : W) (f : Failure) {r : Result Failure A} {w' : W}
        → (operation w).0 ≡ err f
        → is_retryable f ≡ true
        → Calls n (operation w).1 r w'
        → Calls (suc n) w r w'

  -- An answer on which the loop does not go on.
  abbrev pub IsSettled : Result Failure A → Type 0
  IsSettled (ok a) = Unit
  IsSettled (err f) = is_retryable f ≡ false

  -- The answer of `budget` attempts at most.
  pub record Answer (budget : ℕ) (w : W) (p : Result Failure A × W) : Type (ℓ ⊔ κ) where
    pub calls : ℕ
    pub made_one : 1 ≤ calls
    pub in_budget : calls ≤ budget
    pub made : Calls calls w p.0 p.1
    pub stopped : IsSettled p.0 ⊎ (calls ≡ budget)

  one_call :
      (budget : ℕ) (w : W)
      → 1 ≤ budget
      → IsSettled (operation w).0 ⊎ (1 ≡ budget)
      → Answer budget w (operation w)
  one_call budget w h s = record {
    calls = 1;
    made_one = omega arith;
    in_budget = h;
    made = last w;
    stopped = s;
  }

  attempt_ok :
      (n : ℕ) (o : Option Failure) (w : W) {a : A}
      → (operation w).0 ≡ ok a
      → attempt operation (suc n) o w ≡ operation w
  unfolding attempt
  attempt_ok n o w h = ground arith

  attempt_err :
      (n : ℕ) (o : Option Failure) (w : W) {f : Failure}
      → (operation w).0 ≡ err f
      → is_retryable f ≡ false
      → attempt operation (suc n) o w ≡ operation w
  unfolding attempt
  attempt_err n o w h k = ground arith

  attempt_again :
      (n : ℕ) (o : Option Failure) (w : W) {f : Failure}
      → (operation w).0 ≡ err f
      → is_retryable f ≡ true
      → attempt operation (suc n) o w ≡ attempt operation n (some f) (operation w).1
  unfolding attempt
  attempt_again n o w h k = ground arith

  attempt-zero :
      (w : W) {f : Failure}
      → (operation w).0 ≡ err f
      → attempt operation zero (some f) (operation w).1 ≡ operation w
  unfolding attempt
  attempt-zero w h = ground arith

  more_calls :
      (n : ℕ) (w : W) (f : Failure) {p : Result Failure A × W}
      → (operation w).0 ≡ err f
      → is_retryable f ≡ true
      → Answer n (operation w).1 p
      → Answer (suc n) w p
  more_calls n w f h k a = record {
    calls = suc a.calls;
    made_one = omega arith;
    in_budget = omega (arith, a.in_budget);
    made = again w f h k a.made;
    stopped = elim a.stopped [ inl s ↦ inl s | inr e ↦ inr (ap suc e) ];
  }

  attempt-Answer :
      (n : ℕ) (o : Option Failure) (w : W) → Answer (suc n) w (attempt operation (suc n) o w)
  attempt-Answer zero o w = elim (Result-cases (operation w).0) [
    | inl (a, e) ↦ rw (attempt_ok zero o w e) (one_call 1 w (omega arith) (inr refl))
    | inr (f, e) ↦ elim (Bool-cases (is_retryable f)) [
      | inl k ↦
          rw (attempt_again zero o w e k, attempt-zero w e) (one_call 1 w (omega arith) (inr refl))
      | inr k ↦ rw (attempt_err zero o w e k) (one_call 1 w (omega arith) (inr refl))
    ]
  ]
  attempt-Answer (suc n) o w = elim (Result-cases (operation w).0) [
    | inl (a, e) ↦
        rw (attempt_ok (suc n) o w e)
          (one_call (suc (suc n)) w (omega arith) (inl (subst IsSettled (sym e) tt)))
    | inr (f, e) ↦ elim (Bool-cases (is_retryable f)) [
      | inl k ↦
          rw (attempt_again (suc n) o w e k)
            (more_calls (suc n) w f e k (attempt-Answer n (some f) (operation w).1))
      | inr k ↦
          rw (attempt_err (suc n) o w e k)
            (one_call (suc (suc n)) w (omega arith) (inl (subst IsSettled (sym e) k)))
    ]
  ]

  -- With a budget of at least one, the operation is called at least once and at most `budget`
  -- times, again only after a failure that is retried, and the last call's result is the answer:
  -- a failure that is retried is the answer only when the whole budget was used.
  pub retry_with_budget-Answer :
      (budget : ℕ) (w : W) → 1 ≤ budget → Answer budget w (retry_with_budget operation budget w)
  unfolding retry_with_budget
  retry_with_budget-Answer zero w h = absurd (omega arith)
  retry_with_budget-Answer (suc n) w h =
      let e : ltb (suc n) 1 ≡ false = ground arith in rw e (attempt-Answer n none w)
