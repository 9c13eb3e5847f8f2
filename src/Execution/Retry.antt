-- ===== src/Execution/Retry.antt =====
-- src/qveris_bench/execution/retry.py and errors.py: exceptions of an executor, and the retries.
pub mod Budget
use Prim.Native.String.{◌++◌}
use qveris_capability_benchm.Prelude.{
  ℕ, zero, suc, String, Bool, true, false, Option, none, some, List, [], ◌∷◌, contains, string_eq,
  ltb, if◌then◌else◌, Result, ok, err,
}

-- What may be raised: a `TransportError` with its code and message, another `Exception` with its
-- text, or a `BaseException` such as a cancellation, which `except Exception` lets pass.
pub data Failure : Type 0 where
  transport : String → String → Failure
  exception : String → Failure
  base : String → Failure

-- `str(exc)`
abbrev pub text : Failure → String
text (transport code message) = code ++ ": " ++ message
text (exception message) = message
text (base message) = message

-- `_RETRYABLE_CODES`
retryable_codes : List String
retryable_codes = "timeout" ∷ "network_error" ∷ "rate_limited" ∷ []

-- `except TransportError as exc` with a code that is retried
unfoldable pub is_retryable : Failure → Bool
unfolding retryable_codes
is_retryable (transport code message) = contains retryable_codes code
is_retryable (exception message) = false
is_retryable (base message) = false

-- What follows the loop: `assert last_error is not None`, then `raise last_error`.
abbrev last_failure : Option Failure → Failure
last_failure none = exception ""
last_failure (some f) = f

module _ {ℓ κ} {A : Type ℓ} {W : Type κ} (operation : W → Result Failure A × W) where
  -- The loop with the attempts that are left.
  unfoldable pub attempt : ℕ → Option Failure → W → Result Failure A × W
  attempt zero last w = (err (last_failure last), w)
  attempt (suc n) last w =
      let (r, w') = operation w in
      elim r [
        | ok a ↦ (ok a, w')
        | err f ↦ (let rest = attempt n (some f) w' in if is_retryable f then rest else (err f, w'))
      ]

  unfoldable pub retry_with_budget : ℕ → W → Result Failure A × W
  unfolding attempt
  retry_with_budget attempts w =
      if ltb attempts 1
      then (err (exception "retry attempts must be at least one"), w)
      else attempt attempts none w
