-- ===== src/Kv/Tests.antt =====
-- Runs of the retries, and the theorems at concrete inputs.
use ki_db.Base.{
  ◌-◌, ◌*◌, ◌≤◌, ◌≡◌, ◌≢◌, refl, arith, some, codes, contains, index_of, has_prefix, true, false,
  pos,
}
use ki_db.Kv.Retry.{
  Failure, ErrClass, RetryPolicy, Outcome, classify_error, attempts_of, delay, with_retry,
}
use ki_db.Kv.Attempts.{with_retry_ends, delay_bounded}

abbrev loading_error : Failure
loading_error = record {
  is_net = false;
  is_eof = false;
  is_cancelled = false;
  message = codes "LOADING Redis";
}

loading_class : classify_error (some loading_error) ≡ ErrClass.loading
unfolding classify_error contains index_of has_prefix
loading_class = refl

-- In milliseconds.
abbrev policy : RetryPolicy
policy = record { base = 50; max = 2000; max_attempts = pos 3 }

twelve_attempts :
    with_retry policy (λ n. some loading_error) (λ n. true) (λ a n. 0) 12
    ≡ (12, Outcome.cluster_unavailable loading_error)
unfolding with_retry contains index_of has_prefix
twelve_attempts = refl

with_retry_ends_example :
    ((with_retry policy (λ n. some loading_error) (λ n. true) (λ a n. 0) 12).0
      ≤ attempts_of policy * 4)
    × ((with_retry policy (λ n. some loading_error) (λ n. true) (λ a n. 0) 12).1
        ≢ Outcome.unfinished)
unfolding attempts_of
with_retry_ends_example =
    with_retry_ends policy (λ n. some loading_error) (λ n. true) (λ a n. 0) 12 (omega arith)

delay_bounded_example : 2499 * 4 ≤ policy.max * 5
unfolding delay
delay_bounded_example = delay_bounded policy 9 2499 (λ n. n - 2) (λ n h. omega (arith, h)) refl
