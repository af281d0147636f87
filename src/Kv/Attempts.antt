-- ===== src/Kv/Attempts.antt =====
-- The loop of retries ends, within its bounds.
use ki_db.Base.{
  ℕ, zero, suc, ◌+◌, ◌-◌, ◌*◌, ◌/◌, ◌%◌, ◌^◌, ◌<◌, ◌≤◌, ◌≡◌, ◌≢◌, inl, inr, arith, Option, some,
  Bool, Bool-cases, Option-cases, leb, ltb,
}
use ki_db.Kv.Retry.{
  Failure, ErrClass, RetryPolicy, Outcome, classify_error, attempts_of, attempts_for, is_final,
  exhausted, backoff, delay, jittered, retry_from, with_retry,
}

attempts_few : (n : ℕ) (c : ErrClass) → attempts_for n c ≤ n * 4
unfolding attempts_for
attempts_few n ErrClass.loading = omega arith
attempts_few n ErrClass.cluster_down = omega arith
attempts_few n ErrClass.fatal = omega arith
attempts_few n ErrClass.redirect = omega arith
attempts_few n ErrClass.read_only = omega arith
attempts_few n ErrClass.try_again = omega arith
attempts_few n ErrClass.transient = omega arith
attempts_few n ErrClass.unknown = omega arith

exhausted_ends : (c : ErrClass) (e : Failure) → exhausted c e ≢ Outcome.unfinished
unfolding exhausted
exhausted_ends ErrClass.loading e h = absurd (ground (arith, h))
exhausted_ends ErrClass.cluster_down e h = absurd (ground (arith, h))
exhausted_ends ErrClass.fatal e h = absurd (ground (arith, h))
exhausted_ends ErrClass.redirect e h = absurd (ground (arith, h))
exhausted_ends ErrClass.read_only e h = absurd (ground (arith, h))
exhausted_ends ErrClass.try_again e h = absurd (ground (arith, h))
exhausted_ends ErrClass.transient e h = absurd (ground (arith, h))
exhausted_ends ErrClass.unknown e h = absurd (ground (arith, h))

attempts_positive : (pol : RetryPolicy) → 0 < attempts_of pol
unfolding attempts_of
attempts_positive pol = ground arith

backoff_small : (pol : RetryPolicy) (attempt b : ℕ) → backoff pol attempt ≡ some b → b ≤ pol.max
unfolding backoff
backoff_small pol attempt b h =
    let shifted = pol.base * 2 ^ attempt % 2 ^ 64 in
    elim (Bool-cases (leb (2 ^ 63) shifted)) [
      | inl e ↦ absurd (ground (arith, (rw e at h)))
      | inr e ↦ elim (Bool-cases (ltb pol.max shifted)) [
        | inl e' ↦ ground (arith, (rw e' at (rw e at h)))
        | inr e' ↦ ground (arith, e', (rw e' at (rw e at h)))
      ]
    ]

jittered_bounded : (b more : ℕ) → more < b / 2 + 1 → jittered b more * 4 ≤ b * 5
unfolding jittered
jittered_bounded b more h =
    let tripled = b * 3 % 2 ^ 64 in
    elim (Bool-cases (ltb tripled (2 ^ 63))) [
      | inl e ↦ rw e (omega (arith, h))
      | inr e ↦ rw e (omega (arith, h))
    ]

-- Where `rand.Int63n(n)` is below `n`, every sleep between two attempts is at most a quarter
-- longer than the policy's longest back-off.
pub delay_bounded :
    (pol : RetryPolicy) (attempt d : ℕ) (random : ℕ → ℕ)
    → ((n : ℕ) → 0 < n → random n < n)
    → delay pol attempt random ≡ some d
    → d * 4 ≤ pol.max * 5
unfolding delay
delay_bounded pol attempt d random r h = elim (Option-cases (backoff pol attempt)) [
  | inl e ↦ absurd (ground (arith, (rw (e, delay) at h)))
  | inr (b, e) ↦
      let jitter = r (b / 2 + 1) (omega arith) in
      let small = backoff_small pol attempt b e in
      let short = jittered_bounded b (random (b / 2 + 1)) jitter in
      let same : jittered b (random (b / 2 + 1)) ≡ d = ground (arith, (rw (e, delay) at h)) in
      omega (arith, small, short, same)
]

module _ (pol : RetryPolicy) (fn : ℕ → Option Failure) (sleeps : ℕ → Bool)
    (random : ℕ → ℕ → ℕ) where
  retry_from_ends :
      (fuel attempt : ℕ)
      → attempt < attempts_of pol * 4
      → attempts_of pol * 4 ≤ fuel + attempt
      → ((retry_from pol fn sleeps random fuel attempt).0 + attempt ≤ attempts_of pol * 4)
        × ((retry_from pol fn sleeps random fuel attempt).1 ≢ Outcome.unfinished)
  unfolding retry_from
  retry_from_ends zero attempt low enough = absurd (omega (arith, low, enough))
  retry_from_ends (suc fuel) attempt low enough = elim (Option-cases (fn attempt)) [
    | inl e ↦ rw (e, retry_from) (omega (arith, low), (λ h. ground (arith, h)))
    | inr (f, e) ↦ elim (Bool-cases (is_final (classify_error (some f)))) [
      | inl final ↦
          rw (e, retry_from) (rw (final, retry_from) (omega (arith, low), (λ h. ground (arith, h))))
      | inr more ↦
          elim (Bool-cases
            (leb (attempts_for (attempts_of pol) (classify_error (some f)) - 1) attempt)) [
              | inl last ↦
                  rw (e, retry_from)
                    (rw (more, retry_from)
                      (rw (last, retry_from)
                        (omega (arith, low), exhausted_ends (classify_error (some f)) f)))
              | inr early ↦
                  let few = attempts_few (attempts_of pol) (classify_error (some f)) in
                  let below : attempt + 1 < attempts_of pol * 4 = ground (arith, few, early) in
                  let (calls, ends) =
                    retry_from_ends fuel (attempt + 1) below (omega (arith, enough)) in
                  elim (Option-cases (delay pol attempt (random attempt))) [
                    | inl wrapped ↦
                        rw (e, retry_from)
                          (rw (more, retry_from)
                            (rw (early, retry_from)
                              (rw (wrapped, retry_from)
                                (omega (arith, low), (λ h. ground (arith, h))))))
                    | inr (d, waits) ↦ elim (Bool-cases (sleeps attempt)) [
                      | inl slept ↦
                          rw (e, retry_from)
                            (rw (more, retry_from)
                              (rw (early, retry_from)
                                (rw (waits, retry_from)
                                  (rw (slept, retry_from) (omega (arith, calls), ends)))))
                      | inr woken ↦
                          rw (e, retry_from)
                            (rw (more, retry_from)
                              (rw (early, retry_from)
                                (rw (waits, retry_from)
                                  (rw (woken, retry_from)
                                    (omega (arith, low), (λ h. ground (arith, h)))))))
                    ]
                  ]
            ]
    ]
  ]

  -- With fuel for four times the policy's attempts, or three where it names none, `WithRetry`
  -- ends, and calls its function at most that often, whatever the errors are.
  pub with_retry_ends :
      (fuel : ℕ)
      → attempts_of pol * 4 ≤ fuel
      → ((with_retry pol fn sleeps random fuel).0 ≤ attempts_of pol * 4)
        × ((with_retry pol fn sleeps random fuel).1 ≢ Outcome.unfinished)
  unfolding with_retry
  with_retry_ends fuel enough =
      let (calls, ends) =
        retry_from_ends fuel 0 (omega (arith, attempts_positive pol)) (omega (arith, enough)) in
      (omega (arith, calls), ends)
