-- ===== src/Kv/Retry.antt =====
-- kv/retry.go: the class of an error and the loop of retries. The attempts, the readings of the
-- random source and the sleeps that the context lets pass are functions of the attempt's number.
use ki_db.Base.{
  ℕ, zero, suc, ◌+◌, ◌-◌, ◌*◌, ◌/◌, ◌%◌, ◌^◌, Option, none, some, Bytes, codes, Bool, true, false,
  ◌||◌, ℤ, pos, negsuc, contains, ltb, leb, if◌then◌else◌,
}

-- What `ClassifyError` asks of an error: whether it is a net.Error, an io.EOF or
-- io.ErrUnexpectedEOF, a context.Canceled, and its message.
pub record Failure : Type 0 where
  pub is_net : Bool
  pub is_eof : Bool
  pub is_cancelled : Bool
  pub message : Bytes

pub data ErrClass : Type 0 where
  fatal redirect cluster_down loading read_only try_again transient unknown : ErrClass

-- The switch over the message.
unfoldable pub classify_message : Bytes → ErrClass
classify_message msg =
    if contains msg (codes "CROSSSLOT") || contains msg (codes "WRONGTYPE")
    then ErrClass.fatal
    else if contains msg (codes "MOVED") || contains msg (codes "ASK")
    then ErrClass.redirect
    else if contains msg (codes "CLUSTERDOWN")
    then ErrClass.cluster_down
    else if contains msg (codes "LOADING")
    then ErrClass.loading
    else if contains msg (codes "READONLY")
    then ErrClass.read_only
    else if contains msg (codes "TRYAGAIN")
    then ErrClass.try_again
    else if contains msg (codes "timeout")
        || (contains msg (codes "EOF")
            || (contains msg (codes "broken pipe")
                || (contains msg (codes "connection refused")
                    || contains msg (codes "i/o timeout"))))
    then ErrClass.transient
    else ErrClass.unknown

-- `ClassifyError`; `none` is nil.
unfoldable pub classify_error : Option Failure → ErrClass
unfolding classify_message
classify_error none = ErrClass.unknown
classify_error (some e) =
    if e.is_net
    then ErrClass.transient
    else if e.is_eof
    then ErrClass.transient
    else if e.is_cancelled
    then ErrClass.unknown
    else classify_message e.message

-- Durations from zero on.
pub record RetryPolicy : Type 0 where
  pub base : ℕ
  pub max : ℕ
  pub max_attempts : ℤ

-- The attempts of a policy: three where it names none.
unfoldable pub attempts_of : RetryPolicy → ℕ
attempts_of pol = elim pol.max_attempts [ pos n ↦ if ltb 0 n then n else 3 | negsuc n ↦ 3 ]

-- The attempts of a class.
unfoldable pub attempts_for : ℕ → ErrClass → ℕ
attempts_for n ErrClass.loading = n * 4
attempts_for n ErrClass.cluster_down = n * 4
attempts_for n ErrClass.fatal = n
attempts_for n ErrClass.redirect = n
attempts_for n ErrClass.read_only = n
attempts_for n ErrClass.try_again = n
attempts_for n ErrClass.transient = n
attempts_for n ErrClass.unknown = n

-- `case ClassFatal, ClassUnknown: return err`
unfoldable pub is_final : ErrClass → Bool
is_final ErrClass.fatal = true
is_final ErrClass.unknown = true
is_final ErrClass.redirect = false
is_final ErrClass.cluster_down = false
is_final ErrClass.loading = false
is_final ErrClass.read_only = false
is_final ErrClass.try_again = false
is_final ErrClass.transient = false

pub data Outcome : Type 0 where
  succeeded : Outcome
  -- The error itself, or wrapped in one of the two sentinels.
  gave_up : Failure → Outcome
  redirect_exhausted : Failure → Outcome
  cluster_unavailable : Failure → Outcome
  cancelled : Outcome
  -- rand.Int63n panics on a number that is not positive.
  panicked : Outcome
  -- Fuel ran out.
  unfinished : Outcome

unfoldable pub exhausted : ErrClass → Failure → Outcome
exhausted ErrClass.redirect e = Outcome.redirect_exhausted e
exhausted ErrClass.cluster_down e = Outcome.cluster_unavailable e
exhausted ErrClass.loading e = Outcome.cluster_unavailable e
exhausted ErrClass.fatal e = Outcome.gave_up e
exhausted ErrClass.read_only e = Outcome.gave_up e
exhausted ErrClass.try_again e = Outcome.gave_up e
exhausted ErrClass.transient e = Outcome.gave_up e
exhausted ErrClass.unknown e = Outcome.gave_up e

-- The back-off in front of the jitter, by a 64-bit shift; `none` is a negative value.
unfoldable pub backoff : RetryPolicy → ℕ → Option ℕ
backoff pol attempt =
    let shifted = pol.base * 2 ^ attempt % 2 ^ 64 in
    if leb (2 ^ 63) shifted then none else some (if ltb pol.max shifted then pol.max else shifted)

-- Three quarters of a duration and some more, where the product wraps as an int64; a sum below 0,
-- which sleeps no time, is 0.
unfoldable pub jittered : ℕ → ℕ → ℕ
jittered b more =
    let tripled = b * 3 % 2 ^ 64 in
    if ltb tripled (2 ^ 63) then tripled / 4 + more else more - (2 ^ 64 - tripled) / 4

-- The time slept; `random n` stands for `rand.Int63n(n)`.
unfoldable pub delay : RetryPolicy → ℕ → (ℕ → ℕ) → Option ℕ
unfolding backoff jittered
delay pol attempt random = elim (backoff pol attempt) [
  | none ↦ none
  | some b ↦ some (jittered b (random (b / 2 + 1)))
]

-- The loop of `WithRetry` from an attempt on: the number of calls of `fn`, and the outcome. A
-- negative back-off panics.
unfoldable pub retry_from :
    RetryPolicy → (ℕ → Option Failure) → (ℕ → Bool) → (ℕ → ℕ → ℕ) → ℕ → ℕ → ℕ × Outcome
unfolding classify_error attempts_for attempts_of is_final exhausted delay
retry_from pol fn sleeps random zero attempt = (0, Outcome.unfinished)
retry_from pol fn sleeps random (suc fuel) attempt =
    let (calls, outcome) = retry_from pol fn sleeps random fuel (attempt + 1) in
    elim (fn attempt) [
      | none ↦ (1, Outcome.succeeded)
      | some e ↦
          let class = classify_error (some e) in
          if is_final class
          then (1, Outcome.gave_up e)
          else if leb (attempts_for (attempts_of pol) class - 1) attempt
          then (1, exhausted class e)
          else elim (delay pol attempt (random attempt)) [
            | none ↦ (1, Outcome.panicked)
            | some d ↦ if sleeps attempt then (calls + 1, outcome) else (1, Outcome.cancelled)
          ]
    ]

-- `WithRetry`
unfoldable pub with_retry :
    RetryPolicy → (ℕ → Option Failure) → (ℕ → Bool) → (ℕ → ℕ → ℕ) → ℕ → ℕ × Outcome
unfolding retry_from
with_retry pol fn sleeps random fuel = retry_from pol fn sleeps random fuel 0
