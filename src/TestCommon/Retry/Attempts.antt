-- ===== src/TestCommon/Retry/Attempts.antt =====
-- test-common/src/postgres_container/mod.rs: which attempt decides what `retry` returns, and how long
-- it sleeps before it.
use promscale_extension.Prelude.{
  ℕ, zero, suc, ◌+◌, ◌-◌, ◌^◌, ◌≤◌, ◌<◌, ◌≡◌, refl, ap, ap₂, ◌∙◌, true, false, arith, ◌==◌, ltb,
  Result, ok,
}
use promscale_extension.TestCommon.Retry.{
  Attempt, succeeded, failed, wrapping_sub_u32, wrapping_add_u32, sleep_duration, react,
  retry_inner, retry,
}

pow_lt : (i n : ℕ) → i < n → 2 ^ i < 2 ^ n
pow_lt i zero h = absurd (omega arith)
pow_lt zero (suc zero) h = omega arith
pow_lt zero (suc (suc n)) h = let more = pow_lt zero (suc n) (omega arith) in omega (arith, more)
pow_lt (suc i) (suc n) h = let more = pow_lt i n (omega arith) in omega (arith, more)

sleep_duration-small : (k : ℕ) → k < 64 → sleep_duration (suc k) ≡ 2 ^ k
unfolding sleep_duration
sleep_duration-small k h =
    let exponent : wrapping_sub_u32 (suc k) 1 ≡ k = omega arith in
    let small = pow_lt k 64 h in rw exponent (omega (arith, small))

module _ (T E World : Type 0) (operation : World → Attempt T E × World)
    (sleep : ℕ → World → World) where
  -- The world after so many failed attempts, with a sleep of 1, 2, 4 and so on seconds after each.
  abbrev pub after_failures : ℕ → World → World
  after_failures zero w = w
  after_failures (suc k) w = sleep (2 ^ k) (operation (after_failures k w)).1

  abbrev pub Fails : ℕ → World → Type 0
  Fails k w = (error : E) × ((operation (after_failures k w)).0 ≡ failed error)

  react-failed :
      (cur_count max_count : ℕ) (next_attempt : World → Result (Attempt T E) × World)
      (r : Attempt T E × World) (error : E)
      → r.0 ≡ failed error
      → (cur_count == max_count) ≡ false
      → react T E World operation sleep cur_count max_count next_attempt r
        ≡ next_attempt (sleep (sleep_duration cur_count) r.1)
  react-failed cur_count max_count next_attempt (succeeded t, w) error e more = absurd (cc)
  react-failed cur_count max_count next_attempt (failed f, w) error e more = rw more refl

  -- A round that fails and is not the last.
  retry_inner-failed :
      (fuel k count : ℕ) (w : World)
      → suc k < count
      → count ≤ 64
      → Fails k w
      → retry_inner T E World operation sleep (suc fuel) (suc k) count (after_failures k w)
        ≡ retry_inner T E World operation sleep fuel (suc (suc k)) count (after_failures (suc k) w)
  unfolding retry_inner
  retry_inner-failed fuel k count w h small (error, e) =
      let more : (suc k == count) ≡ false = ground arith in
      let round : wrapping_add_u32 (suc k) 1 ≡ suc (suc k) = omega arith in
      react-failed (suc k) count
        (retry_inner T E World operation sleep fuel (wrapping_add_u32 (suc k) 1) count)
        (operation (after_failures k w)) error e more
      ∙ ap₂
          (λ n d.
            retry_inner T E World operation sleep fuel n count
              (sleep d (operation (after_failures k w)).1))
          round (sleep_duration-small k (omega arith))

  -- After `k` rounds that fail.
  retry_inner-reaches :
      (k fuel count : ℕ) (w : World)
      → k < count
      → count ≤ 64
      → ((i : ℕ) → i < k → Fails i w)
      → retry_inner T E World operation sleep (k + fuel) 1 count w
        ≡ retry_inner T E World operation sleep fuel (suc k) count (after_failures k w)
  retry_inner-reaches zero fuel count w h small fails =
      let none_yet : 0 + fuel ≡ fuel = omega arith in
      ap (λ n. retry_inner T E World operation sleep n 1 count w) none_yet
  retry_inner-reaches (suc k) fuel count w h small fails =
      let moved : suc k + fuel ≡ k + suc fuel = omega arith in
      ap (λ n. retry_inner T E World operation sleep n 1 count w) moved
      ∙ retry_inner-reaches k (suc fuel) count w (omega arith) small
          (λ i less. fails i (omega arith))
      ∙ retry_inner-failed fuel k count w h small (fails k (omega arith))

  retry-reaches :
      (k count : ℕ) (w : World)
      → k < count
      → count ≤ 64
      → ((i : ℕ) → i < k → Fails i w)
      → retry T E World operation sleep count w
        ≡ retry_inner T E World operation sleep
            (suc (count - suc k))
            (suc k)
            count
            (after_failures k w)
  unfolding retry
  retry-reaches k count w h small fails =
      let some_attempt : ltb 0 count ≡ true = ground arith in
      let rounds : count ≡ k + suc (count - suc k) = omega arith in
      rw some_attempt (
        ap (λ n. retry_inner T E World operation sleep n 1 count w) rounds
        ∙ retry_inner-reaches k (suc (count - suc k)) count w h small fails)

  -- Of at most 64 attempts, the first one that succeeds decides: its value is returned, the earlier ones
  -- were each followed by a sleep of 1, 2, 4 and so on seconds, and no attempt is made after it.
  pub retry-succeeded :
      (k count : ℕ) (w w' : World) (t : T)
      → k < count
      → count ≤ 64
      → ((i : ℕ) → i < k → Fails i w)
      → operation (after_failures k w) ≡ (succeeded t, w')
      → retry T E World operation sleep count w ≡ (ok (succeeded t), w')
  unfolding retry_inner
  retry-succeeded k count w w' t h small fails e = retry-reaches k count w h small fails ∙ rw e refl

  -- Where all of the attempts fail, at least one and at most 64, the last error is returned, and there is
  -- no sleep after it.
  pub retry-failed :
      (last : ℕ) (w w' : World) (error : E)
      → suc last ≤ 64
      → ((i : ℕ) → i < last → Fails i w)
      → operation (after_failures last w) ≡ (failed error, w')
      → retry T E World operation sleep (suc last) w ≡ (ok (failed error), w')
  unfolding retry_inner
  retry-failed last w w' error small fails e =
      let done : (suc last == suc last) ≡ true = ground arith in
      retry-reaches last (suc last) w (omega arith) small fails ∙ rw (e, done) refl
