-- ===== src/Sync/Wait.antt =====
-- src/tbm_sync.c: waiting for a fence ends when the driver answers.
use libtbm.Base.{
  ℕ, zero, suc, ◌+◌, ◌<◌, ◌≡◌, ◌≢◌, refl, ◌∙◌, ap, true, false, Bool-cases, inl, inr, arith, none,
  some, ◌==◌, if◌then◌else◌,
}
use libtbm.Sync.{Reply, Driver, minus_one, etime, interrupted, retry, fence_wait}

-- The driver interrupts the attempts before `n`, and answers the attempt `n`.
pub record AnswersAt (replies : ℕ → Reply) (n : ℕ) : Type 0 where
  pub before : (i : ℕ) → i < n → interrupted (replies i) ≡ true
  pub answers : interrupted (replies n) ≡ false

retry_lem :
    (k d : ℕ) (replies : ℕ → Reply) (i n : ℕ)
    → AnswersAt replies n
    → i + d ≡ n
    → d < k
    → retry k replies i ≡ some (replies n)
unfolding retry
retry_lem zero d replies i n a e l = absurd (omega (arith, l))
retry_lem (suc k) zero replies i n a e l =
    let s : i ≡ n = omega (arith, e) in
    let b : interrupted (replies i) ≡ false = ap (λ x. interrupted (replies x)) s ∙ a.answers in
    rw (retry, b) (ap (λ x. some (replies x)) s)
retry_lem (suc k) (suc d) replies i n a e l =
    let b = a.before i (omega (arith, e)) in
    rw (retry, b) (retry_lem k d replies (i + 1) n a (omega (arith, e)) (omega (arith, l)))

retry_short :
    (k : ℕ) (replies : ℕ → Reply) (i n : ℕ)
    → AnswersAt replies n
    → i + k < suc n
    → retry k replies i ≡ none
unfolding retry
retry_short zero replies i n a l = refl
retry_short (suc k) replies i n a l =
    let b = a.before i (omega (arith, l)) in
    rw (retry, b) (retry_short k replies (i + 1) n a (omega (arith, l)))

-- What tbm_sync.h promises: 1 on success, -1 on timeout expire, 0 on failure.
pub data Promised (r : Reply) : ℕ → Type 0 where
  success : r.ret ≡ 0 → Promised r 1
  expired : r.ret ≢ 0 → r.errno ≡ etime → Promised r minus_one
  failure : r.ret ≢ 0 → r.errno ≢ etime → Promised r 0

answer-Promised :
    (r : Reply) → Promised r (if r.ret == 0 then 1 else if r.errno == etime then minus_one else 0)
answer-Promised r = elim (Bool-cases (r.ret == 0)) [
  | inl z ↦ rw z (success (ground arith))
  | inr z ↦ elim (Bool-cases (r.errno == etime)) [
    | inl t ↦ rw (z, t) (expired (ground arith) (ground arith))
    | inr t ↦ rw (z, t) (failure (ground arith) (ground arith))
  ]
]

-- Where the driver interrupts the attempts to wait before the attempt n, and answers the attempt n,
-- the loop of tbm_sync_fence_wait has not ended after n attempts, and has ended after any greater
-- number of them, with the result that tbm_sync.h promises for that answer: 1 where it succeeded,
-- -1 where the time expired, and 0 where it failed.
pub fence_wait_ends :
    (e : Driver) (fence timeout n rounds : ℕ)
    → AnswersAt (e.wait_reply fence timeout) n
    → n < rounds
    → (fence_wait e n fence timeout ≡ none)
      × (x : ℕ) × (fence_wait e rounds fence timeout ≡ some x)
      × Promised (e.wait_reply fence timeout n) x
unfolding fence_wait
fence_wait_ends e fence timeout n rounds a l =
    let replies = e.wait_reply fence timeout in
    let r = replies n in
    let short = retry_short n replies 0 n a (omega arith) in
    let long = retry_lem rounds n replies 0 n a (omega arith) l in
    rw (fence_wait, short, long) (refl, _, refl, answer-Promised r)
