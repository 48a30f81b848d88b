-- ===== src/Bo/Balance.antt =====
-- The books of the locks: those that the back end has granted and those it has been given back.
use libtbm.Base.{
  length, false, Bool-cases, ℕ_discrete, inl, inr, ◌⊎◌, ◌≢◌, ◌≤◌, ℕ, suc, ◌+◌, ◌<◌, ◌^◌, ◌≡◌, refl,
  true, not, ◌&&◌, List, [], ◌∷◌, ◌==◌, if◌then◌else◌, arith,
}
use libtbm.Bo.State.{
  bo_is_valid, try_never, try_always, is_negative, try_once, LockType, Manager, Backend,
  BackendCall, bo_lock_call, bo_unlock_call,
}
use libtbm.Bo.Lock.{
  unlock_each, no_negative, unlock_last, back_lock, back_unlock, lock_counted, lock, unlock, map_bo,
  unmap_bo,
}

-- Locks of this buffer object that the back end has granted.
abbrev pub locks : ℕ → List BackendCall → ℕ
locks b [] = 0
locks b (bo_lock_call t ret ∷ c) = (if t == b && not (ret == 0) then 1 else 0) + locks b c
locks b (x ∷ c) = locks b c

-- Unlocks of it that the back end was asked for.
abbrev pub unlocks : ℕ → List BackendCall → ℕ
unlocks b [] = 0
unlocks b (bo_unlock_call t ∷ c) = (if t == b then 1 else 0) + unlocks b c
unlocks b (x ∷ c) = unlocks b c

-- One more than the highest `lock_cnt` of a lock type.
abbrev pub cap : LockType → ℕ
cap try_once = 2
cap try_always = 2 ^ 31
cap try_never = 2 ^ 31

-- Each lock granted and not given back is counted in `lock_cnt`, which has room for `k` more.
pub record Books (k : ℕ) (m : Manager) (b : ℕ) : Type 0 where
  pub even : unlocks b m.calls + (m.bos b).lock_cnt ≡ locks b m.calls
  pub room : (m.bos b).lock_cnt + k < 2 ^ 31
  pub capped : (m.bos b).lock_cnt < cap m.lock_type

-- The back end has both functions, and nobody else acts while a lock is waited for.
pub record Alone (e : Backend) : Type 0 where
  pub lock : e.has_lock ≡ true
  pub unlock : e.has_unlock ≡ true
  pub quiet : (b : ℕ) (m : Manager) → e.during_lock b m ≡ m

LockType-cases : (t : LockType) → (t ≡ try_once) ⊎ ((t ≡ try_always) ⊎ (t ≡ try_never))
LockType-cases try_once = inl refl
LockType-cases try_always = inr (inl refl)
LockType-cases try_never = inr (inr refl)

Books-less : {k : ℕ} {m : Manager} {b : ℕ} → Books (suc k) m b → Books k m b
Books-less {k} {m} {b} i = record { even = i.even; room = omega (arith, i.room); capped = i.capped }

-- The books are about the counts alone.
Books-same :
    {k : ℕ} {m : Manager} {b : ℕ} (m' : Manager)
    → Books k m b
    → (m'.bos b).lock_cnt ≡ (m.bos b).lock_cnt
    → m'.lock_type ≡ m.lock_type
    → locks b m'.calls ≡ locks b m.calls
    → unlocks b m'.calls ≡ unlocks b m.calls
    → Books k m' b
Books-same {b} m' i n t l u = record {
  even = omega (arith, i.even, n, l, u);
  room = omega (arith, i.room, n);
  capped = ground (arith, i.capped, n, t);
}

module _ {e : Backend} (a : Alone e) where
  lock_counted-even :
      (b device opt c k : ℕ) (m : Manager)
      → Books (suc k) m b
      → Books (suc k) m c
      → let r = (lock_counted e b device opt m).1 in
        (unlocks c r.calls + (r.bos c).lock_cnt ≡ locks c r.calls)
        × ((r.bos c).lock_cnt + k < 2 ^ 31)
        × ((r.bos b).lock_cnt ≤ suc (m.bos b).lock_cnt)
        × (b ≢ c → (r.bos c).lock_cnt ≡ (m.bos c).lock_cnt)
        × (r.lock_type ≡ m.lock_type)
  unfolding lock_counted back_lock
  lock_counted-even b device opt c k m i j =
      let l = a.lock in
      let f1 = i.room in
      let f2 = j.room in
      let f3 = j.even in
      rw (l, a.quiet) (ground arith, ground arith, ground arith, ground arith, ground arith)

  lock-Books :
      (b device opt c k : ℕ) (m : Manager)
      → Books (suc k) m b
      → Books (suc k) m c
      → Books k (lock e b device opt m).1 c
  unfolding lock
  lock-Books b device opt c k m i j =
      let f1 = j.room in
      let f2 = j.even in
      let f3 = j.capped in
      let r = lock_counted-even b device opt c k m i j in
      record { even = ground arith; room = ground arith; capped = ground (arith, ℕ_discrete b c) }

  unlock_last-Books :
      (b c k : ℕ) (m : Manager)
      → m.lock_type ≡ try_once
      → Books k m b
      → Books k m c
      → Books k (unlock_last e b m) c
  unfolding unlock_last back_unlock
  unlock_last-Books b c k m o i j =
      let l = a.unlock in
      let f0 = i.capped in
      let f1 = i.room in
      let f2 = j.room in
      let f3 = j.even in
      let f4 = j.capped in
      record { even = ground arith; room = ground arith; capped = ground arith }

  unlock_each-Books :
      (b c k : ℕ) (m : Manager) → Books k m b → Books k m c → Books k (unlock_each e b m) c
  unfolding unlock_each back_unlock
  unlock_each-Books b c k m i j =
      let l = a.unlock in
      let f1 = i.room in
      let f2 = j.room in
      let f3 = j.even in
      let f4 = j.capped in
      record { even = ground arith; room = ground arith; capped = ground arith }

  no_negative-Books :
      (b c k : ℕ) (m : Manager) → Books k m b → Books k m c → Books k (no_negative b m) c
  unfolding no_negative
  no_negative-Books b c k m i j =
      let f1 = i.room in let f2 : is_negative (m.bos b).lock_cnt ≡ false = ground arith in rw f2 j

  unlock-Books : (b c k : ℕ) (m : Manager) → Books k m b → Books k m c → Books k (unlock e b m) c
  unfolding unlock
  unlock-Books b c k m i j = elim (Bool-cases (b == 0)) [
    | inl z ↦ rw z j
    | inr z ↦ elim (LockType-cases m.lock_type) [
      | inl o ↦
          rw (z, o)
            (no_negative-Books b c k (unlock_last e b m) (unlock_last-Books b b k m o i i)
              (unlock_last-Books b c k m o i j))
      | inr (inl o) ↦
          rw (z, o)
            (no_negative-Books b c k (unlock_each e b m) (unlock_each-Books b b k m i i)
              (unlock_each-Books b c k m i j))
      | inr (inr o) ↦ rw (z, o) j
    ]
  ]

  -- Everything that mapping does keeps the books.
  map_bo-Books :
      (b device opt c k : ℕ) (m : Manager)
      → Books (suc k) m b
      → Books (suc k) m c
      → Books k (map_bo e b device opt m).1 c
  unfolding map_bo
  map_bo-Books b device opt c k m i j =
      let m1 = (lock e b device opt m).1 in
      let lb = lock-Books b device opt b k m i i in
      let lc = lock-Books b device opt c k m i j in
      elim (Bool-cases (bo_is_valid m b)) [
        | inr z ↦ rw z (Books-less j)
        | inl z ↦ elim (Bool-cases ((lock e b device opt m).0 == 0)) [
          | inl r ↦ rw (z, r) (Books-same _ lc refl refl refl refl)
          | inr r ↦ elim (Bool-cases (e.map_ret b device opt m1 == 0)) [
            | inl s ↦
                rw (z, r, s)
                  (unlock-Books b c k _ (Books-same _ lb refl refl refl refl)
                    (Books-same _ lc refl refl refl refl))
            | inr s ↦ rw (z, r, s) (Books-same _ lc (ground arith) refl refl refl)
          ]
        ]
      ]

  unmap_bo-Books :
      (b c k : ℕ) (m : Manager) → Books k m b → Books k m c → Books k (unmap_bo e b m).1 c
  unfolding unmap_bo
  unmap_bo-Books b c k m i j = elim (Bool-cases (bo_is_valid m b)) [
    | inr z ↦ rw z j
    | inl z ↦ elim (Bool-cases (e.unmap_ret b m == 0)) [
      | inl r ↦ rw (z, r) (Books-same _ j refl refl refl refl)
      | inr r ↦
          rw (z, r)
            (unlock-Books b c k _ (Books-same _ i (ground arith) refl refl refl)
              (Books-same _ j (ground arith) refl refl refl))
    ]
  ]

-- What clients do with mappings, in any order and on any buffer object.
pub data MapStep : Type 0 where
  map_step : (bo device opt : ℕ) → MapStep
  unmap_step : ℕ → MapStep

abbrev pub run_steps : Backend → List MapStep → Manager → Manager
run_steps e [] m = m
run_steps e (map_step b device opt ∷ l) m = run_steps e l (map_bo e b device opt m).1
run_steps e (unmap_step b ∷ l) m = run_steps e l (unmap_bo e b m).1

-- Let the back end have both lock functions, let nobody else act while a lock is waited for, and
-- let the books of every buffer object be even: its lock_cnt and the back-end unlocks asked for add
-- up to the back-end locks granted, lock_cnt is below 2 where the manager locks once, and has room
-- for as many more as there are steps. Then after any sequence of tbm_bo_map and tbm_bo_unmap,
-- failing ones included, the books of every buffer object are even.
pub run_steps_balanced :
    {e : Backend} (l : List MapStep) (m : Manager)
    → Alone e
    → ((b : ℕ) → Books (length l) m b)
    → (b : ℕ) → Books 0 (run_steps e l m) b
run_steps_balanced [] m a i = i
run_steps_balanced {e} (map_step b device opt ∷ l) m a i =
    run_steps_balanced l (map_bo e b device opt m).1 a
      (λ c. map_bo-Books a b device opt c (length l) m (i b) (i c))
run_steps_balanced {e} (unmap_step b ∷ l) m a i =
    run_steps_balanced l (unmap_bo e b m).1 a
      (λ c. unmap_bo-Books a b c (length l) m (Books-less (i b)) (Books-less (i c)))
