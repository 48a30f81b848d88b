-- ===== src/Sync/Examples.antt =====
-- A driver that interrupts two attempts to wait and then lets the time run out.
use libtbm.Base.{ℕ, some, none, ◌≡◌, refl, arith, if◌then◌else◌, ltb}
use libtbm.Sync.{fence_wait, Driver, minus_one, eintr, etime}
use libtbm.Sync.Wait.{fence_wait_ends, Promised, AnswersAt}

abbrev driver : Driver
driver = record {
  open_ret = 5;
  inc_reply = λ _ _. record { ret = 0; errno = 0 };
  create_reply = λ _ _ _. (record { ret = 0; errno = 0 }, 7);
  merge_reply = λ _ _ _. (record { ret = 0; errno = 0 }, 8);
  wait_reply = λ _ _ i. record { ret = minus_one; errno = if ltb i 2 then eintr else etime };
}

answers : AnswersAt (driver.wait_reply 7 100) 2
answers = record { before = λ i l. ground arith; answers = refl }

fence_wait_ends_example :
    (fence_wait driver 2 7 100 ≡ none)
    × (x : ℕ) × (fence_wait driver 9 7 100 ≡ some x)
    × Promised (driver.wait_reply 7 100 2) x
fence_wait_ends_example = fence_wait_ends driver 7 100 2 9 answers (omega arith)
