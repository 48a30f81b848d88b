-- ===== src/Bo/Lock.antt =====
-- src/tbm_bufmgr.c: locking, mapping and unmapping a buffer object.
use libtbm.Base.{ℕ, Bool, false, not, ◌==◌, if◌then◌else◌, is_positive}
use libtbm.SurfaceQueue.State.{inc32, dec32}
use libtbm.Bo.State.{
  Manager, Backend, try_once, try_always, try_never, lock_failed, map_failed, unmap_failed,
  bo_lock_call, bo_unlock_call, bo_map_call, bo_unmap_call, ask, set_lock_cnt, set_map_cnt,
  set_last_result, bo_is_valid, is_negative,
}

-- `_bo_lock`
unfoldable pub back_lock : Backend → (bo device opt : ℕ) → Manager → ℕ × Manager
back_lock e b device opt m =
    let ret = e.lock_ret b device opt m in
    if e.has_lock then (ret, ask (bo_lock_call b ret) m) else (1, m)

-- `_bo_unlock`
unfoldable pub back_unlock : Backend → ℕ → Manager → Manager
back_unlock e b m = if e.has_unlock then ask (bo_unlock_call b) m else m

-- The common part of two cases of `_tbm_bo_lock`, with the mutex released meanwhile.
unfoldable pub lock_counted : Backend → (bo device opt : ℕ) → Manager → ℕ × Manager
lock_counted e b device opt m =
    let (ret, m1) = back_lock e b device opt m in
    let m2 = e.during_lock b m1 in
    (ret, if ret == 0 then m2 else set_lock_cnt b (inc32 (m2.bos b).lock_cnt) m2)

-- `_tbm_bo_lock`
unfoldable pub lock : Backend → (bo device opt : ℕ) → Manager → ℕ × Manager
lock e b device opt m = if b == 0 then (0, m) else elim m.lock_type [
  | try_never ↦ (1, m)
  | try_once ↦
      if is_negative (m.bos b).lock_cnt
      then (0, m)
      else if (m.bos b).lock_cnt == 0
      then lock_counted e b device opt m
      else (1, m)
  | try_always ↦ if is_negative (m.bos b).lock_cnt then (0, m) else lock_counted e b device opt m
]

abbrev pub lowered : ℕ → Manager → Manager
lowered b m = set_lock_cnt b (dec32 (m.bos b).lock_cnt) m

-- The two cases of `_tbm_bo_unlock`.
unfoldable pub unlock_last : Backend → ℕ → Manager → Manager
unlock_last e b m =
    if is_positive (m.bos b).lock_cnt
    then (if dec32 (m.bos b).lock_cnt == 0 then back_unlock e b (lowered b m) else lowered b m)
    else m

unfoldable pub unlock_each : Backend → ℕ → Manager → Manager
unlock_each e b m = if is_positive (m.bos b).lock_cnt then back_unlock e b (lowered b m) else m

-- Its end.
unfoldable pub no_negative : ℕ → Manager → Manager
no_negative b m = if is_negative (m.bos b).lock_cnt then set_lock_cnt b 0 m else m

-- `_tbm_bo_unlock`
unfoldable pub unlock : Backend → ℕ → Manager → Manager
unlock e b m = if b == 0 then m else elim m.lock_type [
  | try_never ↦ m
  | try_once ↦ no_negative b (unlock_last e b m)
  | try_always ↦ no_negative b (unlock_each e b m)
]

-- `tbm_bo_map`: the pointer of the handle, NULL after an error.
unfoldable pub map_bo : Backend → (bo device opt : ℕ) → Manager → ℕ × Manager
map_bo e b device opt m =
    if not (bo_is_valid m b)
    then (0, m)
    else (let (ret, m1) = lock e b device opt m in
        if ret == 0
        then (0, set_last_result lock_failed m1)
        else (let p = e.map_ret b device opt m1 in
            let m2 = ask (bo_map_call b) m1 in
            if p == 0
            then (0, unlock e b (set_last_result map_failed m2))
            else (p, set_map_cnt b (inc32 (m2.bos b).map_cnt) m2)))

-- `tbm_bo_unmap`
unfoldable pub unmap_bo : Backend → ℕ → Manager → ℕ × Manager
unmap_bo e b m =
    if not (bo_is_valid m b)
    then (0, m)
    else (let ret = e.unmap_ret b m in
        let m1 = ask (bo_unmap_call b) m in
        if ret == 0
        then (0, set_last_result unmap_failed m1)
        else (ret, unlock e b (set_map_cnt b (dec32 (m1.bos b).map_cnt) m1)))

-- `tbm_bo_locked`
unfoldable pub locked : Manager → ℕ → Bool
locked m b = if not (bo_is_valid m b) then false else elim m.lock_type [
  | try_never ↦ false
  | try_once ↦ is_positive (m.bos b).lock_cnt
  | try_always ↦ is_positive (m.bos b).lock_cnt
]
