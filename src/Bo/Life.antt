-- ===== src/Bo/Life.antt =====
-- src/tbm_bufmgr.c: the references of a buffer object.
use libtbm.Base.{ℕ, zero, suc, not, List, [], ◌∷◌, ◌==◌, if◌then◌else◌, is_positive, erase}
use libtbm.SurfaceQueue.State.{inc32, dec32}
use libtbm.Bo.State.{
  UserData, Manager, Backend, bo_free_call, ask, set_bo, set_lock_cnt, bo_is_valid,
}
use libtbm.Bo.UserData.{free_data}
use libtbm.Bo.Lock.{back_unlock}

-- `tbm_bo_ref`
unfoldable pub ref : ℕ → Manager → ℕ × Manager
ref b m =
    if not (bo_is_valid m b)
    then (0, m)
    else (b, set_bo b (record (m.bos b) { ref_cnt = inc32 (m.bos b).ref_cnt }) m)

-- `user_data_delete` of each item.
unfoldable pub free_all : List UserData → Manager → Manager
free_all [] m = m
free_all (d ∷ l) m = free_all l (free_data d m)

-- The loop over `lock_cnt`, where it is positive.
unfoldable pub unlock_all : Backend → ℕ → ℕ → Manager → Manager
unlock_all e b zero m = m
unlock_all e b (suc n) m = unlock_all e b n (set_lock_cnt b n (back_unlock e b m))

-- The end of a buffer object in `tbm_bo_unref`.
unfoldable pub free_bo : Backend → ℕ → Manager → Manager
free_bo e b m =
    let m1 = free_all (m.bos b).user_data_list m in
    let c = (m1.bos b).lock_cnt in
    let m2 = ask (bo_free_call b) (if is_positive c then unlock_all e b c m1 else m1) in
    record m2 { bo_list = erase b m2.bo_list; bo_cnt = dec32 m2.bo_cnt }

-- `tbm_bo_unref`
unfoldable pub unref : Backend → ℕ → Manager → Manager
unref e b m =
    if not (bo_is_valid m b)
    then m
    else if not (is_positive (m.bos b).ref_cnt)
    then m
    else (let m1 = set_bo b (record (m.bos b) { ref_cnt = dec32 (m.bos b).ref_cnt }) m in
        if (m1.bos b).ref_cnt == 0 then free_bo e b m1 else m1)
