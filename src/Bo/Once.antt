-- ===== src/Bo/Once.antt =====
-- The lock type `LOCK_TRY_ONCE`: how many maps an unmap undoes.
use libtbm.Base.{ℕ, ◌+◌, ◌<◌, ◌^◌, ◌≡◌, ◌≢◌, refl, true, false, ◌==◌, arith}
use libtbm.Bo.State.{Manager, Backend, try_once, bo_is_valid}
use libtbm.Bo.Lock.{
  back_lock, back_unlock, lock_counted, lock, unlock, unlock_last, no_negative, map_bo, unmap_bo,
  locked,
}
use libtbm.Bo.Balance.{Alone}

-- The back end grants each lock, map and unmap of this buffer object.
pub record Willing (e : Backend) (b : ℕ) : Type 0 where
  pub locks : (device opt : ℕ) (m : Manager) → e.lock_ret b device opt m ≢ 0
  pub maps : (device opt : ℕ) (m : Manager) → e.map_ret b device opt m ≢ 0
  pub unmaps : (m : Manager) → e.unmap_ret b m ≢ 0

-- A buffer object of a manager that locks once, with these two counts.
pub record Counts (m : Manager) (b lock_cnt map_cnt : ℕ) : Type 0 where
  pub valid : bo_is_valid m b ≡ true
  pub once : m.lock_type ≡ try_once
  pub locks : (m.bos b).lock_cnt ≡ lock_cnt
  pub maps : (m.bos b).map_cnt ≡ map_cnt

module _ {e : Backend} {b : ℕ} (a : Alone e) (w : Willing e b) where
  lock_free-Counts :
      (device opt n : ℕ) (m : Manager)
      → Counts m b 0 n
      → Counts (lock e b device opt m).1 b 1 n × (((lock e b device opt m).0 == 0) ≡ false)
  unfolding lock lock_counted back_lock bo_is_valid
  lock_free-Counts device opt n m c =
      let c1 = c.valid in
      let c2 = c.once in
      let c3 = c.locks in
      let c4 = c.maps in
      let l = a.lock in
      let g = w.locks device opt m in
      rw (c2, l, a.quiet)
        (
          record {
            valid = ground arith;
            once = ground arith;
            locks = ground arith;
            maps = ground arith;
          },
          ground arith,
        )

  lock_held-eq : (device opt n : ℕ) (m : Manager) → Counts m b 1 n → lock e b device opt m ≡ (1, m)
  unfolding lock bo_is_valid
  lock_held-eq device opt n m c =
      let c1 = c.valid in let c2 = c.once in let c3 = c.locks in rw c2 (ground arith)

  -- The first map locks the buffer object, a second one counts nothing.
  map_free-Counts :
      (device opt n : ℕ) (m : Manager)
      → n + 1 < 2 ^ 32
      → Counts m b 0 n
      → Counts (map_bo e b device opt m).1 b 1 (n + 1)
  unfolding map_bo bo_is_valid
  map_free-Counts device opt n m small c =
      let l = lock_free-Counts device opt n m c in
      let m1 = (lock e b device opt m).1 in
      let d1 = l.0.valid in
      let d2 = l.0.once in
      let d3 = l.0.locks in
      let d4 = l.0.maps in
      let g : (e.map_ret b device opt m1 == 0) ≡ false = ground (arith, w.maps device opt m1) in
      rw (c.valid, l.1, g)
        (record {
          valid = ground arith;
          once = ground arith;
          locks = ground arith;
          maps = ground arith;
        })

  map_held-Counts :
      (device opt n : ℕ) (m : Manager)
      → n + 1 < 2 ^ 32
      → Counts m b 1 n
      → Counts (map_bo e b device opt m).1 b 1 (n + 1)
  unfolding map_bo bo_is_valid
  map_held-Counts device opt n m small c =
      let d1 = c.valid in
      let d2 = c.once in
      let d3 = c.locks in
      let d4 = c.maps in
      let g : (e.map_ret b device opt m == 0) ≡ false = ground (arith, w.maps device opt m) in
      rw (c.valid, lock_held-eq device opt n m c, g)
        (record {
          valid = ground arith;
          once = ground arith;
          locks = ground arith;
          maps = ground arith;
        })

  unmap-Counts :
      (n : ℕ) (m : Manager)
      → n + 1 < 2 ^ 32
      → Counts m b 1 (n + 1)
      → Counts (unmap_bo e b m).1 b 0 n
  unfolding unmap_bo unlock unlock_last back_unlock no_negative bo_is_valid
  unmap-Counts n m small c =
      let d1 = c.valid in
      let d2 = c.once in
      let d3 = c.locks in
      let d4 = c.maps in
      let g : (e.unmap_ret b m == 0) ≡ false = ground (arith, w.unmaps m) in
      rw (c.valid, g, c.once)
        (record {
          valid = ground arith;
          once = ground arith;
          locks = ground arith;
          maps = ground arith;
        })

  -- Where the manager locks once, the back end has both lock functions and grants each lock, map
  -- and unmap of a valid buffer object, nobody else acts while a lock is waited for, and lock_cnt
  -- is 0: after two maps the buffer object is locked, and after one unmap it is not locked any
  -- more, although map_cnt still counts one more mapping than at first (with room for two more in
  -- 32 bits).
  pub once_unlocks_early :
      (device opt n : ℕ) (m : Manager)
      → n + 2 < 2 ^ 32
      → Counts m b 0 n
      → let m1 = (map_bo e b device opt m).1 in
        let m2 = (map_bo e b device opt m1).1 in
        let m3 = (unmap_bo e b m2).1 in
        (locked m2 b ≡ true) × (locked m3 b ≡ false) × ((m3.bos b).map_cnt ≡ n + 1)
  unfolding locked
  once_unlocks_early device opt n m small c =
      let m1 = (map_bo e b device opt m).1 in
      let m2 = (map_bo e b device opt m1).1 in
      let c1 = map_free-Counts device opt n m (omega arith) c in
      let c2 = map_held-Counts device opt (n + 1) m1 (omega arith) c1 in
      let c3 = unmap-Counts (n + 1) m2 (omega arith) c2 in
      (rw (c2.valid, c2.once, c2.locks) refl, rw (c3.valid, c3.once, c3.locks) refl, c3.maps)
