-- ===== src/Sync.antt =====
-- src/tbm_sync.c: timelines and fences of the kernel's sync driver. A descriptor is the 32-bit pattern
-- of an `int`.
pub mod Wait
pub mod Name
mod Examples
use libtbm.Base.{
  ℕ, zero, suc, Bool, true, false, ◌&&◌, ◌-◌, ◌+◌, ◌^◌, List, [], ◌∷◌, Option, none, some, ◌==◌,
  if◌then◌else◌,
}

-- What `ioctl` returns, and `errno` after it.
pub record Reply : Type 0 where
  pub ret : ℕ
  pub errno : ℕ

abbrev pub minus_one : ℕ
minus_one = 2 ^ 32 - 1

-- EINTR and ETIME
abbrev pub eintr : ℕ
eintr = 4

abbrev pub etime : ℕ
etime = 62

-- The driver: for each call of `ioctl` what it returns, and the descriptor that it fills in.
pub record Driver : Type 0 where
  pub open_ret : ℕ
  pub inc_reply : (timeline count : ℕ) → Reply
  pub create_reply : (timeline value : ℕ) → (name : List ℕ) → Reply × ℕ
  pub merge_reply : (fence1 fence2 : ℕ) → (name : List ℕ) → Reply × ℕ
  pub wait_reply : (fence timeout : ℕ) → (attempt : ℕ) → Reply

-- The loop of `_copy_string`, with `n` bytes before the last one: the bytes written. The text `src`
-- ends with a zero byte that is not in the list.
unfoldable pub copy_bytes : ℕ → (src : List ℕ) → List ℕ
copy_bytes zero src = 0 ∷ []
copy_bytes (suc n) [] = 0 ∷ []
copy_bytes (suc n) (c ∷ src) = c ∷ copy_bytes n src

-- `_copy_string`: the bytes written to `dst`; `src` is `none` for NULL.
unfoldable pub copy_string : (src : Option (List ℕ)) → (size : ℕ) → List ℕ
copy_string src zero = []
copy_string none (suc n) = 0 ∷ []
copy_string (some src) (suc n) = copy_bytes n src

-- `tbm_sync_timeline_create`
unfoldable pub timeline_create : Driver → ℕ
timeline_create e = e.open_ret

-- `tbm_sync_timeline_inc`
unfoldable pub timeline_inc : Driver → (timeline count : ℕ) → ℕ
timeline_inc e timeline count = if (e.inc_reply timeline count).ret == minus_one then 0 else 1

-- `tbm_sync_fence_create`
unfoldable pub fence_create : Driver → (timeline : ℕ) → Option (List ℕ) → (value : ℕ) → ℕ
fence_create e timeline name value =
    let (r, fence) = e.create_reply timeline value (copy_string name 32) in
    if r.ret == minus_one then minus_one else fence

-- `tbm_sync_fence_merge`
unfoldable pub fence_merge : Driver → Option (List ℕ) → (fence1 fence2 : ℕ) → ℕ
fence_merge e name fence1 fence2 =
    let (r, fence) = e.merge_reply fence1 fence2 (copy_string name 32) in
    if r.ret == minus_one then minus_one else fence

abbrev pub interrupted : Reply → Bool
interrupted r = r.ret == minus_one && r.errno == eintr

-- The loop of `tbm_sync_fence_wait`, from the attempt `i` on, for at most `rounds` calls; `none` while
-- it goes on.
unfoldable pub retry : (rounds : ℕ) → (ℕ → Reply) → (i : ℕ) → Option Reply
retry zero replies i = none
retry (suc k) replies i = elim (interrupted (replies i)) [
  | true ↦ retry k replies (i + 1)
  | false ↦ some (replies i)
]

-- `tbm_sync_fence_wait`
unfoldable pub fence_wait : Driver → (rounds fence timeout : ℕ) → Option ℕ
fence_wait e rounds fence timeout = elim (retry rounds (e.wait_reply fence timeout) 0) [
  | none ↦ none
  | some r ↦ some (if r.ret == 0 then 1 else if r.errno == etime then minus_one else 0)
]
