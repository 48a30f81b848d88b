-- ===== src/DrmHelper/Passed.antt =====
-- src/tbm_drm_helper_client.c: what `tbm_drm_helper_get_fd` finds after `tbm_drm_helper_set_fd`.
use libtbm.Base.{
  ℕ, ◌%◌, ◌^◌, ◌<◌, ◌≡◌, ◌≢◌, refl, List, none, some, ◌==◌, false, Bool-cases, inl, inr, arith,
}
use libtbm.Bo.State.{is_negative}
use libtbm.DrmHelper.Decimal.{print_int}
use libtbm.DrmHelper.Fd.{
  Variable, Os, tbm_drm_fd, minus_one, close_on_exec, duplicate, read_fd, set_fd, unset_fd, get_fd,
}
use libtbm.DrmHelper.RoundTrip.{scan_int-print_int}

-- What the manual pages of the calls say.
pub record Documented {E : Type 0} (os : Os E) : Type 0 where
  pub setenv_sets :
      (e : E) (v : Variable) (value : List ℕ)
      → (os.setenv e v value).1 ≡ 0
      → os.getenv (os.setenv e v value).0 v ≡ some value
  pub unsetenv_unsets :
      (e : E) (v : Variable) → (os.unsetenv e v).1 ≡ 0 → os.getenv (os.unsetenv e v).0 v ≡ none
  pub setfd_sets :
      (e : E) (fd flags : ℕ)
      → (os.setfd e fd flags).1 ≢ minus_one
      → os.getfd (os.setfd e fd flags).0 fd ≡ flags

-- In the state `e`, `fd` is open and each of the three calls made for a duplicate of it succeeds.
pub record Duplicates {E : Type 0} (os : Os E) (e : E) (fd : ℕ) : Type 0 where
  pub opened : os.getfd e fd ≢ minus_one
  pub dup_succeeds : is_negative (os.dup e fd).1 ≡ false
  pub setfd_succeeds :
      (os.setfd (os.dup e fd).0 (os.dup e fd).1 (close_on_exec (os.getfd e fd))).1 ≢ minus_one

close_on_exec-odd : (flags : ℕ) → close_on_exec flags % 2 ≡ 1
close_on_exec-odd flags = elim (Bool-cases (flags % 2 == 1)) [
  | inl s ↦ rw s (ground arith)
  | inr s ↦ rw s (ground arith)
]

module _ {E : Type 0} (os : Os E) (d : Documented os) where
  duplicate_lem :
      (e : E) (fd : ℕ)
      → Duplicates os e fd
      → ((duplicate os e fd).1 ≡ (os.dup e fd).1)
        × (os.getfd (duplicate os e fd).0 (duplicate os e fd).1 % 2 ≡ 1)
  unfolding duplicate
  duplicate_lem e fd g =
      let a : (os.getfd e fd == minus_one) ≡ false = ground (arith, g.opened) in
      let s = d.setfd_sets (os.dup e fd).0 (os.dup e fd).1 _ g.setfd_succeeds in
      rw (a, g.dup_succeeds) (refl, rw s (close_on_exec-odd (os.getfd e fd)))

  -- With a C library that does what its manual pages say, for any 32-bit descriptor whose number
  -- setenv stores, where the descriptor is open and fcntl and dup succeed, tbm_drm_helper_get_fd
  -- after tbm_drm_helper_set_fd returns what dup gives for this descriptor, with the flag
  -- FD_CLOEXEC set.
  pub get_fd-set_fd :
      (e : E) (fd : ℕ)
      → fd < 2 ^ 32
      → (os.setenv e tbm_drm_fd (print_int fd)).1 ≡ 0
      → Duplicates os (set_fd os e fd) fd
      → ((get_fd os (set_fd os e fd)).1 ≡ (os.dup (set_fd os e fd) fd).1)
        × (os.getfd (get_fd os (set_fd os e fd)).0 (get_fd os (set_fd os e fd)).1 % 2 ≡ 1)
  unfolding set_fd get_fd read_fd
  get_fd-set_fd e fd l ok g =
      let s = d.setenv_sets e tbm_drm_fd _ ok in
      rw (s, read_fd, scan_int-print_int fd l) (duplicate_lem (set_fd os e fd) fd g)

  -- After the variable is removed there is no descriptor.
  pub get_fd-unset_fd :
      (e : E)
      → (os.unsetenv e tbm_drm_fd).1 ≡ 0
      → get_fd os (unset_fd os e) ≡ (unset_fd os e, minus_one)
  unfolding unset_fd get_fd read_fd
  get_fd-unset_fd e ok = rw (d.unsetenv_unsets e tbm_drm_fd ok) refl
