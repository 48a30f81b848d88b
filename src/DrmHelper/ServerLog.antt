-- ===== src/DrmHelper/ServerLog.antt =====
-- src/tbm_drm_helper_server.c: what a request for authentication is answered with, and what the server
-- holds afterwards.
use libtbm.DrmHelper.Fd.{minus_one}
use libtbm.Bo.State.{is_negative}
use libtbm.Base.{
  refl, not, inr, ◌⊎◌, ◌&&◌, ◌==◌, inl, [], ◌∷◌, Bool-cases, true, ◌≢◌, false, ◌++◌, arith, ◌≡◌,
  List, ℕ,
}
use libtbm.DrmHelper.Server.{
  auth_magic, einval, get_magic, eacces, Drm, Server, Call, set_close_on_exec, post_error,
  send_info, close_fd, open_drm, open_drm_device, authenticate, send_server_auth_info,
}

-- The answers to the client and the descriptors closed, in order.
abbrev pub answers_and_closes : List Call → List Call
answers_and_closes [] = []
answers_and_closes (set_close_on_exec _ _ ∷ l) = answers_and_closes l
answers_and_closes (post_error f ∷ l) = post_error f ∷ answers_and_closes l
answers_and_closes (send_info n c fd ∷ l) = send_info n c fd ∷ answers_and_closes l
answers_and_closes (close_fd fd ∷ l) = close_fd fd ∷ answers_and_closes l

-- `drmGetMagic` gave a magic, or failed because the descriptor is not for the master.
abbrev pub HasMagic : Drm → ℕ → Type 0
HasMagic d fd = (is_negative (d.get_magic fd 0).0.0 ≡ false) ⊎ ((d.get_magic fd 0).0.1 ≡ eacces)

-- The answer to a client and the descriptor closed, in this order, where `fd` is what opening the
-- device gave: the client gets the descriptor, with the server's name and flags, only where its magic
-- was authenticated.
pub data Handled (d : Drm) (s : Server) (fd : ℕ) : List Call → Type 0 where
  unopened : is_negative fd ≡ true → Handled d s fd (post_error open_drm ∷ [])
  no_magic :
      is_negative fd ≡ false
      → is_negative (d.get_magic fd 0).0.0 ≡ true
      → (d.get_magic fd 0).0.1 ≢ eacces
      → Handled d s fd (post_error get_magic ∷ close_fd fd ∷ [])
  unauthenticated :
      is_negative fd ≡ false
      → HasMagic d fd
      → is_negative (d.auth_magic s.fd (d.get_magic fd 0).1) ≡ true
      → Handled d s fd (post_error auth_magic ∷ close_fd fd ∷ [])
  granted :
      is_negative fd ≡ false
      → HasMagic d fd
      → is_negative (d.auth_magic s.fd (d.get_magic fd 0).1) ≡ false
      → Handled d s fd (send_info s.device_name s.flags fd ∷ close_fd fd ∷ [])

set_close_on_exec-answers :
    (d : Drm) (name : List ℕ) (l : List Call)
    → answers_and_closes ((open_drm_device d name).1 ++ l) ≡ answers_and_closes l
unfolding open_drm_device
set_close_on_exec-answers d name l =
    elim (Bool-cases
      ((d.open_device name true).0 == minus_one && (d.open_device name true).1 == einval)) [
        | inl a ↦ elim (Bool-cases ((d.open_device name false).0 == minus_one)) [
          | inl b ↦ rw (a, b) refl
          | inr b ↦ rw (a, b) refl
        ]
        | inr a ↦ rw a refl
      ]

has_magic :
    (d : Drm) (fd : ℕ)
    → is_negative (d.get_magic fd 0).0.0 && not ((d.get_magic fd 0).0.1 == eacces) ≡ false
    → HasMagic d fd
has_magic d fd m = elim (Bool-cases (is_negative (d.get_magic fd 0).0.0)) [
  | inl n ↦ inr (ground (arith, n, m))
  | inr n ↦ inl n
]

authenticate-Handled :
    (d : Drm) (s : Server) (fd : ℕ)
    → is_negative fd ≡ false
    → Handled d s fd (answers_and_closes (authenticate d s fd ∷ close_fd fd ∷ []))
unfolding authenticate
authenticate-Handled d s fd o =
    elim (Bool-cases
      (is_negative (d.get_magic fd 0).0.0 && not ((d.get_magic fd 0).0.1 == eacces))) [
        | inl m ↦ rw m (no_magic o (ground (arith, m)) (ground (arith, m)))
        | inr m ↦ elim (Bool-cases (is_negative (d.auth_magic s.fd (d.get_magic fd 0).1))) [
          | inl a ↦ rw (m, a) (unauthenticated o (has_magic d fd m) a)
          | inr a ↦ rw (m, a) (granted o (has_magic d fd m) a)
        ]
      ]

-- Whatever the device answers, _send_server_auth_info gives the client exactly one answer and
-- closes exactly what it opened: where the device does not open, the error for that, and nothing is
-- closed; else it closes the descriptor once, after the answer. That is the error for drmGetMagic,
-- where this failed with another errno than EACCES, and otherwise the error for drmAuthMagic, where
-- this failed, or the information with the descriptor, where it did not fail.
pub send_server_auth_info-Handled :
    (d : Drm) (s : Server)
    → Handled d s
        (open_drm_device d s.device_name).0
        (answers_and_closes (send_server_auth_info d s))
unfolding send_server_auth_info
send_server_auth_info-Handled d s =
    let fd = (open_drm_device d s.device_name).0 in
    elim (Bool-cases (is_negative fd)) [
      | inl o ↦
          let a = set_close_on_exec-answers d s.device_name (post_error open_drm ∷ []) in
          rw (o, a) (unopened o)
      | inr o ↦
          let a =
            set_close_on_exec-answers d s.device_name (authenticate d s fd ∷ close_fd fd ∷ []) in
          rw (o, a) (authenticate-Handled d s fd o)
    ]
