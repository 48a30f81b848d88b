-- ===== src/DrmHelper/Server.antt =====
-- src/tbm_drm_helper_server.c: the server that hands an authenticated descriptor of the device to a
-- client.
use libtbm.Base.{
  erase, not, ℕ, Bool, true, false, ◌&&◌, ◌-◌, ◌+◌, List, [], ◌∷◌, ◌++◌, Option, none, some, ◌==◌,
  ltb, if◌then◌else◌,
}
use libtbm.Bo.State.{is_negative}
use libtbm.DrmHelper.Fd.{minus_one, close_on_exec}

-- EINVAL and EACCES
abbrev pub einval : ℕ
einval = 22

abbrev pub eacces : ℕ
eacces = 13

-- The C library and libdrm: what their calls return, with `errno`, and the magic that `drmGetMagic`
-- leaves in its argument.
pub record Drm : Type 0 where
  pub open_device : List ℕ → (cloexec : Bool) → ℕ × ℕ
  pub getfd : ℕ → ℕ
  pub get_magic : (fd magic : ℕ) → (ℕ × ℕ) × ℕ
  pub auth_magic : (fd magic : ℕ) → ℕ

-- `struct wayland_tbm_drm_auth_server`
pub record Server : Type 0 where
  pub display : ℕ
  pub global : Option ℕ
  pub device_name : List ℕ
  pub fd : ℕ
  pub flags : ℕ

-- The texts of the errors posted: "authenicate failed::open_drm", "::get_magic" and "::auth_magic".
pub data Failure : Type 0 where
  open_drm get_magic auth_magic : Failure

-- What the server does that is seen outside.
pub data Call : Type 0 where
  set_close_on_exec : (fd flags : ℕ) → Call
  post_error : Failure → Call
  send_info : (device_name : List ℕ) → (capabilities fd : ℕ) → Call
  close_fd : ℕ → Call

module _ (d : Drm) where
  -- The two calls of `open` in `_send_server_auth_info`.
  unfoldable pub open_drm_device : (device_name : List ℕ) → ℕ × List Call
  open_drm_device name =
      let (fd, errno) = d.open_device name true in
      let (fd2, _) = d.open_device name false in
      if fd == minus_one && errno == einval
      then (if fd2 == minus_one
          then (fd2, [])
          else (fd2, set_close_on_exec fd2 (close_on_exec (d.getfd fd2)) ∷ []))
      else (fd, [])

  -- `_send_server_auth_info` once the device is open, before `fini`
  unfoldable pub authenticate : Server → (fd : ℕ) → Call
  authenticate s fd =
      let ((ret, errno), magic) = d.get_magic fd 0 in
      if is_negative ret && not (errno == eacces)
      then post_error get_magic
      else if is_negative (d.auth_magic s.fd magic)
      then post_error auth_magic
      else send_info s.device_name s.flags fd

  -- `_send_server_auth_info`
  unfoldable pub send_server_auth_info : Server → List Call
  send_server_auth_info s =
      let (fd, calls) = open_drm_device s.device_name in
      if is_negative fd
      then calls ++ post_error open_drm ∷ []
      else calls ++ authenticate s fd ∷ close_fd fd ∷ []

-- libwayland and the memory: whether `calloc` gives memory, what `wl_display_add_socket` returns, and
-- the object that `wl_global_create` gives.
pub record Wayland : Type 0 where
  pub calloc_succeeds : Bool
  pub add_socket : (display : ℕ) → ℕ
  pub create_global : (display : ℕ) → Option ℕ
  pub create_resource : (client version id : ℕ) → Option ℕ

-- The global `tbm_drm_auth_srv`, with the number of blocks of memory that the helper holds and the
-- objects that it created with `wl_global_create` and did not destroy.
pub record Helper : Type 0 where
  pub server : Option Server
  pub blocks : ℕ
  pub globals : List ℕ

abbrev pub created : Option ℕ → List ℕ → List ℕ
created none l = l
created (some g) l = g ∷ l

-- `tbm_drm_helper_wl_auth_server_init`; the display is `none` for NULL.
unfoldable pub wl_auth_server_init :
    Wayland → Helper → Option ℕ → (fd : ℕ) → (device_name : List ℕ) → (flags : ℕ) → Helper × ℕ
wl_auth_server_init w h display fd device_name flags = elim (h.server) [
  | some s ↦ (h, 1)
  | none ↦ elim display [
    | none ↦ (h, 0)
    | some x ↦
        let g = w.create_global x in
        let s : Server = record {
          display = x;
          global = g;
          device_name = device_name;
          fd = fd;
          flags = flags;
        } in
        if w.calloc_succeeds
        then (if w.add_socket x == 0
            then (
              record { server = some s; blocks = h.blocks + 2; globals = created g h.globals },
              1,
            )
            else (record { server = none; blocks = h.blocks + 2 - 1 - 1; globals = h.globals }, 0))
        else (h, 0)
  ]
]

-- The objects after `wl_global_destroy`
abbrev pub destroyed : Option ℕ → List ℕ → List ℕ
destroyed none l = l
destroyed (some g) l = erase g l

-- `tbm_drm_helper_wl_auth_server_deinit`
unfoldable pub wl_auth_server_deinit : Helper → Helper
wl_auth_server_deinit h = elim (h.server) [
  | none ↦ h
  | some s ↦ record {
    server = none;
    blocks = h.blocks - 1 - 1;
    globals = destroyed s.global h.globals;
  }
]

-- What a client that binds the global sees.
pub data Bound : Type 0 where
  no_memory : Bound
  implemented : (resource : ℕ) → (server : Server) → Bound

-- `_wayland_tbm_drm_auth_server_bind_cb`
unfoldable pub server_bind_cb : Wayland → (client : ℕ) → Server → (version id : ℕ) → Bound
server_bind_cb w client s version id =
    elim (w.create_resource client (if ltb version 1 then version else 1) id) [
      | none ↦ no_memory
      | some r ↦ implemented r s
    ]
