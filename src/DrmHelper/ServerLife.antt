-- ===== src/DrmHelper/ServerLife.antt =====
-- src/tbm_drm_helper_server.c: the server from `tbm_drm_helper_wl_auth_server_init` to
-- `tbm_drm_helper_wl_auth_server_deinit`.
use libtbm.Base.{
  subst, ◌+◌, ◌-◌, ◌==◌, sym, ◌-◌, ◌+◌, sym, ◌==◌, Option, ℕ, refl, ◌≡◌, List, none, some, true,
  Bool-cases, inl, inr, arith,
}
use libtbm.DrmHelper.Server.{
  Helper, Wayland, Server, wl_auth_server_init, wl_auth_server_deinit, created, destroyed,
}

destroyed-created : (g : Option ℕ) (l : List ℕ) → destroyed g (created g l) ≡ l
destroyed-created none l = refl
destroyed-created (some g) l = let e : (g == g) ≡ true = ground arith in rw e refl

Helper-ext :
    (h k : Helper) → h.server ≡ k.server → h.blocks ≡ k.blocks → h.globals ≡ k.globals → h ≡ k
Helper-ext h k a b c i = record { server = a i; blocks = b i; globals = c i }

wl_auth_server_init_again :
    (w : Wayland) (h : Helper) (s : Server) (display : Option ℕ) (fd : ℕ) (name : List ℕ)
    (flags : ℕ)
    → h.server ≡ some s
    → wl_auth_server_init w h display fd name flags ≡ (h, 1)
unfolding wl_auth_server_init
wl_auth_server_init_again w h s display fd name flags e = rw e refl

-- The outcome of an initialisation: a refusal changes nothing, and a success leaves a server that
-- later calls keep.
pub data Initialised (w : Wayland) (h : Helper) : Helper → ℕ → Type 0 where
  refused : Initialised w h h 0
  running :
      (h1 : Helper) (s : Server)
      → h1.server ≡ some s
      → wl_auth_server_init w h1 (some s.display) s.fd s.device_name s.flags ≡ (h1, 1)
      → wl_auth_server_deinit h1 ≡ h
      → Initialised w h h1 1

-- No server, with what other code holds.
abbrev pub idle : (blocks : ℕ) (globals : List ℕ) → Helper
idle blocks globals = record { server = none; blocks = blocks; globals = globals }

-- x
pub wl_auth_server_init-Initialised :
    (w : Wayland) (blocks : ℕ) (globals : List ℕ) (display : Option ℕ) (fd : ℕ) (name : List ℕ)
    (flags : ℕ)
    → let (h, ret) = wl_auth_server_init w (idle blocks globals) display fd name flags in
      Initialised w (idle blocks globals) h ret
unfolding wl_auth_server_init wl_auth_server_deinit
wl_auth_server_init-Initialised w blocks globals none fd name flags = refused
wl_auth_server_init-Initialised w blocks globals (some x) fd name flags =
    elim (Bool-cases w.calloc_succeeds) [
      | inr c ↦ rw c refused
      | inl c ↦ elim (Bool-cases (w.add_socket x == 0)) [
        | inl z ↦
            let s : Server = record {
              display = x;
              global = w.create_global x;
              device_name = name;
              fd = fd;
              flags = flags;
            } in
            let h1 : Helper = record {
              server = some s;
              blocks = blocks + 2;
              globals = created s.global globals;
            } in
            let back =
              Helper-ext (wl_auth_server_deinit h1) (idle blocks globals) refl (omega arith)
                (destroyed-created s.global globals) in
            rw (c, z)
              (running h1 s refl (wl_auth_server_init_again w h1 s (some x) fd name flags refl)
                back)
        | inr z ↦
            let same =
              Helper-ext (idle (blocks + 2 - 1 - 1) globals) (idle blocks globals) refl
                (omega arith) refl in
            simp (c, z) (subst (λ h. Initialised w (idle blocks globals) h 0) (sym same) refused)
      ]
    ]
