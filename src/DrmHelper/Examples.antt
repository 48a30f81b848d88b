-- ===== src/DrmHelper/Examples.antt =====
-- A table of variables and flags for the C library, a device that opens as descriptor 9, and a client
-- that gets it as descriptor 12.
use libtbm.Base.{
  ◌+◌, ◌+◌, ℕ, true, false, ◌%◌, ◌≡◌, refl, List, [], ◌∷◌, Option, none, some, arith, ◌==◌,
  if◌then◌else◌,
}
use libtbm.Bo.State.{is_negative}
use libtbm.DrmHelper.Fd.{
  Variable, Os, tbm_drm_fd, tbm_drm_master_fd, tdm_drm_master_fd, set_fd, get_fd, minus_one,
}
use libtbm.DrmHelper.Passed.{Documented, Duplicates, get_fd-set_fd}
use libtbm.DrmHelper.Server.{authenticate, Drm, Server, send_server_auth_info, open_drm_device}
use libtbm.DrmHelper.ServerLog.{Handled, answers_and_closes, send_server_auth_info-Handled}
use libtbm.DrmHelper.Client.{
  registry_handle_global, Connection, Wanted, get_auth_info, auth_interface,
}
use libtbm.DrmHelper.ClientLog.{registry_part, acquired, released, get_auth_info-Balanced}
use libtbm.DrmHelper.Exchange.{answers, Reached, Exchanged, get_auth_info-send_server_auth_info}

record Table : Type 0 where
  client_value : Option (List ℕ)
  master_value : Option (List ℕ)
  tdm_value : Option (List ℕ)
  flags : ℕ → ℕ

abbrev value_of : Table → Variable → Option (List ℕ)
value_of t tbm_drm_fd = t.client_value
value_of t tbm_drm_master_fd = t.master_value
value_of t tdm_drm_master_fd = t.tdm_value

abbrev with_value : Table → Variable → Option (List ℕ) → Table
with_value t tbm_drm_fd x = record t { client_value = x }
with_value t tbm_drm_master_fd x = record t { master_value = x }
with_value t tdm_drm_master_fd x = record t { tdm_value = x }

value_of-with_value :
    (t : Table) (v : Variable) (x : Option (List ℕ)) → value_of (with_value t v x) v ≡ x
value_of-with_value t tbm_drm_fd x = refl
value_of-with_value t tbm_drm_master_fd x = refl
value_of-with_value t tdm_drm_master_fd x = refl

-- `dup` gives descriptor 30.
abbrev os : Os Table
os = record {
  getenv = value_of;
  setenv = λ t v x. (with_value t v (some x), 0);
  unsetenv = λ t v. (with_value t v none, 0);
  getfd = λ t fd. t.flags fd;
  dup = λ t fd. (t, 30);
  setfd = λ t fd n. (record t { flags = λ x. if x == fd then n else t.flags x }, 0);
}

flags_set : (fd n m : ℕ) → (if fd == fd then n else m) ≡ n
flags_set fd n m = let e : (fd == fd) ≡ true = ground arith in rw e refl

documented : Documented os
documented = record {
  setenv_sets = λ t v x _. value_of-with_value t v (some x);
  unsetenv_unsets = λ t v _. value_of-with_value t v none;
  setfd_sets = λ t fd n _. flags_set fd n (t.flags fd);
}

abbrev start : Table
start = record { client_value = none; master_value = none; tdm_value = none; flags = λ _. 0 }

duplicates : Duplicates os (set_fd os start 7) 7
unfolding set_fd
duplicates = record { opened = ground arith; dup_succeeds = refl; setfd_succeeds = ground arith }

get_fd-set_fd_example :
    ((get_fd os (set_fd os start 7)).1 ≡ (os.dup (set_fd os start 7) 7).1)
    × (os.getfd (get_fd os (set_fd os start 7)).0 (get_fd os (set_fd os start 7)).1 % 2 ≡ 1)
get_fd-set_fd_example = get_fd-set_fd os documented start 7 (omega arith) refl duplicates

-- "/dev/card"
abbrev card : List ℕ
card = 47 ∷ 100 ∷ 101 ∷ 118 ∷ 47 ∷ 99 ∷ 97 ∷ 114 ∷ 100 ∷ []

-- A kernel that does not know O_CLOEXEC, and authenticates every magic.
abbrev drm : Drm
drm = record {
  open_device = λ name cloexec. if cloexec then (minus_one, 22) else (9, 0);
  getfd = λ _. 0;
  get_magic = λ fd magic. ((0, 0), 77);
  auth_magic = λ fd magic. 0;
}

abbrev server : Server
server = record { display = 1; global = some 2; device_name = card; fd = 5; flags = 3 }

send_server_auth_info-Handled_example :
    Handled drm server
      (open_drm_device drm card).0
      (answers_and_closes (send_server_auth_info drm server))
send_server_auth_info-Handled_example = send_server_auth_info-Handled drm server

-- The client sees another global before the server's.
abbrev connection : Connection
connection = record {
  calloc_succeeds = true;
  connects = true;
  has_registry = true;
  globals = (1, card) ∷ (2, auth_interface) ∷ [];
  bind = λ name. some (name + 40);
  globals_ret = 2;
  infos = record { device_name = some card; capabilities = 3; auth_fd = 12 } ∷ [];
  infos_ret = 0;
  strdup = λ text. some text;
}

abbrev everything : Wanted
everything = record { auth_fd = true; device = true; capabilities = true }

get_auth_info-Balanced_example :
    acquired registry_part (get_auth_info connection everything).events
    ≡ released registry_part (get_auth_info connection everything).events
get_auth_info-Balanced_example = get_auth_info-Balanced registry_part connection everything

reached : Reached connection (λ fd. fd + 3) 42 (send_server_auth_info drm server)
unfolding send_server_auth_info open_drm_device authenticate registry_handle_global
reached = record {
  calloc_succeeds = refl;
  connects = refl;
  has_registry = refl;
  globals_arrive = refl;
  binds = refl;
  infos_carried = refl;
  infos_end = refl;
}

opened : is_negative ((open_drm_device drm card).0 + 3) ≡ false
unfolding open_drm_device
opened = refl

get_auth_info-send_server_auth_info_example :
    Exchanged server connection everything
      (λ fd. fd + 3)
      (open_drm_device drm card).0
      (answers (send_server_auth_info drm server))
      (get_auth_info connection everything)
get_auth_info-send_server_auth_info_example =
    get_auth_info-send_server_auth_info drm server connection everything (λ fd. fd + 3) 42 reached
      opened
