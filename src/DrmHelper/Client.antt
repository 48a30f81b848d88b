-- ===== src/DrmHelper/Client.antt =====
-- src/tbm_drm_helper_client.c: the client that asks the server for an authenticated descriptor.
use libtbm.Base.{
  not, ◌>>=◌, ◌||◌, ℕ, Bool, true, false, ◌&&◌, List, [], ◌∷◌, ◌++◌, Option, none, some, ◌==◌,
  if◌then◌else◌,
}
use libtbm.Bo.State.{is_negative}
use libtbm.DrmHelper.Fd.{minus_one}

-- "wl_tbm_drm_auth"
abbrev pub auth_interface : List ℕ
auth_interface =
    119 ∷ 108 ∷ 95 ∷ 116 ∷ 98 ∷ 109 ∷ 95 ∷ 100 ∷ 114 ∷ 109 ∷ 95 ∷ 97 ∷ 117 ∷ 116 ∷ 104 ∷ []

-- `!strcmp(a, b)`
abbrev pub same_text : List ℕ → List ℕ → Bool
same_text [] [] = true
same_text [] (d ∷ b) = false
same_text (c ∷ a) [] = false
same_text (c ∷ a) (d ∷ b) = c == d && same_text a b

-- An event `authentication_info` of the server; the name is `none` for NULL.
pub record Info : Type 0 where
  pub device_name : Option (List ℕ)
  pub capabilities : ℕ
  pub auth_fd : ℕ

-- libwayland and the memory: what the calls give, and the events that the two round trips dispatch.
-- `bind` gives the proxy for a global's number.
pub record Connection : Type 0 where
  pub calloc_succeeds : Bool
  pub connects : Bool
  pub has_registry : Bool
  pub globals : List (ℕ × List ℕ)
  pub bind : ℕ → Option ℕ
  pub globals_ret : ℕ
  pub infos : List Info
  pub infos_ret : ℕ
  pub strdup : List ℕ → Option (List ℕ)

-- What the client holds.
pub data Held : Type 0 where
  client_memory display registry : Held
  proxy : ℕ → Held
  device_text : List ℕ → Held
  descriptor : ℕ → Held

pub data Event : Type 0 where
  acquire release : Held → Event

-- `struct wayland_tbm_drm_auth_client`, with what was acquired and released so far
pub record AuthClient : Type 0 where
  pub wl_tbm_drm_auth : Option ℕ
  pub auth_fd : ℕ
  pub device : Option (List ℕ)
  pub capabilities : ℕ
  pub events : List Event

abbrev pub copied : Option (List ℕ) → List Event
copied none = []
copied (some name) = acquire (device_text name) ∷ []

-- `handle_tbm_drm_authentication_info`
unfoldable pub handle_authentication_info : Connection → Info → AuthClient → AuthClient
handle_authentication_info w i c =
    let text = i.device_name >>= w.strdup in
    record {
      wl_tbm_drm_auth = c.wl_tbm_drm_auth;
      auth_fd = i.auth_fd;
      device = elim (i.device_name) [ none ↦ c.device | some name ↦ w.strdup name ];
      capabilities = i.capabilities;
      events = c.events ++ acquire (descriptor i.auth_fd) ∷ copied text;
    }

abbrev pub bound : Option ℕ → List Event
bound none = []
bound (some x) = acquire (proxy x) ∷ []

-- `_wayland_tbm_drm_auth_client_registry_handle_global`
unfoldable pub registry_handle_global : Connection → ℕ × List ℕ → AuthClient → AuthClient
registry_handle_global w (name, interface) c =
    if same_text interface auth_interface
    then record c { wl_tbm_drm_auth = w.bind name; events = c.events ++ bound (w.bind name) }
    else c

-- A round trip hands each event to its handler in turn.
abbrev pub dispatch {ℓ} :
    {A : Type ℓ} → (A → AuthClient → AuthClient) → List A → AuthClient → AuthClient
dispatch f [] c = c
dispatch f (x ∷ l) c = dispatch f l (f x c)

-- Which of `auth_fd`, `device` and `capabilities` are not NULL.
pub record Wanted : Type 0 where
  pub auth_fd : Bool
  pub device : Bool
  pub capabilities : Bool

-- What the call returns and stores: `none` where nothing is stored, a device of `some none` for NULL.
pub record Answer : Type 0 where
  pub ret : ℕ
  pub auth_fd : Option ℕ
  pub device : Option (Option (List ℕ))
  pub capabilities : Option ℕ
  pub events : List Event

abbrev pub failed : List Event → Answer
failed l = record { ret = 0; auth_fd = none; device = none; capabilities = none; events = l }

-- `wl_registry_destroy`, `wl_display_disconnect` and `free`, at the end of the paths that fail
abbrev pub disconnected : List Event
disconnected = release registry ∷ release display ∷ release client_memory ∷ []

-- `if (tbm_drm_client->device) free(tbm_drm_client->device)`
abbrev pub freed : Option (List ℕ) → List Event
freed none = []
freed (some name) = release (device_text name) ∷ []

-- What is given back and copied once the descriptor is good; `text` is the copy of the device's name.
abbrev pub returned : Wanted → AuthClient → (auth : ℕ) → (text : Option (List ℕ)) → List Event
returned want c auth text =
    (if want.auth_fd then [] else release (descriptor c.auth_fd) ∷ [])
    ++ ((if want.device then copied text else [])
        ++ (release (proxy auth)
            ∷ (freed c.device ++ release client_memory ∷ release registry ∷ release display ∷ [])))

-- `tbm_drm_helper_get_auth_info` from the point where the descriptor is good
unfoldable pub hand_over : Connection → Wanted → AuthClient → (auth : ℕ) → Answer
hand_over w want c auth =
    let text = c.device >>= w.strdup in
    record {
      ret = 1;
      auth_fd = if want.auth_fd then some c.auth_fd else none;
      device = if want.device then some text else none;
      capabilities = if want.capabilities then some c.capabilities else none;
      events = c.events ++ returned want c auth text;
    }

-- `tbm_drm_helper_get_auth_info` from the second round trip on
unfoldable pub authenticated : Connection → Wanted → AuthClient → (auth : ℕ) → Answer
authenticated w want c auth =
    let c1 = dispatch (handle_authentication_info w) w.infos c in
    if is_negative w.infos_ret || is_negative c1.auth_fd
    then failed (c1.events ++ release (proxy auth) ∷ disconnected)
    else hand_over w want c1 auth

-- `tbm_drm_helper_get_auth_info` after the first round trip
unfoldable pub registered : Connection → Wanted → AuthClient → Answer
registered w want c =
    if is_negative w.globals_ret
    then failed (c.events ++ disconnected)
    else elim (c.wl_tbm_drm_auth) [
      | none ↦ failed (c.events ++ disconnected)
      | some auth ↦ authenticated w want c auth
    ]

-- The client before the first round trip
abbrev pub connected : AuthClient
connected = record {
  wl_tbm_drm_auth = none;
  auth_fd = minus_one;
  device = none;
  capabilities = 0;
  events = acquire client_memory ∷ acquire display ∷ acquire registry ∷ [];
}

-- The paths that fail before there is a registry
abbrev pub no_display : List Event
no_display = acquire client_memory ∷ release client_memory ∷ []

abbrev pub no_registry : List Event
no_registry = acquire client_memory ∷ acquire display ∷ release display ∷ release client_memory ∷ []

-- `tbm_drm_helper_get_auth_info`
unfoldable pub get_auth_info : Connection → Wanted → Answer
get_auth_info w want =
    if not w.calloc_succeeds
    then failed []
    else if not w.connects
    then failed no_display
    else if not w.has_registry
    then failed no_registry
    else registered w want (dispatch (registry_handle_global w) w.globals connected)
