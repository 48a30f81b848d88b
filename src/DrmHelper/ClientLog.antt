-- ===== src/DrmHelper/ClientLog.antt =====
-- src/tbm_drm_helper_client.c: what the client holds when `tbm_drm_helper_get_auth_info` returns.
use libtbm.Bo.State.{is_negative}
use libtbm.Base.{
  Option-cases, ◌||◌, inr, inl, Bool-cases, ◌>>=◌, if◌then◌else◌, ℕ, Bool, true, false, ◌+◌, ◌≡◌,
  refl, List, [], ◌∷◌, ◌++◌, Option, none, some, arith,
}
use libtbm.DrmHelper.Client.{
  no_registry, connected, registered, no_display, returned, freed, get_auth_info, disconnected,
  authenticated, hand_over, auth_interface, same_text, dispatch, copied, registry_handle_global,
  handle_authentication_info, bound, Held, Event, Connection, AuthClient, Info, Wanted, acquire,
  release, client_memory, display, registry, proxy, device_text, descriptor,
}

-- The three that belong to the connection.
pub data Part : Type 0 where
  memory_part display_part registry_part : Part

abbrev pub is_part : Held → Part → Bool
is_part (proxy _) p = false
is_part (device_text _) p = false
is_part (descriptor _) p = false
is_part client_memory p = elim p [ memory_part ↦ true | _ ↦ false ]
is_part display p = elim p [ display_part ↦ true | _ ↦ false ]
is_part registry p = elim p [ registry_part ↦ true | _ ↦ false ]

-- How often a part was acquired, and how often it was released.
abbrev pub acquired : Part → List Event → ℕ
acquired p [] = 0
acquired p (acquire h ∷ l) = (if is_part h p then 1 else 0) + acquired p l
acquired p (release h ∷ l) = acquired p l

abbrev pub released : Part → List Event → ℕ
released p [] = 0
released p (acquire h ∷ l) = released p l
released p (release h ∷ l) = (if is_part h p then 1 else 0) + released p l

acquired-append : (p : Part) (a b : List Event) → acquired p (a ++ b) ≡ acquired p a + acquired p b
acquired-append p [] b = omega arith
acquired-append p (acquire h ∷ l) b = omega (arith, acquired-append p l b)
acquired-append p (release h ∷ l) b = acquired-append p l b

released-append : (p : Part) (a b : List Event) → released p (a ++ b) ≡ released p a + released p b
released-append p [] b = omega arith
released-append p (acquire h ∷ l) b = released-append p l b
released-append p (release h ∷ l) b = omega (arith, released-append p l b)

-- The part is held once after these events.
abbrev Open : Part → List Event → Type 0
Open p l = (acquired p l ≡ 1) × (released p l ≡ 0)

-- These events leave the part alone.
abbrev Apart : Part → List Event → Type 0
Apart p l = (acquired p l ≡ 0) × (released p l ≡ 0)

Apart-append : (p : Part) (a b : List Event) → Apart p a → Apart p b → Apart p (a ++ b)
Apart-append p a b h k =
    (omega (arith, acquired-append p a b, h.0, k.0), omega (arith, released-append p a b, h.1, k.1))

Open-append : (p : Part) (a b : List Event) → Open p a → Apart p b → Open p (a ++ b)
Open-append p a b h k =
    (omega (arith, acquired-append p a b, h.0, k.0), omega (arith, released-append p a b, h.1, k.1))

Apart-copied : (p : Part) (o : Option (List ℕ)) → Apart p (copied o)
Apart-copied p none = (refl, refl)
Apart-copied p (some x) = (refl, refl)

Apart-bound : (p : Part) (o : Option ℕ) → Apart p (bound o)
Apart-bound p none = (refl, refl)
Apart-bound p (some x) = (refl, refl)

Open-dispatch {ℓ} :
    {A : Type ℓ} (p : Part) (f : A → AuthClient → AuthClient)
    → ((x : A) (c : AuthClient) → Open p c.events → Open p (f x c).events)
    → (l : List A) (c : AuthClient) → Open p c.events
    → Open p (dispatch f l c).events
Open-dispatch p f h [] c o = o
Open-dispatch p f h (x ∷ l) c o = Open-dispatch p f h l (f x c) (h x c o)

Open-info :
    (p : Part) (w : Connection) (i : Info) (c : AuthClient)
    → Open p c.events
    → Open p (handle_authentication_info w i c).events
unfolding handle_authentication_info
Open-info p w i c o =
    let a = Apart-copied p (i.device_name >>= w.strdup) in
    Open-append p c.events _ o (omega (arith, a.0), a.1)

Open-global :
    (p : Part) (w : Connection) (g : ℕ × List ℕ) (c : AuthClient)
    → Open p c.events
    → Open p (registry_handle_global w g c).events
unfolding registry_handle_global
Open-global p w g c o = elim (Bool-cases (same_text g.1 auth_interface)) [
  | inl s ↦ rw s (Open-append p c.events _ o (Apart-bound p (w.bind g.0)))
  | inr s ↦ rw s o
]

-- These events give the part back once.
abbrev Closes : Part → List Event → Type 0
Closes p l = (acquired p l ≡ 0) × (released p l ≡ 1)

Closes-append : (p : Part) (a b : List Event) → Apart p a → Closes p b → Closes p (a ++ b)
Closes-append p a b h k =
    (omega (arith, acquired-append p a b, h.0, k.0), omega (arith, released-append p a b, h.1, k.1))

Closes-disconnected : (p : Part) → Closes p disconnected
Closes-disconnected memory_part = (refl, refl)
Closes-disconnected display_part = (refl, refl)
Closes-disconnected registry_part = (refl, refl)

Balanced-append :
    (p : Part) (a b : List Event)
    → Open p a
    → Closes p b
    → acquired p (a ++ b) ≡ released p (a ++ b)
Balanced-append p a b h k =
    omega (arith, acquired-append p a b, released-append p a b, h.0, h.1, k.0, k.1)

Apart-freed : (p : Part) (o : Option (List ℕ)) → Apart p (freed o)
Apart-freed p none = (refl, refl)
Apart-freed p (some x) = (refl, refl)

Apart-if :
    (p : Part) (b : Bool) (l m : List Event) → Apart p l → Apart p m → Apart p (if b then l else m)
Apart-if p true l m x y = x
Apart-if p false l m x y = y

Closes-end : (p : Part) → Closes p (release client_memory ∷ release registry ∷ release display ∷ [])
Closes-end memory_part = (refl, refl)
Closes-end display_part = (refl, refl)
Closes-end registry_part = (refl, refl)

Closes-returned :
    (p : Part) (want : Wanted) (c : AuthClient) (auth : ℕ) (text : Option (List ℕ))
    → Closes p (returned want c auth text)
Closes-returned p want c auth text =
    let rest = release client_memory ∷ release registry ∷ release display ∷ [] in
    let last = Closes-append p (freed c.device) rest (Apart-freed p c.device) (Closes-end p) in
    let proxy_back = release (proxy auth) ∷ [] in
    let back = Closes-append p proxy_back (freed c.device ++ rest) (refl, refl) last in
    let copies = if want.device then copied text else [] in
    let copy = Apart-if p want.device (copied text) [] (Apart-copied p text) (refl, refl) in
    let both = Closes-append p copies (release (proxy auth) ∷ (freed c.device ++ rest)) copy back in
    let close = release (descriptor c.auth_fd) ∷ [] in
    let fd = Apart-if p want.auth_fd [] close (refl, refl) (refl, refl) in
    Closes-append p (if want.auth_fd then [] else close)
      (copies ++ (release (proxy auth) ∷ (freed c.device ++ rest))) fd both

Balanced-authenticated :
    (p : Part) (w : Connection) (want : Wanted) (c : AuthClient) (auth : ℕ)
    → Open p c.events
    → acquired p (authenticated w want c auth).events
      ≡ released p (authenticated w want c auth).events
unfolding authenticated hand_over
Balanced-authenticated p w want c auth o =
    let c1 = dispatch (handle_authentication_info w) w.infos c in
    let o1 = Open-dispatch p (handle_authentication_info w) (Open-info p w) w.infos c o in
    elim (Bool-cases (is_negative w.infos_ret || is_negative c1.auth_fd)) [
      | inl s ↦
          let k =
            Closes-append p (release (proxy auth) ∷ []) disconnected (refl, refl)
              (Closes-disconnected p) in
          rw s (Balanced-append p c1.events _ o1 k)
      | inr s ↦ rw s (
          Balanced-append p c1.events _ o1
            (Closes-returned p want c1 auth (c1.device >>= w.strdup)))
    ]

Balanced-registered :
    (p : Part) (w : Connection) (want : Wanted) (c : AuthClient)
    → Open p c.events
    → acquired p (registered w want c).events ≡ released p (registered w want c).events
unfolding registered
Balanced-registered p w want c o =
    let failing = Balanced-append p c.events disconnected o (Closes-disconnected p) in
    elim (Bool-cases (is_negative w.globals_ret)) [
      | inl s ↦ rw s failing
      | inr s ↦ elim (Option-cases c.wl_tbm_drm_auth) [
        | inl n ↦ simp (s, n) failing
        | inr (auth, e) ↦ simp (s, e) (Balanced-authenticated p w want c auth o)
      ]
    ]

Open-connected : (p : Part) → Open p connected.events
Open-connected memory_part = (refl, refl)
Open-connected display_part = (refl, refl)
Open-connected registry_part = (refl, refl)

Balanced-early :
    (p : Part)
    → (acquired p no_display ≡ released p no_display)
      × (acquired p no_registry ≡ released p no_registry)
Balanced-early memory_part = (refl, refl)
Balanced-early display_part = (refl, refl)
Balanced-early registry_part = (refl, refl)

-- Whatever libwayland and the server do, when tbm_drm_helper_get_auth_info returns, the memory of
-- the client, the display and the registry were each released as often as they were acquired.
pub get_auth_info-Balanced :
    (p : Part) (w : Connection) (want : Wanted)
    → acquired p (get_auth_info w want).events ≡ released p (get_auth_info w want).events
unfolding get_auth_info
get_auth_info-Balanced p w want =
    let o =
      Open-dispatch p (registry_handle_global w) (Open-global p w) w.globals connected
        (Open-connected p) in
    elim (Bool-cases w.calloc_succeeds) [
      | inr a ↦ simp a refl
      | inl a ↦ elim (Bool-cases w.connects) [
        | inr b ↦ simp (a, b) (Balanced-early p).0
        | inl b ↦ elim (Bool-cases w.has_registry) [
          | inr c ↦ simp (a, b, c) (Balanced-early p).1
          | inl c ↦ simp (a, b, c) (Balanced-registered p w want _ o)
        ]
      ]
    ]
