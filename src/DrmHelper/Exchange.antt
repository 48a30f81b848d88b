-- ===== src/DrmHelper/Exchange.antt =====
-- src/tbm_drm_helper_server.c and src/tbm_drm_helper_client.c: a request from the client to the server
-- and back.
use libtbm.Base.{
  sym, subst, ◌∙◌, ℕ, true, false, ◌||◌, ◌≡◌, ap, refl, List, [], ◌∷◌, none, some, ◌>>=◌,
  Bool-cases, inl, inr, arith, if◌then◌else◌,
}
use libtbm.Bo.State.{is_negative}
use libtbm.DrmHelper.Fd.{minus_one}
use libtbm.DrmHelper.Client.{
  registered, get_auth_info, Connection, Info, AuthClient, Wanted, Answer, connected, dispatch,
  handle_authentication_info, registry_handle_global, hand_over, authenticated, same_text,
  auth_interface,
}
use libtbm.DrmHelper.Server.{
  auth_magic, get_magic, open_drm, open_drm_device, send_server_auth_info, Drm, Failure, Server,
  Call, set_close_on_exec, post_error, send_info, close_fd,
}
use libtbm.DrmHelper.ServerLog.{
  granted, unauthenticated, no_magic, send_server_auth_info-Handled, unopened, Handled,
  answers_and_closes,
}

-- The events that the answers of the server give the client: a descriptor gets another number there.
abbrev pub received : (passed : ℕ → ℕ) → List Call → List Info
received passed [] = []
received passed (set_close_on_exec _ _ ∷ l) = received passed l
received passed (post_error _ ∷ l) = received passed l
received passed (close_fd _ ∷ l) = received passed l
received passed (send_info n c fd ∷ l) =
    record { device_name = some n; capabilities = c; auth_fd = passed fd } ∷ received passed l

-- A posted error makes the round trip fail.
abbrev pub round_trip : List Call → ℕ
round_trip [] = 0
round_trip (set_close_on_exec _ _ ∷ l) = round_trip l
round_trip (post_error _ ∷ l) = minus_one
round_trip (close_fd _ ∷ l) = round_trip l
round_trip (send_info _ _ _ ∷ l) = round_trip l

-- The answers to the client.
abbrev pub answers : List Call → List Call
answers [] = []
answers (set_close_on_exec _ _ ∷ l) = answers l
answers (post_error f ∷ l) = post_error f ∷ answers l
answers (send_info n c fd ∷ l) = send_info n c fd ∷ answers l
answers (close_fd _ ∷ l) = answers l

answers-answers_and_closes : (l : List Call) → answers (answers_and_closes l) ≡ answers l
answers-answers_and_closes [] = refl
answers-answers_and_closes (set_close_on_exec _ _ ∷ l) = answers-answers_and_closes l
answers-answers_and_closes (close_fd _ ∷ l) = answers-answers_and_closes l
answers-answers_and_closes (post_error f ∷ l) =
    ap (λ x. post_error f ∷ x) (answers-answers_and_closes l)
answers-answers_and_closes (send_info n c fd ∷ l) =
    ap (λ x. send_info n c fd ∷ x) (answers-answers_and_closes l)

answers-carried :
    (passed : ℕ → ℕ) (l : List Call)
    → (received passed l ≡ received passed (answers l)) × (round_trip l ≡ round_trip (answers l))
answers-carried passed [] = (refl, refl)
answers-carried passed (set_close_on_exec _ _ ∷ l) = answers-carried passed l
answers-carried passed (close_fd _ ∷ l) = answers-carried passed l
answers-carried passed (post_error _ ∷ l) = ((answers-carried passed l).0, refl)
answers-carried passed (send_info n c fd ∷ l) =
    let (a, b) = answers-carried passed l in
    (ap (λ x. record { device_name = some n; capabilities = c; auth_fd = passed fd } ∷ x) a, b)

-- The client reaches the server: its calls succeed, the server's global is announced and bound, and
-- the server's answers are carried to it.
pub record Reached (w : Connection) (passed : ℕ → ℕ) (auth : ℕ) (calls : List Call) : Type 0 where
  pub calloc_succeeds : w.calloc_succeeds ≡ true
  pub connects : w.connects ≡ true
  pub has_registry : w.has_registry ≡ true
  pub globals_arrive : is_negative w.globals_ret ≡ false
  pub binds : (dispatch (registry_handle_global w) w.globals connected).wl_tbm_drm_auth ≡ some auth
  pub infos_carried : w.infos ≡ received passed calls
  pub infos_end : w.infos_ret ≡ round_trip calls

-- What the client returns and stores for the server's answer.
pub data Exchanged (s : Server) (w : Connection) (want : Wanted) (passed : ℕ → ℕ) (fd : ℕ)
    : List Call → Answer → Type 0 where
  refused :
      (why : Failure) (a : Answer)
      → a.ret ≡ 0
      → a.auth_fd ≡ none
      → Exchanged s w want passed fd (post_error why ∷ []) a
  accepted :
      (a : Answer)
      → a.ret ≡ 1
      → a.auth_fd ≡ (if want.auth_fd then some (passed fd) else none)
      → a.capabilities ≡ (if want.capabilities then some s.flags else none)
      → a.device ≡ (if want.device then some (w.strdup s.device_name >>= w.strdup) else none)
      → Exchanged s w want passed fd (send_info s.device_name s.flags fd ∷ []) a

-- The client before it has an answer
abbrev Fresh : AuthClient → Type 0
Fresh c = (c.auth_fd ≡ minus_one) × (c.device ≡ none)

Fresh-globals :
    (w : Connection) (l : List (ℕ × List ℕ)) (c : AuthClient)
    → Fresh c
    → Fresh (dispatch (registry_handle_global w) l c)
unfolding registry_handle_global
Fresh-globals w [] c h = h
Fresh-globals w (g ∷ l) c h = elim (Bool-cases (same_text g.1 auth_interface)) [
  | inl s ↦ Fresh-globals w l (registry_handle_global w g c) (rw s h)
  | inr s ↦ Fresh-globals w l (registry_handle_global w g c) (rw s h)
]

module _ (s : Server) (w : Connection) (want : Wanted) (passed : ℕ → ℕ) (fd auth : ℕ)
    (c : AuthClient) where
  Exchanged-refused :
      (why : Failure)
      → Fresh c
      → w.infos ≡ []
      → Exchanged s w want passed fd (post_error why ∷ []) (authenticated w want c auth)
  unfolding authenticated
  Exchanged-refused why h e =
      let n : (is_negative w.infos_ret || is_negative c.auth_fd) ≡ true = rw h.0 (ground arith) in
      simp (e, n) (refused why _ refl refl)

  Exchanged-accepted :
      w.infos
        ≡ record { device_name = some s.device_name; capabilities = s.flags; auth_fd = passed fd }
          ∷ []
      → w.infos_ret ≡ 0
      → is_negative (passed fd) ≡ false
      → Exchanged s w want passed fd
          (send_info s.device_name s.flags fd ∷ [])
          (authenticated w want c auth)
  unfolding authenticated hand_over handle_authentication_info
  Exchanged-accepted e r p = simp (e, r, p) (accepted _ refl refl refl refl)

  Exchanged-Handled :
      (d : Drm) (given : List Call)
      → Handled d s fd given
      → w.infos ≡ received passed (answers given)
      → w.infos_ret ≡ round_trip (answers given)
      → Fresh c
      → is_negative (passed fd) ≡ false
      → Exchanged s w want passed fd (answers given) (authenticated w want c auth)
  Exchanged-Handled d _ (unopened _) e r h p = Exchanged-refused open_drm h e
  Exchanged-Handled d _ (no_magic _ _ _) e r h p = Exchanged-refused get_magic h e
  Exchanged-Handled d _ (unauthenticated _ _ _) e r h p = Exchanged-refused auth_magic h e
  Exchanged-Handled d _ (granted _ _ _) e r h p = Exchanged-accepted e r p

get_auth_info-authenticated :
    (w : Connection) (want : Wanted) (passed : ℕ → ℕ) (auth : ℕ) (calls : List Call)
    → Reached w passed auth calls
    → get_auth_info w want
      ≡ authenticated w want (dispatch (registry_handle_global w) w.globals connected) auth
unfolding get_auth_info registered
get_auth_info-authenticated w want passed auth calls r =
    simp (r.calloc_succeeds, r.connects, r.has_registry, r.globals_arrive, r.binds) refl

-- Where the client reaches the server, its calls up to the request succeed, the answers of
-- _send_server_auth_info are carried to it, a posted error makes its second round trip fail, and a
-- descriptor that is passed is not negative, then either the server posted one error, and
-- tbm_drm_helper_get_auth_info returns 0 and stores no descriptor, or the server sent the name, the
-- flags and the descriptor of the device, and the call returns 1 and stores what is wanted of the
-- passed descriptor, the flags, and a copy of the name.
pub get_auth_info-send_server_auth_info :
    (d : Drm) (s : Server) (w : Connection) (want : Wanted) (passed : ℕ → ℕ) (auth : ℕ)
    → Reached w passed auth (send_server_auth_info d s)
    → is_negative (passed (open_drm_device d s.device_name).0) ≡ false
    → Exchanged s w want passed
        (open_drm_device d s.device_name).0
        (answers (send_server_auth_info d s))
        (get_auth_info w want)
get_auth_info-send_server_auth_info d s w want passed auth r p =
    let calls = send_server_auth_info d s in
    let fd = (open_drm_device d s.device_name).0 in
    let c = dispatch (registry_handle_global w) w.globals connected in
    let h = send_server_auth_info-Handled d s in
    let fresh = Fresh-globals w w.globals connected (refl, refl) in
    let (i, t) = answers-carried passed calls in
    let same = answers-answers_and_closes calls in
    let x =
      Exchanged-Handled s w want passed fd auth c d (answers_and_closes calls) h
        (r.infos_carried ∙ (i ∙ sym (ap (received passed) same)))
        (r.infos_end ∙ (t ∙ sym (ap round_trip same))) fresh p in
    subst (λ a. Exchanged s w want passed fd (answers calls) a)
      (sym (get_auth_info-authenticated w want passed auth calls r))
      (subst (λ l. Exchanged s w want passed fd l (authenticated w want c auth)) same x)
