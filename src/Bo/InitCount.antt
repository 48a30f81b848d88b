-- ===== src/Bo/InitCount.antt =====
-- src/tbm_bufmgr.c: `tbm_bufmgr_deinit` undoes `tbm_bufmgr_init`.
use libtbm.Base.{
  ◌⊎◌, if_true, if_false, ℕ, ◌+◌, ◌<◌, ◌^◌, ◌≡◌, ◌≢◌, refl, ap, ◌∙◌, sym, true, false, Bool-cases,
  inl, inr, arith, ◌==◌, not, is_positive,
}
use libtbm.SurfaceQueue.State.{inc32, dec32}
use libtbm.Bo.State.{Manager, Backend}
use libtbm.Bo.Init.{System, bufmgr_init, bufmgr_deinit, shut_down}

init-live :
    (s : System) (m : Manager)
    → m.live ≡ true
    → bufmgr_init s m ≡ (m.address, record m { ref_count = inc32 m.ref_count })
unfolding bufmgr_init
init-live s m l = if_true m.live _ _ l

deinit-one :
    (e : Backend) (m : Manager)
    → m.live ≡ true
    → m.address ≢ 0
    → 0 < m.ref_count
    → m.ref_count + 1 < 2 ^ 31
    → bufmgr_deinit e m.address (record m { ref_count = inc32 m.ref_count }) ≡ m
unfolding bufmgr_deinit
deinit-one e m l n pos small =
    let c : dec32 (inc32 m.ref_count) ≡ m.ref_count = omega arith in
    if_false (m.address == 0) _ _ (ground arith)
    ∙ (if_false (not m.live) _ _ (ap not l)
        ∙ (if_true (is_positive (dec32 (inc32 m.ref_count))) _ _ (ground arith)
            ∙ ap (λ x. record m { ref_count = x }) c))

abbrev Undone : Backend → System → Manager → Type 0
Undone e s m =
    let r = bufmgr_init s m in
    r.0 ≢ 0
    → let q = bufmgr_deinit e r.0 r.1 in
      (r.1.live ≡ true) × (q.live ≡ m.live) × (m.live ≡ true → q ≡ m)

deinit-last :
    (e : Backend) (a : ℕ) (r : Manager)
    → a ≢ 0
    → r.live ≡ true
    → r.ref_count ≡ 1
    → (bufmgr_deinit e a r).live ≡ false
unfolding bufmgr_deinit shut_down
deinit-last e a r n l one =
    ap (λ (x : Manager). x.live)
      (if_false (a == 0) _ _ (ground arith)
        ∙ (if_false (not r.live) _ _ (ap not l)
            ∙ if_false (is_positive (dec32 r.ref_count)) _ _ (ground arith)))

-- The manager that is new.
init-new :
    (s : System) (m : Manager)
    → m.live ≡ false
    → (s.calloc_bufmgr m == 0) ≡ false
    → s.load_module m ≡ true
    → (r : Manager) × (bufmgr_init s m ≡ (s.calloc_bufmgr m, r))
      × (r.live ≡ true)
      × (r.ref_count ≡ 1)
unfolding bufmgr_init
init-new s m l z f = (
  _,
  if_false m.live _ _ l
      ∙ (if_false (s.calloc_bufmgr m == 0) _ _ z ∙ if_false (not (s.load_module m)) _ _ (ap not f)),
  refl,
  refl,
)

-- No manager.
init-none :
    (s : System) (m : Manager)
    → m.live ≡ false
    → ((s.calloc_bufmgr m == 0) ≡ true) ⊎ (s.load_module m ≡ false)
    → (bufmgr_init s m).0 ≡ 0
unfolding bufmgr_init
init-none s m l c = ground (arith, l, c)

Undone-new : (e : Backend) (s : System) (m : Manager) → m.live ≡ false → Undone e s m
Undone-new e s m l = elim (Bool-cases (s.calloc_bufmgr m == 0)) [
  | inl z ↦ λ n. absurd (n (init-none s m l (inl z)))
  | inr z ↦ elim (Bool-cases (s.load_module m)) [
    | inr f ↦ λ n. absurd (n (init-none s m l (inr f)))
    | inl f ↦
        let (r, i, live, one) = init-new s m l z f in
        rw i (λ n. (
          live,
          deinit-last e (s.calloc_bufmgr m) r n live one ∙ sym l,
          λ h. absurd (ground (arith, h, l)),
        ))
  ]
]

-- Where tbm_bufmgr_init gives a buffer manager, it is live; tbm_bufmgr_deinit of it then leaves a
-- live one exactly where there was one before, and a manager that was live is then as it was before
-- both (with an address that is not NULL, a positive reference count, and room for one more).
pub bufmgr_init-deinit :
    (e : Backend) (s : System) (m : Manager)
    → m.address ≢ 0
    → 0 < m.ref_count
    → m.ref_count + 1 < 2 ^ 31
    → let r = bufmgr_init s m in
      r.0 ≢ 0
      → let q = bufmgr_deinit e r.0 r.1 in
        (r.1.live ≡ true) × (q.live ≡ m.live) × (m.live ≡ true → q ≡ m)
bufmgr_init-deinit e s m n pos small = elim (Bool-cases m.live) [
  | inl l ↦
      rw (init-live s m l)
        (λ k. let d = deinit-one e m l n pos small in (l, ap (λ x. x.live) d, λ h. d))
  | inr l ↦ Undone-new e s m l
]
