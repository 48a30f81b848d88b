-- ===== src/Bo/KeyRuns.antt =====
-- src/tbm_bufmgr.c: any sequence of operations on the user data of one buffer object, against a
-- function from keys to pointers.
use libtbm.Bo.KeyOps.{
  keys_of-store, keys_of-unlink, add_op, delete_op, set_op, replay_op, changed, run_op, replay_ops,
  run_ops, KeyOp, Pointers,
}
use libtbm.SurfaceQueue.Invariant.{update_self}
use libtbm.Base.{
  subst, ℕ, ◌≡◌, ◌≢◌, refl, sym, ap, ◌∙◌, List, [], ◌∷◌, Option, none, some, true, ◌∈◌, ◌∉◌,
  Distinct, Bool-cases, inl, inr, has, arith, ◌==◌,
}
use libtbm.Bo.State.{Bo, Manager, Backend, UserData, bo_is_valid}
use libtbm.Bo.UserData.{
  add_user_data, set_user_data, delete_user_data, get_user_data, store, unlink, set_list, free_data,
}
use libtbm.Bo.Keys.{
  free_data-valid, pointer, keys_of, add_user_data_lem, set_user_data_lem, delete_user_data_lem,
  lookup-none, lookup-known, get_user_data-eq,
}

-- The manager holds these pointers.
record Holds (b : ℕ) (m : Manager) (f : Pointers) : Type 0 where
  valid : bo_is_valid m b ≡ true
  distinct : Distinct (keys_of (m.bos b).user_data_list)
  agrees : (k : ℕ) → get_user_data b k m ≡ f k

Holds-changed :
    (b : ℕ) (m m1 : Manager) (f : Pointers) (key : ℕ) (x : Option ℕ)
    → Holds b m f
    → bo_is_valid m1 b ≡ true
    → Distinct (keys_of (m1.bos b).user_data_list)
    → get_user_data b key m1 ≡ x
    → ((k : ℕ) → k ≢ key → get_user_data b k m1 ≡ get_user_data b k m)
    → Holds b m1 (changed key x f)
Holds-changed b m m1 f key x h v d at others = record {
  valid = v;
  distinct = d;
  agrees = λ k. elim (Bool-cases (key == k)) [
    | inl e ↦ let s : k ≡ key = ground (arith, e) in rw (e, s) at
    | inr e ↦ rw e (others k (ground (arith, e)) ∙ h.agrees k)
  ];
}

user_data_list-set_list :
    (b : ℕ) (l : List UserData) (m : Manager) → ((set_list b l m).bos b).user_data_list ≡ l
user_data_list-set_list b l m = ap (λ (x : Bo). x.user_data_list) (update_self m.bos b _)

module _ (b : ℕ) (m : Manager) (f : Pointers) (h : Holds b m f) where
  pointer_absent : (key : ℕ) → key ∉ keys_of (m.bos b).user_data_list → f key ≡ none
  pointer_absent key n =
      sym (h.agrees key) ∙ (get_user_data-eq b key m h.valid ∙ ap pointer (lookup-none _ key n))

  pointer_present : (key : ℕ) → key ∈ keys_of (m.bos b).user_data_list → (p : ℕ) × (f key ≡ some p)
  pointer_present key n =
      let (x, s) = lookup-known (m.bos b).user_data_list key n in
      (x.data_ptr, sym (h.agrees key) ∙ (get_user_data-eq b key m h.valid ∙ ap pointer s))

  Holds-set_list :
      (r : ℕ × Manager) (l : List UserData) (m0 : Manager) (key : ℕ) (x : Option ℕ)
      → r ≡ (1, set_list b l m0)
      → bo_is_valid m0 b ≡ true
      → Distinct (keys_of l)
      → get_user_data b key r.1 ≡ x
      → ((k : ℕ) → k ≢ key → get_user_data b k r.1 ≡ get_user_data b k m)
      → Holds b r.1 (changed key x f)
  unfolding bo_is_valid
  Holds-set_list r l m0 key x e v d at others =
      let v1 = ap (λ t. bo_is_valid t.1 b) e ∙ v in
      let keys =
        ap (λ t. keys_of (t.1.bos b).user_data_list) e
        ∙ ap keys_of (user_data_list-set_list b l m0) in
      Holds-changed b m r.1 f key x h v1 (subst Distinct (sym keys) d) at others

  add_user_data-Holds :
      (e : Backend) (key free_func : ℕ)
      → e.calloc_data m ≡ true
      → ((add_user_data e b key free_func m).0 ≡ (replay_op (add_op key free_func) f).0)
        × Holds b (add_user_data e b key free_func m).1 (replay_op (add_op key free_func) f).1
  unfolding add_user_data
  add_user_data-Holds e key free_func got =
      elim (Bool-cases (has key (keys_of (m.bos b).user_data_list))) [
        | inl known ↦
            let (x, s) = lookup-known (m.bos b).user_data_list key known in
            let (p, t) = pointer_present key known in simp (h.valid, s, t) (refl, h)
        | inr new ↦
            let l =
              record { key = key; data_ptr = 0; free_func = free_func }
              ∷ (m.bos b).user_data_list in
            let r = add_user_data_lem b key m h.valid e free_func new got in
            let eq : add_user_data e b key free_func m ≡ (1, set_list b l m) =
              simp (h.valid, lookup-none _ key new, got) refl in
            simp (pointer_absent key new) (
              r.0,
              Holds-set_list (add_user_data e b key free_func m) l m key (some 0) eq h.valid
                  (new, h.distinct) r.1 r.2,
            )
      ]

  set_user_data-Holds :
      (key p : ℕ)
      → ((set_user_data b key p m).0 ≡ (replay_op (set_op key p) f).0)
        × Holds b (set_user_data b key p m).1 (replay_op (set_op key p) f).1
  unfolding set_user_data
  set_user_data-Holds key p = elim (Bool-cases (has key (keys_of (m.bos b).user_data_list))) [
    | inl known ↦
        let (x, s) = lookup-known (m.bos b).user_data_list key known in
        let (q, t) = pointer_present key known in
        let r = set_user_data_lem b key m h.valid p known in
        let l = store (m.bos b).user_data_list key p in
        let eq : set_user_data b key p m ≡ (1, set_list b l (free_data x m)) =
          simp (h.valid, s) refl in
        let d = subst Distinct (sym (keys_of-store (m.bos b).user_data_list key p)) h.distinct in
        simp t (
          r.0,
          Holds-set_list (set_user_data b key p m) l (free_data x m) key (some p) eq
              (free_data-valid x b m ∙ h.valid) d r.1 r.2,
        )
    | inr new ↦
        simp (h.valid, lookup-none (m.bos b).user_data_list key new, pointer_absent key new)
          (refl, h)
  ]

  delete_user_data-Holds :
      (key : ℕ)
      → ((delete_user_data b key m).0 ≡ (replay_op (delete_op key) f).0)
        × Holds b (delete_user_data b key m).1 (replay_op (delete_op key) f).1
  unfolding delete_user_data
  delete_user_data-Holds key = elim (Bool-cases (has key (keys_of (m.bos b).user_data_list))) [
    | inl known ↦
        let (x, s) = lookup-known (m.bos b).user_data_list key known in
        let (q, t) = pointer_present key known in
        let r = delete_user_data_lem b key m h.valid known h.distinct in
        let l = unlink (m.bos b).user_data_list key in
        let eq : delete_user_data b key m ≡ (1, set_list b l (free_data x m)) =
          simp (h.valid, s) refl in
        let d = keys_of-unlink (m.bos b).user_data_list key h.distinct in
        simp t (
          r.0,
          Holds-set_list (delete_user_data b key m) l (free_data x m) key none eq
              (free_data-valid x b m ∙ h.valid) d r.1 r.2,
        )
    | inr new ↦
        simp (h.valid, lookup-none (m.bos b).user_data_list key new, pointer_absent key new)
          (refl, h)
  ]

module _ (e : Backend) (b : ℕ) (memory : (m : Manager) → e.calloc_data m ≡ true) where
  Holds-op :
      (o : KeyOp) (m : Manager) (f : Pointers)
      → Holds b m f
      → ((run_op e b o m).0 ≡ (replay_op o f).0) × Holds b (run_op e b o m).1 (replay_op o f).1
  Holds-op (add_op key free_func) m f h = add_user_data-Holds b m f h e key free_func (memory m)
  Holds-op (set_op key p) m f h = set_user_data-Holds b m f h key p
  Holds-op (delete_op key) m f h = delete_user_data-Holds b m f h key

  Holds-ops :
      (l : List KeyOp) (m : Manager) (f : Pointers)
      → Holds b m f
      → ((run_ops e b l m).0 ≡ (replay_ops l f).0) × Holds b (run_ops e b l m).1 (replay_ops l f).1
  unfolding run_ops
  Holds-ops [] m f h = (refl, h)
  Holds-ops (o ∷ l) m f h =
      let (r, h1) = Holds-op o m f h in
      let (s, h2) = Holds-ops l (run_op e b o m).1 (replay_op o f).1 h1 in (λ i. r i ∷ s i, h2)

  -- On a valid buffer object whose keys are distinct, and with memory for every item, any sequence
  -- of tbm_bo_add_user_data, tbm_bo_set_user_data and tbm_bo_delete_user_data returns what the same
  -- operations on a function from keys to pointers return, where an addition succeeds for a key
  -- that is absent and sets NULL, and the other two succeed for a key that is there; and
  -- tbm_bo_get_user_data then gives for each key what that function gives.
  pub run_ops-replay_ops :
      (l : List KeyOp) (m : Manager)
      → bo_is_valid m b ≡ true
      → Distinct (keys_of (m.bos b).user_data_list)
      → ((run_ops e b l m).0 ≡ (replay_ops l (λ k. get_user_data b k m)).0)
        × ((k : ℕ)
            → get_user_data b k (run_ops e b l m).1 ≡ (replay_ops l (λ k. get_user_data b k m)).1 k)
  run_ops-replay_ops l m v d =
      let start : Holds b m (λ k. get_user_data b k m) = record {
        valid = v;
        distinct = d;
        agrees = λ k. refl;
      } in
      let (r, h) = Holds-ops l m (λ k. get_user_data b k m) start in (r, h.agrees)
