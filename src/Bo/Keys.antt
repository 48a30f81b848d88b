-- ===== src/Bo/Keys.antt =====
-- The user data of a buffer object as a map from keys to pointers.
use libtbm.SurfaceQueue.Invariant.{update_self}
use libtbm.Base.{
  sym, ap, ◌==◌, ◌∙◌, Bool-cases, Option-cases, inl, inr, true, ◌∈◌, ℕ, ◌≡◌, ◌≢◌, refl, none, some,
  List, [], ◌∷◌, arith, Distinct, ◌∉◌, Option,
}
use libtbm.Bo.State.{Bo, Backend, bo_is_valid, Manager, UserData}
use libtbm.Bo.UserData.{
  delete_user_data, set_list, free_data, get_user_data, set_user_data, add_user_data,
  user_data_lookup, store, unlink,
}

abbrev pub keys_of : List UserData → List ℕ
keys_of [] = []
keys_of (d ∷ l) = d.key ∷ keys_of l

-- What `*data` would be.
abbrev pub pointer : Option UserData → Option ℕ
pointer none = none
pointer (some d) = some d.data_ptr

lookup-store :
    (l : List UserData) (key p : ℕ) (x : UserData)
    → user_data_lookup l key ≡ some x
    → pointer (user_data_lookup (store l key p) key) ≡ some p
unfolding user_data_lookup store
lookup-store [] key p x f = absurd (ground arith)
lookup-store (d ∷ l) key p x f = ground (arith, lookup-store l key p x)

lookup-store_ne :
    (l : List UserData) (key p k : ℕ)
    → k ≢ key
    → user_data_lookup (store l key p) k ≡ user_data_lookup l k
unfolding user_data_lookup store
lookup-store_ne [] key p k n = refl
lookup-store_ne (d ∷ l) key p k n = ground (arith, lookup-store_ne l key p k n)

pub lookup-none : (l : List UserData) (key : ℕ) → key ∉ keys_of l → user_data_lookup l key ≡ none
unfolding user_data_lookup
lookup-none [] key n = refl
lookup-none (d ∷ l) key n = ground (arith, lookup-none l key)

lookup-unlink :
    (l : List UserData) (key : ℕ)
    → Distinct (keys_of l)
    → user_data_lookup (unlink l key) key ≡ none
unfolding user_data_lookup unlink
lookup-unlink [] key n = refl
lookup-unlink (d ∷ l) key n = ground (arith, lookup-unlink l key n.1, lookup-none l key)

lookup-unlink_ne :
    (l : List UserData) (key k : ℕ)
    → k ≢ key
    → user_data_lookup (unlink l key) k ≡ user_data_lookup l k
unfolding user_data_lookup unlink
lookup-unlink_ne [] key k n = refl
lookup-unlink_ne (d ∷ l) key k n = ground (arith, lookup-unlink_ne l key k n)

pub lookup-known :
    (l : List UserData) (key : ℕ)
    → key ∈ keys_of l
    → (x : UserData) × (user_data_lookup l key ≡ some x)
unfolding user_data_lookup
lookup-known [] key n = absurd (ground arith)
lookup-known (d ∷ l) key n = elim (Bool-cases (d.key == key)) [
  | inl s ↦ (d, rw s refl)
  | inr s ↦ let r = lookup-known l key (ground arith) in (r.0, rw s r.1)
]

lookup-added :
    (d : UserData) (l : List UserData) (k : ℕ)
    → (k ≡ d.key → user_data_lookup (d ∷ l) k ≡ some d)
      × (k ≢ d.key → user_data_lookup (d ∷ l) k ≡ user_data_lookup l k)
unfolding user_data_lookup
lookup-added d l k = (λ e. ground arith, λ n. ground arith)

pub get_user_data-eq :
    (b k : ℕ) (m : Manager)
    → bo_is_valid m b ≡ true
    → get_user_data b k m ≡ pointer (user_data_lookup (m.bos b).user_data_list k)
unfolding get_user_data
get_user_data-eq b k m v = elim (Option-cases (user_data_lookup (m.bos b).user_data_list k)) [
  | inl n ↦ rw (v, n) refl
  | inr (x, s) ↦ rw (v, s) refl
]

get_user_data-set_list :
    (b k : ℕ) (l : List UserData) (m : Manager)
    → bo_is_valid m b ≡ true
    → get_user_data b k (set_list b l m) ≡ pointer (user_data_lookup l k)
unfolding bo_is_valid
get_user_data-set_list b k l m v =
    get_user_data-eq b k (set_list b l m) v
    ∙ ap (λ (x : Bo). pointer (user_data_lookup x.user_data_list k)) (update_self m.bos b _)

pub free_data-valid :
    (x : UserData) (b : ℕ) (m : Manager) → bo_is_valid (free_data x m) b ≡ bo_is_valid m b
unfolding free_data bo_is_valid
free_data-valid x b m = ground arith

module _ (b key : ℕ) (m : Manager) (valid : bo_is_valid m b ≡ true) where
  -- On a valid buffer object that does not have the key, with memory for the item,
  -- tbm_bo_add_user_data returns 1, tbm_bo_get_user_data then gives NULL for this key, and what it
  -- gives for any other key is as before.
  pub add_user_data_lem :
      (e : Backend) (free_func : ℕ)
      → key ∉ keys_of (m.bos b).user_data_list
      → e.calloc_data m ≡ true
      → let r = add_user_data e b key free_func m in
        (r.0 ≡ 1)
        × (get_user_data b key r.1 ≡ some 0)
        × ((k : ℕ) → k ≢ key → get_user_data b k r.1 ≡ get_user_data b k m)
  unfolding add_user_data
  add_user_data_lem e free_func new got =
      let d : UserData = record { key = key; data_ptr = 0; free_func = free_func } in
      let l = d ∷ (m.bos b).user_data_list in
      let added = lookup-added d (m.bos b).user_data_list in
      rw (valid, lookup-none _ key new, got)
        (
          refl,
          get_user_data-set_list b key l m valid ∙ ap pointer ((added key).0 refl),
          λ k n.
              get_user_data-set_list b k l m valid
              ∙ (ap pointer ((added k).1 n) ∙ sym (get_user_data-eq b k m valid)),
        )

  -- On a valid buffer object that has the key, tbm_bo_set_user_data returns 1, tbm_bo_get_user_data
  -- then gives the new pointer for this key, and what it gives for any other key is as before.
  pub set_user_data_lem :
      (p : ℕ)
      → key ∈ keys_of (m.bos b).user_data_list
      → let r = set_user_data b key p m in
        (r.0 ≡ 1)
        × (get_user_data b key r.1 ≡ some p)
        × ((k : ℕ) → k ≢ key → get_user_data b k r.1 ≡ get_user_data b k m)
  unfolding set_user_data
  set_user_data_lem p known =
      let l = (m.bos b).user_data_list in
      let (x, found) = lookup-known l key known in
      let v = free_data-valid x b m ∙ valid in
      rw (valid, found)
        (
          refl,
          get_user_data-set_list b key (store l key p) (free_data x m) v
              ∙ lookup-store l key p x found,
          λ k n.
              get_user_data-set_list b k (store l key p) (free_data x m) v
              ∙ (ap pointer (lookup-store_ne l key p k n) ∙ sym (get_user_data-eq b k m valid)),
        )

  -- On a valid buffer object that has the key, with distinct keys, tbm_bo_delete_user_data returns
  -- 1, tbm_bo_get_user_data then fails for this key, and what it gives for any other key is as
  -- before.
  pub delete_user_data_lem :
      key ∈ keys_of (m.bos b).user_data_list
      → Distinct (keys_of (m.bos b).user_data_list)
      → let r = delete_user_data b key m in
        (r.0 ≡ 1)
        × (get_user_data b key r.1 ≡ none)
        × ((k : ℕ) → k ≢ key → get_user_data b k r.1 ≡ get_user_data b k m)
  unfolding delete_user_data
  delete_user_data_lem known d =
      let l = (m.bos b).user_data_list in
      let (x, found) = lookup-known l key known in
      let v = free_data-valid x b m ∙ valid in
      rw (valid, found)
        (
          refl,
          get_user_data-set_list b key (unlink l key) (free_data x m) v
              ∙ ap pointer (lookup-unlink l key d),
          λ k n.
              get_user_data-set_list b k (unlink l key) (free_data x m) v
              ∙ (ap pointer (lookup-unlink_ne l key k n) ∙ sym (get_user_data-eq b k m valid)),
        )
