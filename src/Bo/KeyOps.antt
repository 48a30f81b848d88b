-- ===== src/Bo/KeyOps.antt =====
-- src/tbm_bufmgr.c: sequences of operations on the user data of a buffer object, and the same on a
-- function from keys to pointers.
use libtbm.Base.{
  ℕ, ◌≡◌, refl, ap, List, [], ◌∷◌, Option, none, some, ◌∉◌, Distinct, Bool-cases, inl, inr, arith,
  ◌==◌, if◌then◌else◌,
}
use libtbm.Bo.State.{Manager, Backend, UserData}
use libtbm.Bo.UserData.{add_user_data, set_user_data, delete_user_data, store, unlink}
use libtbm.Bo.Keys.{keys_of}

pub data KeyOp : Type 0 where
  add_op : (key free_func : ℕ) → KeyOp
  set_op : (key data_ptr : ℕ) → KeyOp
  delete_op : (key : ℕ) → KeyOp

abbrev pub run_op : Backend → (bo : ℕ) → KeyOp → Manager → ℕ × Manager
run_op e b (add_op key free_func) m = add_user_data e b key free_func m
run_op e b (set_op key p) m = set_user_data b key p m
run_op e b (delete_op key) m = delete_user_data b key m

-- What each returns, in order, and the manager in the end.
unfoldable pub run_ops : Backend → (bo : ℕ) → List KeyOp → Manager → List ℕ × Manager
run_ops e b [] m = ([], m)
run_ops e b (o ∷ l) m =
    let r = run_op e b o m in let rest = run_ops e b l r.1 in (r.0 ∷ rest.0, rest.1)

-- The pointer of each key that is there.
abbrev pub Pointers : Type 0
Pointers = ℕ → Option ℕ

abbrev pub changed : ℕ → Option ℕ → Pointers → Pointers
changed key x f k = if key == k then x else f k

abbrev pub where_absent : Option ℕ → Pointers → Pointers → ℕ × Pointers
where_absent none g f = (1, g)
where_absent (some x) g f = (0, f)

abbrev pub where_present : Option ℕ → Pointers → Pointers → ℕ × Pointers
where_present none g f = (0, f)
where_present (some x) g f = (1, g)

abbrev pub replay_op : KeyOp → Pointers → ℕ × Pointers
replay_op (add_op key free_func) f = where_absent (f key) (changed key (some 0) f) f
replay_op (set_op key p) f = where_present (f key) (changed key (some p) f) f
replay_op (delete_op key) f = where_present (f key) (changed key none f) f

abbrev pub replay_ops : List KeyOp → Pointers → List ℕ × Pointers
replay_ops [] f = ([], f)
replay_ops (o ∷ l) f =
    let r = replay_op o f in let rest = replay_ops l r.1 in (r.0 ∷ rest.0, rest.1)

pub keys_of-store : (l : List UserData) (key p : ℕ) → keys_of (store l key p) ≡ keys_of l
unfolding store
keys_of-store [] key p = refl
keys_of-store (d ∷ l) key p = elim (Bool-cases (d.key == key)) [
  | inl e ↦ rw e refl
  | inr e ↦ rw e (ap (λ t. d.key ∷ t) (keys_of-store l key p))
]

unlink-mem : (l : List UserData) (key k : ℕ) → k ∉ keys_of l → k ∉ keys_of (unlink l key)
unfolding unlink
unlink-mem [] key k n = refl
unlink-mem (d ∷ l) key k n = elim (Bool-cases (d.key == key)) [
  | inl e ↦ rw e (ground (arith, n))
  | inr e ↦ let r = unlink-mem l key k (ground (arith, n)) in rw e (ground (arith, n, r))
]

pub keys_of-unlink :
    (l : List UserData) (key : ℕ) → Distinct (keys_of l) → Distinct (keys_of (unlink l key))
unfolding unlink
keys_of-unlink [] key d = tt
keys_of-unlink (x ∷ l) key d = elim (Bool-cases (x.key == key)) [
  | inl e ↦ rw e d.1
  | inr e ↦ rw e (unlink-mem l key x.key d.0, keys_of-unlink l key d.1)
]
