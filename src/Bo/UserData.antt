-- ===== src/Bo/UserData.antt =====
-- src/tbm_bufmgr.c: the user data of a buffer object. The newest item comes first.
use libtbm.Base.{ℕ, not, List, [], ◌∷◌, Option, none, some, ◌||◌, ◌==◌, if◌then◌else◌}
use libtbm.Bo.State.{UserData, Manager, Backend, free_func_call, ask, set_bo, bo_is_valid}

-- `user_data_lookup`
unfoldable pub user_data_lookup : List UserData → ℕ → Option UserData
user_data_lookup [] key = none
user_data_lookup (d ∷ l) key = if d.key == key then some d else user_data_lookup l key

-- `free_func` on the data, where both are there.
unfoldable pub free_data : UserData → Manager → Manager
free_data d m =
    if (d.data_ptr == 0) || (d.free_func == 0)
    then m
    else ask (free_func_call d.free_func d.data_ptr) m

-- The list without the item that `user_data_lookup` finds.
unfoldable pub unlink : List UserData → ℕ → List UserData
unlink [] key = []
unlink (d ∷ l) key = if d.key == key then l else d ∷ unlink l key

-- The list with other data in the item that `user_data_lookup` finds.
unfoldable pub store : List UserData → (key data_ptr : ℕ) → List UserData
store [] key data_ptr = []
store (d ∷ l) key data_ptr =
    if d.key == key then record d { data_ptr = data_ptr } ∷ l else d ∷ store l key data_ptr

abbrev pub set_list : ℕ → List UserData → Manager → Manager
set_list b l m = set_bo b (record (m.bos b) { user_data_list = l }) m

-- `tbm_bo_add_user_data`
unfoldable pub add_user_data : Backend → (bo key free_func : ℕ) → Manager → ℕ × Manager
add_user_data e b key free_func m =
    if not (bo_is_valid m b) then (0, m) else elim (user_data_lookup (m.bos b).user_data_list key) [
      | some d ↦ (0, m)
      | none ↦
          if e.calloc_data m
          then (
            1,
            set_list b
                (record { key = key; data_ptr = 0; free_func = free_func }
                  ∷ (m.bos b).user_data_list)
                m,
          )
          else (0, m)
    ]

-- `tbm_bo_set_user_data`
unfoldable pub set_user_data : (bo key data_ptr : ℕ) → Manager → ℕ × Manager
set_user_data b key data_ptr m =
    if not (bo_is_valid m b) then (0, m) else elim (user_data_lookup (m.bos b).user_data_list key) [
      | none ↦ (0, m)
      | some d ↦ (1, set_list b (store (m.bos b).user_data_list key data_ptr) (free_data d m))
    ]

-- `tbm_bo_get_user_data`, where `data` is not NULL: `*data`, and `none` for the result 0, before which
-- `*data` has been set to NULL unless the list is empty.
unfoldable pub get_user_data : (bo key : ℕ) → Manager → Option ℕ
get_user_data b key m =
    if not (bo_is_valid m b) then none else elim (user_data_lookup (m.bos b).user_data_list key) [
      | none ↦ none
      | some d ↦ some d.data_ptr
    ]

-- `tbm_bo_delete_user_data`
unfoldable pub delete_user_data : (bo key : ℕ) → Manager → ℕ × Manager
delete_user_data b key m =
    if not (bo_is_valid m b) then (0, m) else elim (user_data_lookup (m.bos b).user_data_list key) [
      | none ↦ (0, m)
      | some d ↦ (1, set_list b (unlink (m.bos b).user_data_list key) (free_data d m))
    ]
