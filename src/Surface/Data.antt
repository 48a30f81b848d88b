-- ===== src/Surface/Data.antt =====
-- src/tbm_surface_internal.c: user data and debug data of a surface.
use libtbm.Base.{
  ℕ, Bool, true, false, not, ◌&&◌, ◌||◌, List, [], ◌∷◌, Option, none, some, ◌==◌, if◌then◌else◌,
}
use libtbm.Bo.State.{UserData}
use libtbm.Bo.UserData.{user_data_lookup, free_data, unlink, store}
use libtbm.Surface.State.{Surfaces, Platform, DebugData, set_surf, set_mgr, surf_is_valid}

abbrev pub set_user_list : ℕ → List UserData → Surfaces → Surfaces
set_user_list s l w = set_surf s (record (w.surfs s) { user_data_list = l }) w

-- `tbm_surface_internal_add_user_data`
unfoldable pub surface_add_user_data : Platform → (s key free_func : ℕ) → Surfaces → ℕ × Surfaces
surface_add_user_data e s key free_func w =
    if not (surf_is_valid w s)
    then (0, w)
    else elim (user_data_lookup (w.surfs s).user_data_list key) [
      | some d ↦ (0, w)
      | none ↦
          if e.back.calloc_data w.mgr
          then (
            1,
            set_user_list s
                (record { key = key; data_ptr = 0; free_func = free_func }
                  ∷ (w.surfs s).user_data_list)
                w,
          )
          else (0, w)
    ]

-- `tbm_surface_internal_set_user_data`
unfoldable pub surface_set_user_data : (s key data_ptr : ℕ) → Surfaces → ℕ × Surfaces
surface_set_user_data s key data_ptr w =
    if not (surf_is_valid w s)
    then (0, w)
    else elim (user_data_lookup (w.surfs s).user_data_list key) [
      | none ↦ (0, w)
      | some d ↦ (
        1,
        set_user_list s (store (w.surfs s).user_data_list key data_ptr)
            (set_mgr (free_data d w.mgr) w),
      )
    ]

-- `tbm_surface_internal_get_user_data`, where `data` is not NULL: `*data`, and `none` for the result 0.
unfoldable pub surface_get_user_data : (s key : ℕ) → Surfaces → Option ℕ
surface_get_user_data s key w =
    if not (surf_is_valid w s)
    then none
    else elim (user_data_lookup (w.surfs s).user_data_list key) [
      | none ↦ none
      | some d ↦ some d.data_ptr
    ]

-- `tbm_surface_internal_delete_user_data`
unfoldable pub surface_delete_user_data : (s key : ℕ) → Surfaces → ℕ × Surfaces
surface_delete_user_data s key w =
    if not (surf_is_valid w s)
    then (0, w)
    else elim (user_data_lookup (w.surfs s).user_data_list key) [
      | none ↦ (0, w)
      | some d ↦ (
        1,
        set_user_list s (unlink (w.surfs s).user_data_list key) (set_mgr (free_data d w.mgr) w),
      )
    ]

-- `!strcmp(a, b)`
unfoldable pub str_eq : List ℕ → List ℕ → Bool
str_eq [] [] = true
str_eq (x ∷ a) (y ∷ b) = x == y && str_eq a b
str_eq [] (y ∷ b) = false
str_eq (x ∷ a) [] = false

-- `!strncmp(a, b, strlen(a))`
unfoldable pub is_prefix : List ℕ → List ℕ → Bool
is_prefix [] b = true
is_prefix (x ∷ a) [] = false
is_prefix (x ∷ a) (y ∷ b) = x == y && is_prefix a b

-- `old_data->value && value && !strncmp(…)`
unfoldable pub same_value : Option (List ℕ) → Option (List ℕ) → Bool
same_value none v = false
same_value (some a) none = false
same_value (some a) (some b) = is_prefix a b

-- The loop of `tbm_surface_internal_set_debug_data` over the debug data: whether it jumped to
-- `add_debug_key_list`, and the list as it leaves it.
unfoldable pub overwrite : (key : List ℕ) → Option (List ℕ) → List DebugData → Bool × List DebugData
overwrite key value [] = (false, [])
overwrite key value (d ∷ l) =
    let rest = overwrite key value l in
    if not (str_eq d.key key)
    then (rest.0, d ∷ rest.1)
    else if same_value d.value value
    then (true, d ∷ l)
    else (rest.0, record d { value = value } ∷ rest.1)

-- Its end: the key is noted with the buffer manager.
unfoldable pub has_key : (key : List ℕ) → List (List ℕ) → Bool
has_key key [] = false
has_key key (k ∷ l) = str_eq k key || has_key key l

unfoldable pub note_key : (key : List ℕ) → Surfaces → Surfaces
note_key key w =
    if has_key key w.debug_key_list then w else record w { debug_key_list = key ∷ w.debug_key_list }

-- `tbm_surface_internal_set_debug_data`. There is always memory for copies and for the list of keys.
unfoldable pub set_debug_data :
    Platform → (s : ℕ) → (key : List ℕ) → Option (List ℕ) → Surfaces → ℕ × Surfaces
set_debug_data e s key value w =
    let r = overwrite key value (w.surfs s).debug_data_list in
    let w1 = set_surf s (record (w.surfs s) { debug_data_list = r.1 }) w in
    let added =
      set_surf s
        (record (w.surfs s) { debug_data_list = record { key = key; value = value } ∷ r.1 }) w in
    if not (surf_is_valid w s)
    then (0, w)
    else if r.0
    then (1, note_key key w1)
    else if e.calloc_debug w
    then (1, note_key key added)
    else (0, w1)

-- `_tbm_surface_internal_get_debug_data`
unfoldable pub debug_value : (key : List ℕ) → List DebugData → Option (List ℕ)
debug_value key [] = none
debug_value key (d ∷ l) = if str_eq d.key key then d.value else debug_value key l

unfoldable pub get_debug_data : (s : ℕ) → (key : List ℕ) → Surfaces → Option (List ℕ)
get_debug_data s key w = if s == 0 then none else debug_value key (w.surfs s).debug_data_list
