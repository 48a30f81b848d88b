-- ===== src/Links.antt =====
-- list.h: the intrusive doubly linked list. A `struct list_head` is known by its address, a number,
-- and the memory of all of them is the two functions `next` and `prev`.
pub mod Ring
pub mod Steps
mod Examples
use libtbm.Base.{ℕ, Bool, ◌==◌, if◌then◌else◌}

pub record Links : Type 0 where
  pub next : ℕ → ℕ
  pub prev : ℕ → ℕ

-- `f[p] = v`
abbrev pub update {ℓ} : {A : Type ℓ} → (ℕ → A) → ℕ → A → ℕ → A
update f p v q = if p == q then v else f q

abbrev pub set_next : ℕ → ℕ → Links → Links
set_next p v m = record m { next = update m.next p v }

abbrev pub set_prev : ℕ → ℕ → Links → Links
set_prev p v m = record m { prev = update m.prev p v }

unfoldable pub list_inithead : ℕ → Links → Links
list_inithead item m = set_next item item (set_prev item item m)

unfoldable pub list_add : ℕ → ℕ → Links → Links
list_add item list m =
    let m1 = set_prev item list m in
    let m2 = set_next item (m1.next list) m1 in
    let m3 = set_prev (m2.next list) item m2 in set_next list item m3

unfoldable pub list_addtail : ℕ → ℕ → Links → Links
list_addtail item list m =
    let m1 = set_next item list m in
    let m2 = set_prev item (m1.prev list) m1 in
    let m3 = set_next (m2.prev list) item m2 in set_prev list item m3

unfoldable pub list_replace : ℕ → ℕ → Links → Links
list_replace from to m =
    let m1 = set_prev to (m.prev from) m in
    let m2 = set_next to (m1.next from) m1 in
    let m3 = set_prev (m2.next from) to m2 in set_next (m3.prev from) to m3

-- The pointers of the item are not tested. Where they are NULL or lead to memory that was freed, the C
-- code has no defined behaviour; here the cell with that address changes.
unfoldable pub list_del : ℕ → Links → Links
list_del item m =
    let m1 = set_next (m.prev item) (m.next item) m in set_prev (m1.next item) (m1.prev item) m1

unfoldable pub list_delinit : ℕ → Links → Links
list_delinit item m =
    let m1 = set_next (m.prev item) (m.next item) m in
    let m2 = set_prev (m1.next item) (m1.prev item) m1 in set_prev item item (set_next item item m2)

-- `LIST_IS_EMPTY`
unfoldable pub list_is_empty : ℕ → Links → Bool
list_is_empty list m = m.next list == list
