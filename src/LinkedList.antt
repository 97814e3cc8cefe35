-- ===== src/LinkedList.antt =====
-- src/linked_list.c and linked_list.h: the intrusive doubly linked list of the kernel.
-- Every struct that is linked has its `ListItem` first, so an item is the address of its struct.
-- The kernel's structs live in static buffers: only NULL cannot be dereferenced, which is `none`.
-- `_LIST_DEBUG_` is not defined by the Makefile, so its assertions are not compiled.
pub mod Seg
pub mod Apart
pub mod Writes
pub mod Insert
pub mod Detach
pub mod Find
use disastr_os_semaphores.Common.{
  ℕ, zero, suc, Bool, ◌||◌, Option, none, some, ◌==◌, is_set, if◌then◌else◌, ℤ, pos, int_add,
  int_sub,
}

abbrev pub null : ℕ
null = 0

pub record ListItem : Type 0 where
  pub prev : ℕ
  pub next : ℕ

abbrev pub item_of : ℕ → ℕ → ListItem
item_of p n = record { prev = p; next = n }

-- `size` is an `int`.
pub record ListHead : Type 0 where
  pub first : ℕ
  pub last : ℕ
  pub size : ℤ

-- The `ListItem` at each address.
abbrev pub Links : Type 0
Links = ℕ → ListItem

-- `a->prev = p`, `a->next = n`.
unfoldable pub set_prev : Links → ℕ → ℕ → Links
set_prev l a p b = if b == a then item_of p (l b).next else l b

unfoldable pub set_next : Links → ℕ → ℕ → Links
set_next l a n b = if b == a then item_of (l b).prev n else l b

unfoldable pub list_init : ListHead
list_init = record { first = null; last = null; size = pos 0 }

-- The loop of `List_find` from `aux` on; `none` is the end of the fuel.
find_from : Links → (item : ℕ) → ℕ → (aux : ℕ) → Option ℕ
find_from l item zero aux = none
find_from l item (suc fuel) aux =
    let rest = find_from l item fuel (l aux).next in
    if is_set aux then if aux == item then some item else rest else some null

pub list_find : ℕ → Links → ListHead → (item : ℕ) → Option ℕ
unfolding find_from
list_find fuel l h item = find_from l item fuel h.first

-- The writes of `List_insert` to the items and to the head, `next` being `prev->next` or `first`.
pub insert_links : Links → (prev item next : ℕ) → Links
unfolding set_prev set_next
insert_links l prev item next =
    let l' = if is_set prev then set_next (set_prev l item prev) prev item else l in
    if is_set next then set_prev (set_next l' item next) next item else l'

insert_head : ListHead → (prev item next : ℕ) → ListHead
unfolding int_add
insert_head h prev item next = record {
  first = if is_set prev then h.first else item;
  last = if is_set next then h.last else item;
  size = int_add h.size (pos 1);
}

-- `List_insert`: the returned item (NULL if it is linked already), the items and the head.
unfoldable pub list_insert : Links → ListHead → (prev item : ℕ) → Option (ℕ × Links × ListHead)
unfolding insert_links insert_head
list_insert l h prev item =
    if item == null
    then none
    else if is_set (l item).next || is_set (l item).prev
    then some (null, l, h)
    else let next = if is_set prev then (l prev).next else h.first in
      some (item, insert_links l prev item next, insert_head h prev item next)

-- The writes of `List_detach`.
detach_links : Links → (prev item next : ℕ) → Links
unfolding set_prev set_next
detach_links l prev item next =
    let l' = if is_set prev then set_next l prev next else l in
    let l'' = if is_set next then set_prev l' next prev else l' in
    set_next (set_prev l'' item null) item null

detach_head : ListHead → (prev item next : ℕ) → ListHead
unfolding int_sub
detach_head h prev item next = record {
  first = if item == h.first then next else h.first;
  last = if item == h.last then prev else h.last;
  size = int_sub h.size (pos 1);
}

-- `List_detach`, which does not look whether the item is in this list.
unfoldable pub list_detach : Links → ListHead → (item : ℕ) → Option (ℕ × Links × ListHead)
unfolding detach_links detach_head
list_detach l h item =
    if item == null
    then none
    else some (
      item,
      detach_links l (l item).prev item (l item).next,
      detach_head h (l item).prev item (l item).next,
    )
