-- ===== src/Tests/LinkedList.antt =====
-- Lists of two and three items (src/linked_list.c).
use disastr_os_semaphores.Common.{ℕ, pos, ◌≡◌, refl, some, [], ◌∷◌, arith, if◌then◌else◌, ◌==◌}
use disastr_os_semaphores.LinkedList.{Links, ListHead, item_of, list_insert, list_detach}
use disastr_os_semaphores.LinkedList.Seg.{IsList, SameOutside}
use disastr_os_semaphores.LinkedList.Insert.{IsFree, list_insert-IsList}
use disastr_os_semaphores.LinkedList.Detach.{list_detach-IsList}
use disastr_os_semaphores.LinkedList.Find.{list_detach-list_insert}

-- The items 8 and 16, linked; every other item is free.
abbrev two_items : Links
two_items a = if a == 8 then item_of 0 16 else if a == 16 then item_of 8 0 else item_of 0 0

abbrev two_head : ListHead
two_head = record { first = 8; last = 16; size = pos 2 }

two_items-IsList : IsList two_items two_head (8 ∷ 16 ∷ [])
two_items-IsList = record {
  first = refl;
  last = refl;
  size = refl;
  small = omega arith;
  seg = (omega arith, refl, refl, (omega arith, refl, refl, tt));
}

two_items-IsFree : IsFree two_items 24
two_items-IsFree = record { ne_null = omega arith; unlinked = refl }

-- Between the two.
list_insert-IsList_example :
    (l' : Links) × (h' : ListHead) × (list_insert two_items two_head 8 24 ≡ some (24, l', h'))
    × IsList l' h' (8 ∷ 24 ∷ 16 ∷ [])
    × SameOutside (24 ∷ 8 ∷ 16 ∷ []) two_items l'
list_insert-IsList_example =
    list_insert-IsList two_items two_head 24 (8 ∷ []) (16 ∷ []) two_items-IsList two_items-IsFree
      refl (omega arith)

list_detach-IsList_example :
    (l' : Links) × (h' : ListHead) × (list_detach two_items two_head 8 ≡ some (8, l', h'))
    × IsList l' h' (16 ∷ [])
    × IsFree l' 8
    × SameOutside (8 ∷ 16 ∷ []) two_items l'
list_detach-IsList_example = list_detach-IsList two_items two_head 8 [] (16 ∷ []) two_items-IsList

list_detach-list_insert_example :
    (l' l'' : Links) × (h' h'' : ListHead) × (list_insert two_items two_head 16 24
      ≡ some (24, l', h'))
    × (list_detach l' h' 24 ≡ some (24, l'', h''))
    × IsList l'' h'' (8 ∷ 16 ∷ [])
    × ((a : ℕ) → l'' a ≡ two_items a)
list_detach-list_insert_example =
    list_detach-list_insert two_items two_head 24 (8 ∷ 16 ∷ []) [] two_items-IsList two_items-IsFree
      refl (omega arith)
