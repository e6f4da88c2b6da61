-- ===== src/Links.antt =====
-- include/sancus/list.h: doubly linked lists whose elements are embedded in the caller's structs. A
-- list is a ring through its head. The store maps the address of every live element to its links;
-- a function that updates elements returns the new store.
pub mod Ring
pub mod Update
pub mod Walk
pub mod Swap
pub mod Runs
mod Tests
use sancus_core.Base.{
  ℕ, zero, suc, ◌-◌, Bool, true, false, Option, none, some, ◌==◌, if◌then◌else◌, ◌||◌,
}
use sancus_core.Base.Int.{ℤ, pos, negsuc}

-- `struct sancus_list`
pub record Element : Type 0 where
  pub prev : ℕ
  pub next : ℕ

abbrev pub Heap : Type 0
Heap = ℕ → Element

-- `*p = e`
abbrev pub set : Heap → ℕ → Element → Heap
set h p e q = if q == p then e else h q

abbrev pub set_next : Heap → ℕ → ℕ → Heap
set_next h p n = set h p (record (h p) { next = n })

abbrev pub set_prev : Heap → ℕ → ℕ → Heap
set_prev h p n = set h p (record (h p) { prev = n })

-- `sancus_list_init`, and `DECL_SANCUS_LIST`
abbrev pub init : Heap → ℕ → Heap
init h self = set h self (record { prev = self; next = self })

-- `sancus_list__inject`
unfoldable pub inject : Heap → ℕ → ℕ → ℕ → Heap
inject h self prev next =
    set_prev (set_next (set h self (record { prev = prev; next = next })) prev self) next self

-- `sancus_list_insert_before`, `sancus_list_insert` and `sancus_list_append`
abbrev pub insert_before : Heap → ℕ → ℕ → Heap
insert_before h i n = inject h i (h n).prev n

abbrev pub insert : Heap → ℕ → ℕ → Heap
insert h head i = inject h i head (h head).next

abbrev pub append : Heap → ℕ → ℕ → Heap
append h head i = inject h i (h head).prev head

-- `sancus_list__del` and `sancus_list_del`
unfoldable pub unlink : Heap → ℕ → ℕ → Heap
unlink h prev next = set_next (set_prev h next prev) prev next

abbrev pub del : Heap → ℕ → Heap
del h s = unlink h (h s).prev (h s).next

-- `sancus_list_swap`
unfoldable pub swap : Heap → ℕ → ℕ → Heap
swap h a b = set (set h a (h b)) b (h a)

-- The loop of `sancus_list_get`, over `sancus_list_foreach` with `step` the next elements, or over
-- `sancus_list_foreach_back` with the previous ones; `skip` elements are passed over. The outer
-- option is `none` where the fuel ran out, the inner one is the pointer that is returned.
unfoldable pub get_from : (ℕ → ℕ) → ℕ → ℕ → ℕ → ℕ → Option (Option ℕ)
get_from step head zero i skip = none
get_from step head (suc fuel) i zero = some (if i == head then none else some i)
get_from step head (suc fuel) i (suc skip) =
    let rest = get_from step head fuel (step i) skip in if i == head then some none else rest

-- `sancus_list_get`
unfoldable pub get : Heap → ℕ → ℕ → ℤ → Option (Option ℕ)
get h fuel head (pos n) = get_from (λ i. (h i).next) head fuel (h head).next n
get h fuel head (negsuc n) = get_from (λ i. (h i).prev) head fuel (h head).prev n

-- The loop of `sancus_list_size`.
unfoldable pub size_from : Heap → ℕ → ℕ → ℕ → ℕ → Option ℕ
size_from h head zero item i = none
size_from h head (suc fuel) item i =
    let rest = size_from h head fuel (h item).next (suc i) in if item == head then some i else rest

-- `sancus_list_size`
abbrev pub size : Heap → ℕ → ℕ → Option ℕ
size h fuel head = size_from h head fuel (h head).next 0

-- `sancus_list_is_empty`, `sancus_list_first`, `sancus_list_last` and `sancus_list_next`
abbrev pub is_empty : Heap → ℕ → Bool
is_empty h head = (h head).next == head

unfoldable pub first : Heap → ℕ → Option ℕ
first h head = if is_empty h head then none else some (h head).next

unfoldable pub last : Heap → ℕ → Option ℕ
last h head = if is_empty h head then none else some (h head).prev

unfoldable pub next : Heap → Option ℕ → Option ℕ → Option ℕ
next h none e = none
next h (some head) none = none
next h (some head) (some e) = if (h e).next == head then none else some (h e).next
