-- ===== src/Config/Array.antt =====
-- `struct void_array` of lib/config_file.c: an array that grows in chunks and ends with a zeroed item.
-- `capacity` is the number of items that `ptr` has room for; memory does not run out.
pub mod Room
use lirc.Base.{ℕ, ◌+◌, ◌-◌, ◌%◌, ◌==◌, if◌then◌else◌, List, [], ◌∷◌, ◌++◌, length}

pub record VoidArray (A : Type 0) : Type 0 where
  pub items : List A
  pub chunk_size : ℕ
  pub capacity : ℕ

unfoldable pub init_void_array : {A : Type 0} → ℕ → VoidArray A
init_void_array chunk_size = record { items = []; chunk_size = chunk_size; capacity = chunk_size }

unfoldable pub add_void_array : {A : Type 0} → VoidArray A → A → VoidArray A
add_void_array ar item =
    let nr_items = length ar.items in
    record ar {
      items = ar.items ++ (item ∷ []);
      capacity =
          if nr_items % ar.chunk_size == ar.chunk_size - 1
          then nr_items + ar.chunk_size + 1
          else ar.capacity;
    }

unfoldable pub get_void_array : {A : Type 0} → VoidArray A → List A
get_void_array ar = ar.items
