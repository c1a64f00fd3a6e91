-- ===== src/Config/Array/Room.antt =====
-- The writes of `add_void_array` stay inside the array.
use native.Mathlib.Nat.{div-add-mod', mod-lt, zero-div, div-eq_of_lt-le}
use lirc.Base.{
  ℕ, ◌+◌, ◌-◌, ◌*◌, ◌/◌, ◌%◌, ◌<◌, ◌≡◌, ◌≢◌, refl, arith, ◌==◌, ==_iff, if◌then◌else◌, Bool-cases,
  inl, inr, [], ◌∷◌, ◌++◌, length, length-append,
}
use lirc.Config.Array.{VoidArray, init_void_array, add_void_array, get_void_array}

-- The capacity is the first multiple of the chunk size above the number of items, so that there is
-- room for the zeroed item at the end.
pub record HasRoom {A : Type 0} (ar : VoidArray A) : Type 0 where
  pub chunk : 0 < ar.chunk_size
  pub full_chunks : ar.capacity ≡ (length ar.items / ar.chunk_size + 1) * ar.chunk_size
  pub room : length ar.items < ar.capacity

pub init-HasRoom : (A : Type 0) (n : ℕ) → 0 < n → HasRoom (init_void_array {A = A} n)
unfolding init_void_array
init-HasRoom A n h = record { chunk = h; full_chunks = ground (arith, zero-div n); room = h }

next_div_full : (n k : ℕ) → 0 < k → n % k ≡ k - 1 → (n + 1) / k ≡ n / k + 1
next_div_full n k h e =
    let q = n / k in
    let whole : q * k + n % k ≡ n = div-add-mod' n k in
    let both : (q + 1) * k ≡ q * k + k = grind arith in
    let three : (q + 1 + 1) * k ≡ q * k + k + k = grind arith in
    div-eq_of_lt-le k (omega arith) (omega arith)

next_div_low : (n k : ℕ) → 0 < k → n % k ≢ k - 1 → (n + 1) / k ≡ n / k
next_div_low n k h e =
    let q = n / k in
    let low : n % k < k = mod-lt n h in
    let whole : q * k + n % k ≡ n = div-add-mod' n k in
    let both : (q + 1) * k ≡ q * k + k = grind arith in
    div-eq_of_lt-le k (omega arith) (omega arith)

-- The capacity after an item was added to `n` items.
grown :
    (n k capacity : ℕ)
    → 0 < k
    → capacity ≡ (n / k + 1) * k
    → n < capacity
    → let c = if n % k == k - 1 then n + k + 1 else capacity in
      (c ≡ ((n + 1) / k + 1) * k) × (n + 1 < c)
grown n k capacity h e room =
    let q = n / k in
    let low : n % k < k = mod-lt n h in
    let whole : q * k + n % k ≡ n = div-add-mod' n k in
    let both : (q + 1) * k ≡ q * k + k = grind arith in
    let three : (q + 1 + 1) * k ≡ q * k + k + k = grind arith in
    elim (Bool-cases (n % k == k - 1)) [
      | inl t ↦
          let last : n % k ≡ k - 1 = (==_iff (n % k) (k - 1)).0 t in
          rw (t, if◌then◌else◌) (rw (next_div_full n k h last) (omega arith, omega arith))
      | inr f ↦
          let ne : n % k ≢ k - 1 = ground (arith, ==_iff (n % k) (k - 1)) in
          rw (f, if◌then◌else◌) (rw (next_div_low n k h ne) (omega arith, omega arith))
    ]

-- `add_void_array` keeps the items and their order, writes the new item and the zeroed item behind it
-- within the capacity, and keeps the array in shape.
pub add-HasRoom :
    {A : Type 0} (ar : VoidArray A) (item : A)
    → HasRoom ar
    → HasRoom (add_void_array ar item)
      × (length ar.items + 1 < (add_void_array ar item).capacity)
      × (get_void_array (add_void_array ar item) ≡ get_void_array ar ++ (item ∷ []))
unfolding add_void_array get_void_array
add-HasRoom ar item h =
    let n = length ar.items in
    let more : length (ar.items ++ (item ∷ [])) ≡ n + 1 = length-append ar.items (item ∷ []) in
    let g = grown n ar.chunk_size ar.capacity h.chunk h.full_chunks h.room in
    (record { chunk = h.chunk; full_chunks = rw more g.0; room = rw more g.1 }, g.1, refl)
