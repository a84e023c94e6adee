-- ===== src/Common/Array.antt =====
-- code/common/array.c and array.h: growable arrays. `data` holds the elements of the allocation, as
-- many as `capacity`, the first `size` of which are used; a null pointer is the empty list. Offsets in
-- bytes are whole numbers of elements, so positions are counted in elements. Whether an allocation
-- succeeds is an argument.
pub mod Grow
pub mod Contents
pub mod Remove
pub mod Push
pub mod Copy
mod Tests
use headquarter.Base.{
  ℕ, ◌+◌, ◌-◌, ◌/◌, List, [], ◌∷◌, ◌++◌, Bool, true, false, max, min, some, none,
}
use headquarter.Base.{length, take, drop, replicate, set, get_elem?, ltb, leb, ◌==◌, if◌then◌else◌}
use headquarter.Base.{
  add_size, sub_size, mul_size, Outcome, ok, refused, aborted, fault, or_fault, ◌>>=◌,
}

-- `array_void_t` and the macro `array`.
pub record Array {ℓ} (A : Type ℓ) : Type ℓ where
  pub capacity : ℕ
  pub size : ℕ
  pub data' : List A

-- `ARRAY_MIN_CAPACITY`
abbrev pub min_capacity : ℕ
min_capacity = 8

abbrev pub init {ℓ} : {A : Type ℓ} → Array A
init = record { capacity = 0; size = 0; data' = [] }

-- `memcpy(data + at, elements, ...)`
unfoldable pub store {ℓ} : {A : Type ℓ} → List A → ℕ → List A → Outcome (List A)
store data' at elements =
    if leb (at + length elements) (length data')
    then ok (take at data' ++ (elements ++ drop (at + length elements) data'))
    else fault

-- `n` elements from `at` on.
unfoldable pub load {ℓ} : {A : Type ℓ} → List A → ℕ → ℕ → Outcome (List A)
load data' at n = if leb (at + n) (length data') then ok (take n (drop at data')) else fault

-- The element type, its zeroed value, and its size in bytes, which is not 0.
module _ {ℓ} {A : Type ℓ} (zeroed : A) (elem_size : ℕ) where
  -- `refused` stands for the result 0.
  unfoldable pub grow_to : Bool → Array A → ℕ → Outcome (Array A)
  grow_to allocated a new_capacity =
      let capacity = max new_capacity min_capacity in
      let grown =
        if allocated
        then ok (record {
          capacity = capacity;
          size = min a.size capacity;
          data' = take capacity a.data' ++ replicate (capacity - a.capacity) zeroed;
        })
        else refused in
      if mul_size capacity elem_size / elem_size == capacity then grown else aborted

  unfoldable pub reserve : Bool → Array A → ℕ → Outcome (Array A)
  reserve allocated a count =
      let twice = mul_size a.capacity 2 in
      let needed = add_size a.size count in
      if ltb (sub_size a.capacity a.size) count
      then grow_to allocated a (if ltb twice needed then needed else twice)
      else ok a

  -- Asks for room for `size` more elements, not for `size` in all.
  unfoldable pub resize : Bool → Array A → ℕ → Outcome (Array A)
  resize allocated a size = do
    a' ← (if ltb a.capacity size then reserve allocated a size else ok a)
    ok (record a' { size = size })

  unfoldable pub insert : Bool → Array A → List A → Outcome (Array A)
  insert allocated a elements =
      let inserted = (do
        a' ← reserve allocated a (length elements)
        data' ←
            (if leb (add_size a'.size (length elements)) a'.capacity
              then store a'.data' a'.size elements
              else aborted)
        ok (record a' { size = add_size a'.size (length elements); data' = data' })) in
      if length elements == 0 then ok a else inserted

  -- The result is the position of the first of the `n` new elements, and the array.
  unfoldable pub push : Bool → Array A → ℕ → Outcome (ℕ × Array A)
  push allocated a n = do
    a' ← reserve allocated a n
    let size = add_size a'.size n
    if leb size a'.capacity then ok (a'.size, record a' { size = size }) else aborted

  -- `array_add`
  unfoldable pub add : Bool → Array A → A → Outcome (Array A)
  add allocated a e = do
    a' ← reserve allocated a 1
    data' ← store a'.data' a'.size (e ∷ [])
    ok (record a' { size = add_size a'.size 1; data' = data' })

  -- `array_copy`: the elements in use of `src` are read, and those of `dest` are forgotten.
  unfoldable pub copy : Bool → Array A → Array A → Outcome (Array A)
  copy allocated dest src = do
    elements ← load src.data' 0 src.size
    insert allocated (record dest { size = 0 }) elements

module _ {ℓ} {A : Type ℓ} where
  -- `array_set`, which tells whether the index is in use.
  unfoldable pub set_at : Array A → ℕ → A → Outcome (Bool × Array A)
  set_at a i e =
      let written = (do data' ← store a.data' i (e ∷ []); ok (true, record a { data' = data' })) in
      if ltb i a.size then written else ok (false, a)

  -- `array_pop`; on an array with nothing in use it reads the first element of the allocation.
  unfoldable pub pop : Array A → Outcome (A × Array A)
  pop a = do
    let size = a.size - 1
    e ← or_fault (get_elem? a.data' size)
    ok (e, record a { size = size })

  -- The last element takes the place of the one that goes.
  unfoldable pub remove : Array A → ℕ → Outcome (Array A)
  remove a index =
      let new_size = a.size - 1 in
      let moved = (do
        last ← load a.data' new_size 1
        data' ← store a.data' index last
        ok (record a { size = new_size; data' = data' })) in
      if leb a.size index
      then ok a
      else if ltb index new_size
      then moved
      else ok (record a { size = new_size })

  -- `rem` is `size - count` in the source, also where fewer elements stand behind the range.
  unfoldable pub remove_range_ordered : Array A → ℕ → ℕ → Outcome (Array A)
  remove_range_ordered a index count =
      let count' = if ltb a.size (add_size index count) then a.size - index else count in
      let rem = sub_size a.size count' in
      let moved = (do
        rest ← load a.data' (index + count') rem
        data' ← store a.data' index rest
        ok (record a { size = a.size - count'; data' = data' })) in
      if leb a.size index
      then ok a
      else if rem == 0
      then ok (record a { size = a.size - count' })
      else moved
