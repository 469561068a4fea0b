-- ===== src/Core/View.antt =====
-- `BufferView` of src/core/buffer.cpp: a pointer with a size, which owns nothing.
-- A pointer is `none` for nullptr, or the bytes from its target to the end of the object.
use keydrop.Base.{ℕ, ◌-◌, Bool, true, false, List, Option, none, some}
use keydrop.Base.{get_elem?, drop, ltb, leb, ◌==◌, ◌||◌, if◌then◌else◌}
use keydrop.Base.{Result, ok, out_of_range}

abbrev pub Pointer : Type 0
Pointer = Option (List ℕ)

pub record BufferView : Type 0 where
  pub data_ : Pointer
  pub size : ℕ

-- `data + offset`, and `data[index]`.
abbrev pub advance : Pointer → ℕ → Pointer
advance none n = none
advance (some m) n = some (drop n m)

-- `none` is a fault: a read through nullptr, or past the object that a pointer stands in, for which
-- C++ defines no result.
abbrev pub deref : Pointer → ℕ → Option ℕ
deref none i = none
deref (some m) i = get_elem? m i

unfoldable pub is_null : Pointer → Bool
is_null none = true
is_null (some m) = false

unfoldable pub empty : BufferView → Bool
empty v = v.size == 0

-- An exception, or what the read gives.
unfoldable pub read : BufferView → ℕ → Result (Option ℕ)
unfolding is_null
read v index =
    if leb v.size index || is_null v.data_ then out_of_range else ok (deref v.data_ index)

unfoldable pub slice : BufferView → ℕ → ℕ → Result BufferView
slice v offset size =
    if ltb v.size offset || ltb (v.size - offset) size
    then out_of_range
    else if size == 0
    then ok (record { data_ = v.data_; size = 0 })
    else ok (record { data_ = advance v.data_ offset; size = size })
