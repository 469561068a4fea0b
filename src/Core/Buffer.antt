-- ===== src/Core/Buffer.antt =====
-- `Buffer` of src/core/buffer.cpp: an owned sequence of bytes.
pub mod Slices
use keydrop.Base.{ℕ, ◌-◌, max, Bool, List, [], ◌∷◌, ◌++◌, none, some}
use keydrop.Base.{length, take, replicate, leb, ◌==◌, if◌then◌else◌, Result, ok, out_of_range}
use keydrop.Core.View
use keydrop.Base.{Option}
use keydrop.Core.View.{BufferView, Pointer, deref}

-- `std::vector<byte>`: its bytes, and its capacity. The standard leaves the growth of the capacity
-- open beyond the least that is needed; the model takes the least.
pub record Buffer : Type 0 where
  pub bytes_ : List ℕ
  pub capacity_ : ℕ

abbrev pub empty_buffer : Buffer
empty_buffer = record { bytes_ = []; capacity_ = 0 }

abbrev holding : Buffer → List ℕ → Buffer
holding b bs = record { bytes_ = bs; capacity_ = max b.capacity_ (length bs) }

unfoldable pub write : Buffer → ℕ → Buffer
write b value = holding b (b.bytes_ ++ (value ∷ []))

unfoldable pub append_raw : Buffer → Pointer → ℕ → Result Buffer
append_raw b data_ size =
    if size == 0
    then ok b
    else elim data_ [ none ↦ out_of_range | some m ↦ ok (holding b (b.bytes_ ++ take size m)) ]

unfoldable pub append_view : Buffer → BufferView → Result Buffer
unfolding append_raw
append_view b v = append_raw b v.data_ v.size

unfoldable pub size : Buffer → ℕ
size b = length b.bytes_

unfoldable pub bytes : Buffer → Pointer
bytes b = elim b.bytes_ [ [] ↦ none | x ∷ xs ↦ some (x ∷ xs) ]

unfoldable pub view : Buffer → BufferView
unfolding bytes size
view b = record { data_ = bytes b; size = size b }

unfoldable pub append : Buffer → Buffer → Result Buffer
unfolding append_view view
append b other = append_view b (view other)

-- An exception, or what the read gives.
unfoldable pub read : Buffer → ℕ → Result (Option ℕ)
read b index =
    if leb (length b.bytes_) index then out_of_range else ok (deref (some b.bytes_) index)

unfoldable pub clear : Buffer → Buffer
clear b = record b { bytes_ = [] }

unfoldable pub resize : Buffer → ℕ → Buffer
resize b n = holding b (take n b.bytes_ ++ replicate (n - length b.bytes_) 0)

unfoldable pub reserve : Buffer → ℕ → Buffer
reserve b n = record b { capacity_ = max b.capacity_ n }

unfoldable pub empty : Buffer → Bool
empty b = length b.bytes_ == 0

unfoldable pub slice : Buffer → ℕ → ℕ → Result BufferView
unfolding view View.slice
slice b offset n = View.slice (view b) offset n
