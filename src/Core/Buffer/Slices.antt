-- ===== src/Core/Buffer/Slices.antt =====
-- Slices of a buffer, and the bytes that they bring to another one.
use keydrop.Base.{
  ℕ, zero, suc, ◌+◌, ◌≤◌, ◌<◌, ◌≡◌, ◌≢◌, ◌⊎◌, max, if◌then◌else◌, length-take, length-drop, refl,
  ap, inl, inr, arith, ◌==◌,
}
use keydrop.Base.{
  List, [], ◌∷◌, ◌++◌, none, some, length, take, drop, get_elem?, append-nil, ok, out_of_range,
}
use keydrop.Core.View
use keydrop.Core.View.{BufferView, deref, is_null}
use keydrop.Core.Buffer
use keydrop.Core.Buffer.{Buffer, append_view, append_raw, view}

-- `bytes` is nullptr for a buffer with no byte.
bytes-cases :
    (b : Buffer)
    → ((length b.bytes_ ≡ 0) × (Buffer.bytes b ≡ none)) ⊎ (Buffer.bytes b ≡ some b.bytes_)
unfolding Buffer.bytes
bytes-cases b = ground arith

get_elem?-drop :
    {A : Type 0} (xs : List A) (o i : ℕ) → get_elem? (drop o xs) i ≡ get_elem? xs (o + i)
get_elem?-drop xs zero i = ap (get_elem? xs) (omega arith)
get_elem?-drop [] (suc o) i = refl
get_elem?-drop (x ∷ xs) (suc o) i =
    let e : suc o + i ≡ suc (o + i) = omega arith in rw e (get_elem?-drop xs o i)

get_elem?-none : {A : Type 0} (xs : List A) (i : ℕ) → i < length xs → get_elem? xs i ≢ none
get_elem?-none [] i h = absurd (omega arith)
get_elem?-none (x ∷ xs) zero h = λ e. cc
get_elem?-none (x ∷ xs) (suc i) h = get_elem?-none xs i (omega arith)

abbrev pub sliced : Buffer → ℕ → ℕ → BufferView
sliced b offset n = record {
  data_ = if n == 0 then Buffer.bytes b else View.advance (Buffer.bytes b) offset;
  size = n;
}

pub slice-sliced :
    (b : Buffer) (offset n : ℕ)
    → offset + n ≤ length b.bytes_
    → Buffer.slice b offset n ≡ ok (sliced b offset n)
unfolding Buffer.slice View.slice view Buffer.size
slice-sliced b offset n inside = ground arith

abbrev appended : Buffer → List ℕ → Buffer
appended t bs = record {
  bytes_ = t.bytes_ ++ bs;
  capacity_ = if length bs == 0 then t.capacity_ else max t.capacity_ (length (t.bytes_ ++ bs));
}

-- A slice inside the buffer is given, and appending it to another buffer adds the bytes of the
-- slice to that one's; a slice that is not inside throws.
pub append_view-slice :
    (b target : Buffer) (offset n : ℕ)
    → (offset + n ≤ length b.bytes_
        → (v : BufferView) × (after : Buffer) × (Buffer.slice b offset n ≡ ok v)
          × (append_view target v ≡ ok after)
          × (after.bytes_ ≡ target.bytes_ ++ take n (drop offset b.bytes_)))
      × (length b.bytes_ < offset + n → Buffer.slice b offset n ≡ out_of_range)
unfolding Buffer.slice View.slice append_view append_raw view Buffer.bytes Buffer.size
append_view-slice b target offset n = elim (bytes-cases b) [
  | inl (none_there, e) ↦ (
    λ inside. (
      sliced b offset n,
      target,
      slice-sliced b offset n inside,
      ground arith,
      ground (arith, append-nil target.bytes_),
    ),
    λ outside. ground arith,
  )
  | inr e ↦ (
    λ inside.
        let bs = take n (drop offset b.bytes_) in
        let size : length bs ≡ n =
          omega (arith, length-take n (drop offset b.bytes_), length-drop offset b.bytes_) in
        (
          sliced b offset n,
          appended target bs,
          slice-sliced b offset n inside,
          ground (arith, e, size, append-nil target.bytes_),
          refl,
        ),
    λ outside. ground arith,
  )
]

get_elem?-some :
    {A : Type 0} (xs : List A) (i : ℕ) → i < length xs → (x : A) × (get_elem? xs i ≡ some x)
get_elem?-some [] i h = absurd (omega arith)
get_elem?-some (x ∷ xs) zero h = (x, refl)
get_elem?-some (x ∷ xs) (suc i) h = get_elem?-some xs i (omega arith)

-- A slice that is given lies inside the buffer. Inside its size it reads the byte of the buffer that
-- stands as far behind its offset, without a fault, as the buffer itself does; beyond it throws.
pub read-slice :
    (b : Buffer) (offset n i : ℕ) (v : BufferView)
    → Buffer.slice b offset n ≡ ok v
    → (offset + n ≤ length b.bytes_)
      × (i < n
          → (x : ℕ) × (get_elem? b.bytes_ (offset + i) ≡ some x)
            × (View.read v i ≡ ok (some x))
            × (Buffer.read b (offset + i) ≡ ok (some x)))
      × (n ≤ i → View.read v i ≡ out_of_range)
unfolding Buffer.slice View.slice view Buffer.bytes Buffer.size View.read Buffer.read is_null
read-slice b offset n i v h =
    let inside : offset + n ≤ length b.bytes_ = ground arith in
    (
      inside,
      λ within.
          let (x, e) = get_elem?-some b.bytes_ (offset + i) (omega (arith, inside, within)) in
          (
            x,
            e,
            ground (arith, e, bytes-cases b, get_elem?-drop b.bytes_ offset i),
            ground (arith, e),
          ),
      λ outside. ground arith,
    )
