-- ===== src/Core/Packet/Read.antt =====
-- What the calls of the reader give where their bytes stand next.
use keydrop.Base.{
  ℕ, ltb, false, ◌+◌, ◌%◌, ◌^◌, ◌≤◌, ◌<◌, ◌≡◌, refl, ap, sym, ◌∙◌, arith, List, [], ◌∷◌, ◌++◌, map,
  length, take, drop, All,
}
use keydrop.Base.{
  Result, ok, out_of_range, le_bytes, le_bytes-IsByte, length-le_bytes, le_value-le_bytes,
}
use keydrop.Base.{
  assemble, assemble-le_value, length-append, length-drop, drop-drop, take-append, drop-append,
  append_assoc,
}
use keydrop.Base.Int.{ℤ, Fits, to_word, from_word, to_word_8, to_word_16, to_word_32}
use keydrop.Core.Endian.{
  Host, little, from_little_endian_16, from_little_endian_32, from_little_endian_64,
}
use keydrop.Core.Endian.Laws.{
  converted, to_little_endian_16-converted, to_little_endian_32-converted,
}
use keydrop.Core.Endian.Laws.{to_little_endian_64-converted}
use keydrop.Core.Reader
use keydrop.Core.Reader.{M, PacketReader, remaining, next, ◌>>=◌, return}
use keydrop.Core.Packet.{Item, kind, IsValid, wire, wires, read_item, read_items}

-- The reader has not passed the end, and the bytes `rest` come next.
pub record At (r : PacketReader) (rest : List ℕ) : Type 0 where
  pub within : r.cursor ≤ length r.buffer
  pub small : length r.buffer < 2 ^ 64
  pub follows : drop r.cursor r.buffer ≡ rest

-- A call gives `x` and leaves the reader before `rest`, in the same buffer.
abbrev pub Reads : {A : Type 0} → M A → PacketReader → A → List ℕ → Type 0
Reads m r x rest = (r' : PacketReader) × (m r ≡ (ok x, r')) × At r' rest × (r'.buffer ≡ r.buffer)

pub remaining-At : (r : PacketReader) (rest : List ℕ) → At r rest → remaining r ≡ length rest
unfolding remaining
remaining-At r rest h = omega (arith, ap length h.follows, length-drop r.cursor r.buffer)

-- The assembled bytes of a number are the number.
pub value : (w v : ℕ) → v < 256 ^ w → assemble 0 0 (le_bytes w v) ≡ v
value w v h = assemble-le_value (le_bytes w v) (le_bytes-IsByte w v) ∙ le_value-le_bytes w v h

-- The reader behind the bytes `front`.
abbrev pub behind : List ℕ → PacketReader → PacketReader
behind front r = record r { cursor = r.cursor + length front }

module _ (front rest : List ℕ) (r : PacketReader) (h : At r (front ++ rest)) where
  fits-At : ltb (remaining r) (length front) ≡ false
  fits-At = ground (arith, remaining-At r (front ++ rest) h, length-append front rest)

  moved-At : (r.cursor + length front) % 2 ^ 64 ≡ r.cursor + length front
  moved-At =
      omega (
        arith,
        h.small,
        ap length h.follows,
        length-drop r.cursor r.buffer,
        length-append front rest,
      )

  pub behind-At : At (behind front r) rest
  behind-At = record {
    within = omega (
      arith,
      ap length h.follows,
      length-drop r.cursor r.buffer,
      length-append front rest,
      h.within,
    );
    small = h.small;
    follows =
        sym (drop-drop (length front) r.cursor r.buffer)
        ∙ ap (drop (length front)) h.follows
        ∙ drop-append front rest (length front) refl;
  }

  pub front-At : take (length front) (drop r.cursor r.buffer) ≡ front
  front-At = ap (take (length front)) h.follows ∙ take-append front rest (length front) refl

  -- `skip` moves over the bytes.
  pub skip-behind : Reader.skip (length front) r ≡ (ok tt, behind front r)
  unfolding Reader.skip
  skip-behind = ground (arith, fits-At, moved-At)

  next-behind : next (length front) r ≡ (ok front, behind front r)
  unfolding next
  next-behind = ground (arith, fits-At, moved-At, front-At)

pub next-Reads :
    (front rest : List ℕ) (r : PacketReader) (n : ℕ)
    → n ≡ length front
    → At r (front ++ rest)
    → Reads (next n) r front rest
next-Reads front rest r n e h = (
  behind front r,
  ap (λ k. next k r) e ∙ next-behind front rest r h,
  behind-At front rest r h,
  refl,
)

pub >>=-ok :
    {A B : Type 0} (m : M A) (f : A → M B) {r r' : PacketReader} {x : A}
    → m r ≡ (ok x, r')
    → (m >>= f) r ≡ f x r'
>>=-ok {B = B} m f e =
    let run : Result _ × PacketReader → Result B × PacketReader =
      λ p. elim p.0 [ ok x ↦ f x p.1 | out_of_range ↦ (out_of_range, p.1) ] in
    ap run e

-- A call that maps the result of another.
pub map-Reads :
    {A B : Type 0} (m : M A) (f : A → B) (r : PacketReader) (x : A) (y : B) (rest : List ℕ)
    → f x ≡ y
    → Reads m r x rest
    → Reads (m >>= λ v. return (f v)) r y rest
map-Reads m f r x y rest p (r', e, left, same) =
    (r', >>=-ok m (λ v. return (f v)) e ∙ ap (λ k. (ok k, r')) p, left, same)

module _ (rest : List ℕ) (r : PacketReader) where
  -- The call that reads a word of `w` bytes and turns it into a value by `f`.
  word-Reads :
      {A : Type 0} (w v : ℕ) (f : ℕ → A) (y : A)
      → v < 256 ^ w
      → f v ≡ y
      → At r (le_bytes w v ++ rest)
      → Reads (next w >>= λ bs. return (f (assemble 0 0 bs))) r y rest
  word-Reads w v f y h p at =
      map-Reads (next w) (λ bs. f (assemble 0 0 bs)) r (le_bytes w v) y rest
        (ap f (value w v h) ∙ p) (next-Reads (le_bytes w v) rest r w (sym (length-le_bytes w v)) at)

  module _ (host : Host) (order : host.order ≡ little) where
    from_16 : (v : ℕ) → v < 2 ^ 16 → from_little_endian_16 host v ≡ v
    unfolding converted
    from_16 v h = to_little_endian_16-converted host v h ∙ rw order

    from_32 : (v : ℕ) → from_little_endian_32 host v ≡ v
    unfolding converted
    from_32 v = to_little_endian_32-converted host v ∙ rw order

    from_64 : (v : ℕ) → from_little_endian_64 host v ≡ v
    unfolding converted
    from_64 v = to_little_endian_64-converted host v ∙ rw order

    pub read_u16-Reads :
        (v : ℕ) → v < 2 ^ 16 → At r (le_bytes 2 v ++ rest) → Reads (Reader.read_u16 host) r v rest
    unfolding Reader.read_u16
    read_u16-Reads v h at = word-Reads 2 v (from_little_endian_16 host) v h (from_16 v h) at

    pub read_u32-Reads :
        (v : ℕ) → v < 2 ^ 32 → At r (le_bytes 4 v ++ rest) → Reads (Reader.read_u32 host) r v rest
    unfolding Reader.read_u32
    read_u32-Reads v h at = word-Reads 4 v (from_little_endian_32 host) v h (from_32 v) at

    pub read_u64-Reads :
        (v : ℕ) → v < 2 ^ 64 → At r (le_bytes 8 v ++ rest) → Reads (Reader.read_u64 host) r v rest
    unfolding Reader.read_u64
    read_u64-Reads v h at = word-Reads 8 v (from_little_endian_64 host) v h (from_64 v) at

  pub read_u8-Reads :
      (v : ℕ) → v < 2 ^ 8 → At r (le_bytes 1 v ++ rest) → Reads Reader.read_u8 r v rest
  unfolding Reader.read_u8
  read_u8-Reads v h at = word-Reads 1 v (λ x. x) v h refl at

module _ (host : Host) (order : host.order ≡ little) where
  pub read_string-Reads :
      (s rest : List ℕ) (r : PacketReader)
      → length s < 2 ^ 16
      → At r (le_bytes 2 (length s) ++ (s ++ rest))
      → Reads (Reader.read_string host) r s rest
  unfolding Reader.read_string Reader.read_string_from_size
  read_string-Reads s rest r h at =
      let (r', e, left, same) = read_u16-Reads (s ++ rest) r host order (length s) h at in
      let (r'', e', left', same') = next-Reads s rest r' (length s) refl left in
      (r'', >>=-ok (Reader.read_u16 host) next e ∙ e', left', same' ∙ same)

  pub read_i8-Reads :
      (v : ℤ) (rest : List ℕ) (r : PacketReader)
      → Fits (2 ^ 8) v
      → At r (le_bytes 1 (to_word (2 ^ 8) v) ++ rest)
      → Reads Reader.read_i8 r v rest
  unfolding Reader.read_i8
  read_i8-Reads v rest r h at =
      let (fits, back) = to_word_8 v h in
      map-Reads Reader.read_u8 (from_word (2 ^ 8)) r _ v rest back (read_u8-Reads rest r _ fits at)

  pub read_i16-Reads :
      (v : ℤ) (rest : List ℕ) (r : PacketReader)
      → Fits (2 ^ 16) v
      → At r (le_bytes 2 (to_word (2 ^ 16) v) ++ rest)
      → Reads (Reader.read_i16 host) r v rest
  unfolding Reader.read_i16
  read_i16-Reads v rest r h at =
      let (fits, back) = to_word_16 v h in
      map-Reads (Reader.read_u16 host) (from_word (2 ^ 16)) r _ v rest back
        (read_u16-Reads rest r host order _ fits at)

  pub read_i32-Reads :
      (v : ℤ) (rest : List ℕ) (r : PacketReader)
      → Fits (2 ^ 32) v
      → At r (le_bytes 4 (to_word (2 ^ 32) v) ++ rest)
      → Reads (Reader.read_i32 host) r v rest
  unfolding Reader.read_i32
  read_i32-Reads v rest r h at =
      let (fits, back) = to_word_32 v h in
      map-Reads (Reader.read_u32 host) (from_word (2 ^ 32)) r _ v rest back
        (read_u32-Reads rest r host order _ fits at)

  -- Where the wire bytes of a valid value stand next, the matching call gives the value and moves
  -- the cursor behind them.
  pub read_item-Reads :
      (i : Item) (rest : List ℕ) (r : PacketReader)
      → IsValid i
      → At r (wire i ++ rest)
      → Reads (read_item host (kind i)) r i rest
  unfolding read_item kind wire
  read_item-Reads (Item.u8 v) rest r h at =
      map-Reads Reader.read_u8 Item.u8 r v _ rest refl (read_u8-Reads rest r v h at)
  read_item-Reads (Item.u16 v) rest r h at =
      map-Reads (Reader.read_u16 host) Item.u16 r v _ rest refl
        (read_u16-Reads rest r host order v h at)
  read_item-Reads (Item.u32 v) rest r h at =
      map-Reads (Reader.read_u32 host) Item.u32 r v _ rest refl
        (read_u32-Reads rest r host order v h at)
  read_item-Reads (Item.i8 v) rest r h at =
      map-Reads Reader.read_i8 Item.i8 r v _ rest refl (read_i8-Reads v rest r h at)
  read_item-Reads (Item.i16 v) rest r h at =
      map-Reads (Reader.read_i16 host) Item.i16 r v _ rest refl (read_i16-Reads v rest r h at)
  read_item-Reads (Item.i32 v) rest r h at =
      map-Reads (Reader.read_i32 host) Item.i32 r v _ rest refl (read_i32-Reads v rest r h at)
  read_item-Reads (Item.f32 v) rest r h at =
      unfold Reader.read_f32 in
      map-Reads (Reader.read_u32 host) Item.f32 r v (Item.f32 v) rest refl
        (read_u32-Reads rest r host order v h at)
  read_item-Reads (Item.f64 v) rest r h at =
      unfold Reader.read_f64 in
      map-Reads (Reader.read_u64 host) Item.f64 r v (Item.f64 v) rest refl
        (read_u64-Reads rest r host order v h at)
  read_item-Reads (Item.string s) rest r h at =
      map-Reads (Reader.read_string host) Item.string r s _ rest refl
        (read_string-Reads s rest r h (rw (append_assoc (le_bytes 2 (length s)) s rest) at at))
  read_item-Reads (Item.bytes s) rest r h at =
      unfold Reader.read_bytes in
      map-Reads (next (length s)) Item.bytes r s (Item.bytes s) rest refl
        (next-Reads s rest r (length s) refl at)

  pub read_items-Reads :
      (is : List Item) (r : PacketReader)
      → All IsValid is
      → At r (wires is)
      → Reads (read_items host (map kind is)) r is []
  unfolding read_items wires
  read_items-Reads [] r h at = (r, refl, at, refl)
  read_items-Reads (i ∷ is) r (hi, h) at =
      let tail : Item → M (List Item) =
        λ i'. read_items host (map kind is) >>= λ is'. return (i' ∷ is') in
      let (r', e, left, same) = read_item-Reads i (wires is) r hi at in
      let (r'', e', left', same') = read_items-Reads is r' h left in
      (
        r'',
        >>=-ok (read_item host (kind i)) tail e
            ∙ >>=-ok (read_items host (map kind is)) (λ is'. return (i ∷ is')) e',
        left',
        same' ∙ same,
      )
