-- ===== src/Base/Bytes.antt =====
-- Little-endian bytes of a number, and the number of a list of bytes.
use Prim.Native.Nat.{ℕ, zero, suc, ◌+◌, ◌*◌, ◌/◌, ◌%◌, ◌^◌, ◌≤◌, ◌<◌, bit_or}
use mathlib.Core.Path.{◌≡◌, refl, sym, ap, ap₂, ◌∙◌}
use mathlib.Core.List.{List, [], ◌∷◌, ◌++◌}
use native.Mathlib.Nat.{pow-suc, add-zero}
use native.Mathlib.Numerals.{towards_suc}
use native.Mathlib.Omega.{arith}
use keydrop.Base.Lists.{length, All, get_or, take, drop, length-take, length-drop, All-drop}
use keydrop.Base.Bits.{bit_or-shift}

abbrev pub IsByte : ℕ → Type 0
IsByte b = b < 256

-- The `w` low bytes of `v`, lowest first.
unfoldable pub le_bytes : ℕ → ℕ → List ℕ
le_bytes zero v = []
le_bytes (suc w) v = (v % 256) ∷ le_bytes w (v / 256)

unfoldable pub le_value : List ℕ → ℕ
le_value [] = 0
le_value (b ∷ bs) = b + 256 * le_value bs

-- `value |= data[i] << shift`, byte after byte.
unfoldable pub assemble : ℕ → ℕ → List ℕ → ℕ
assemble acc shift [] = acc
assemble acc shift (b ∷ bs) = assemble (bit_or acc (b * 2 ^ shift)) (shift + 8) bs

pub shift_eight : (s : ℕ) → 2 ^ (s + 8) ≡ 256 * 2 ^ s
shift_eight s = simp towards_suc (omega arith)

byte_fits : (b s : ℕ) → b < 256 → b * s + s ≤ 256 * s
byte_fits b s h = grind arith

assemble-add :
    (bs : List ℕ) (acc shift : ℕ)
    → All IsByte bs
    → acc < 2 ^ shift
    → assemble acc shift bs ≡ acc + le_value bs * 2 ^ shift
unfolding assemble le_value
assemble-add [] acc shift h lt = omega arith
assemble-add (b ∷ bs) acc shift (hb, h) lt = rw (bit_or-shift shift acc b lt) (
    assemble-add bs (acc + b * 2 ^ shift) (shift + 8) h
      (omega (arith, shift_eight shift, byte_fits b (2 ^ shift) hb))
    ∙ omega (arith, ap (λ (t : ℕ). le_value bs * t) (shift_eight shift)))

-- The chain of `|=` computes the number of the bytes.
pub assemble-le_value : (bs : List ℕ) → All IsByte bs → assemble 0 0 bs ≡ le_value bs
assemble-le_value bs h = assemble-add bs 0 0 h (omega arith) ∙ omega arith

pub length-le_bytes : (w v : ℕ) → length (le_bytes w v) ≡ w
unfolding le_bytes
length-le_bytes zero v = refl
length-le_bytes (suc w) v = ap suc (length-le_bytes w (v / 256))

pub le_bytes-IsByte : (w v : ℕ) → All IsByte (le_bytes w v)
unfolding le_bytes
le_bytes-IsByte zero v = tt
le_bytes-IsByte (suc w) v = (omega arith, le_bytes-IsByte w (v / 256))

pub le_value-le_bytes : (w v : ℕ) → v < 256 ^ w → le_value (le_bytes w v) ≡ v
unfolding le_bytes le_value
le_value-le_bytes zero v h = omega arith
le_value-le_bytes (suc w) v h = ground (arith, pow-suc 256 w, le_value-le_bytes w (v / 256))

pub le_bytes-le_value : (bs : List ℕ) → All IsByte bs → le_bytes (length bs) (le_value bs) ≡ bs
unfolding le_bytes le_value
le_bytes-le_value [] h = refl
le_bytes-le_value (b ∷ bs) (hb, h) =
    let q : (b + 256 * le_value bs) / 256 ≡ le_value bs = omega arith in
    let r : (b + 256 * le_value bs) % 256 ≡ b = omega arith in
    rw (q, r) (ap (◌∷◌ b) (le_bytes-le_value bs h))

pub le_value-lt : (bs : List ℕ) → All IsByte bs → le_value bs < 256 ^ length bs
unfolding le_value
le_value-lt [] h = omega arith
le_value-lt (b ∷ bs) (hb, h) = ground (arith, pow-suc 256 (length bs), le_value-lt bs h)

-- `u16(data[offset]) | (u16(data[offset + 1]) << 8)`
unfoldable pub read_u16_le : List ℕ → ℕ → ℕ
read_u16_le bs offset = bit_or (get_or bs offset 0) (get_or bs (offset + 1) 0 * 2 ^ 8)

pub get_or-drop : (n : ℕ) (bs : List ℕ) (i : ℕ) → get_or (drop n bs) i 0 ≡ get_or bs (n + i) 0
get_or-drop zero bs i = let e : zero + i ≡ i = omega arith in rw e
get_or-drop (suc n) [] i = refl
get_or-drop (suc n) (b ∷ bs) i =
    let e : suc n + i ≡ suc (n + i) = omega arith in rw e (get_or-drop n bs i)

pub get_or-append : (bs cs : List ℕ) (i : ℕ) → i < length bs → get_or (bs ++ cs) i 0 ≡ get_or bs i 0
get_or-append [] cs i h = absurd (omega arith)
get_or-append (b ∷ bs) cs zero h = refl
get_or-append (b ∷ bs) cs (suc i) h = get_or-append bs cs i (omega arith)

get_or-take : (n : ℕ) (bs : List ℕ) (i : ℕ) → i < n → get_or (take n bs) i 0 ≡ get_or bs i 0
get_or-take zero bs i h = absurd (omega arith)
get_or-take (suc n) [] i h = refl
get_or-take (suc n) (b ∷ bs) zero h = refl
get_or-take (suc n) (b ∷ bs) (suc i) h = get_or-take n bs i (omega arith)

-- The number at `c` reads the same at `d` where a copy of at least two bytes from `c` on stands.
pub read_u16_le-copy :
    (ps os tail : List ℕ) (c d n : ℕ)
    → drop d os ≡ take n (drop c ps) ++ tail
    → 2 ≤ n
    → c + n ≤ length ps
    → read_u16_le os d ≡ read_u16_le ps c
unfolding read_u16_le
read_u16_le-copy ps os tail c d n e two fits =
    ap₂ (λ x y. bit_or x (y * 2 ^ 8))
      (ap (λ k. get_or os k 0) (sym (add-zero d))
        ∙ at 0 (omega arith)
        ∙ ap (λ k. get_or ps k 0) (add-zero c))
      (at 1 (omega arith))
  where
    size : length (take n (drop c ps)) ≡ n
    size = omega (arith, length-take n (drop c ps), length-drop c ps)

    at : (i : ℕ) → i < n → get_or os (d + i) 0 ≡ get_or ps (c + i) 0
    at i h =
        sym (get_or-drop d os i)
        ∙ ap (λ l. get_or l i 0) e
        ∙ get_or-append (take n (drop c ps)) tail i (omega (arith, size))
        ∙ get_or-take n (drop c ps) i h
        ∙ get_or-drop c ps i

read_u16_le-drop : (bs : List ℕ) (c : ℕ) → read_u16_le bs c ≡ read_u16_le (drop c bs) 0
unfolding read_u16_le
read_u16_le-drop bs c =
    ap₂ (λ x y. bit_or x (y * 2 ^ 8))
      (sym (ap (λ k. get_or bs k 0) (add-zero c)) ∙ sym (get_or-drop c bs 0))
      (sym (get_or-drop c bs 1))

read_u16_le-two : (x y : ℕ) (l : List ℕ) → x < 256 → read_u16_le (x ∷ y ∷ l) 0 ≡ x + y * 256
unfolding read_u16_le
read_u16_le-two x y l h = bit_or-shift 8 x y h

u16_head :
    (l : List ℕ)
    → 2 ≤ length l
    → All IsByte l
    → (take 2 l ≡ le_bytes 2 (read_u16_le l 0)) × (read_u16_le l 0 < 2 ^ 16)
unfolding le_bytes
u16_head [] two h = absurd (omega arith)
u16_head (x ∷ []) two h = absurd (omega arith)
u16_head (x ∷ y ∷ l) two (hx, (hy, h)) =
    let e = read_u16_le-two x y l hx in
    (rw e (ap₂ (λ a b. a ∷ b ∷ []) (omega arith) (omega arith)), omega arith)

-- A number read inside the bytes is the number that its two bytes stand for.
pub read_u16_le-take :
    (bs : List ℕ) (c : ℕ)
    → All IsByte bs
    → c + 2 ≤ length bs
    → (take 2 (drop c bs) ≡ le_bytes 2 (read_u16_le bs c)) × (read_u16_le bs c < 2 ^ 16)
read_u16_le-take bs c h fits =
    rw (read_u16_le-drop bs c)
      (u16_head (drop c bs) (omega (arith, length-drop c bs)) (All-drop IsByte c bs h))

pub read_u16_le-le_bytes :
    (bs tail : List ℕ) (c v : ℕ)
    → v < 2 ^ 16
    → drop c bs ≡ le_bytes 2 v ++ tail
    → read_u16_le bs c ≡ v
unfolding le_bytes
read_u16_le-le_bytes bs tail c v h e =
    read_u16_le-drop bs c
    ∙ ap (λ l. read_u16_le l 0) e
    ∙ read_u16_le-two (v % 256) (v / 256 % 256) tail (omega arith)
    ∙ omega arith
