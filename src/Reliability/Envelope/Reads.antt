-- ===== src/Reliability/Envelope/Reads.antt =====
-- Reads of `check_packet` inside the packet.

use keydrop.Base.{ℕ, zero, suc, ◌+◌, ◌*◌, ◌%◌, ◌^◌, ◌≤◌, ◌<◌, ◌≡◌, refl, sym, ap, ◌∙◌, arith}
use keydrop.Base.{List, [], ◌∷◌}
use keydrop.Base.{
  length, get_or, take, drop, All, IsByte, get_or-IsByte, assemble, assemble-le_value, le_value,
}
use keydrop.Base.{All-take, All-drop, ok, ◌>>=◌, bit_or}
use keydrop.Reliability.Envelope.{read, add_size}
use keydrop.Reliability.Envelope.{read_little_endian_loop, read_little_endian_value}

pub read_inside : (p : List ℕ) (i : ℕ) → i < length p → read p i ≡ ok (get_or p i 0)
unfolding read
read_inside [] i h = absurd (omega arith)
read_inside (x ∷ p) zero h = refl
read_inside (x ∷ p) (suc i) h = read_inside p i (omega arith)

pub take-drop-suc :
    (n : ℕ) (p : List ℕ) (c : ℕ)
    → c < length p
    → take (suc n) (drop c p) ≡ get_or p c 0 ∷ take n (drop (c + 1) p)
take-drop-suc n [] c h = absurd (omega arith)
take-drop-suc n (b ∷ bs) zero h = refl
take-drop-suc n (b ∷ bs) (suc c) h =
    let e : suc c + 1 ≡ suc (c + 1) = omega arith in rw e (take-drop-suc n bs c (omega arith))

shift_fits : (i b : ℕ) → i < 4 → b < 256 → b * 2 ^ (8 * i) % 2 ^ 32 ≡ b * 2 ^ (8 * i)
shift_fits zero b h lt = omega arith
shift_fits (suc zero) b h lt = omega arith
shift_fits (suc (suc zero)) b h lt = omega arith
shift_fits (suc (suc (suc zero))) b h lt = omega arith
shift_fits (suc (suc (suc (suc i)))) b h lt = absurd (omega arith)

module _ (p : List ℕ) (bytes : All IsByte p) (small : length p < 2 ^ 63) where
  read_loop-assemble :
      (n off i value : ℕ)
      → i + n ≤ 4
      → off + i + n ≤ length p
      → read_little_endian_loop p off i n value
        ≡ ok (assemble value (8 * i) (take n (drop (off + i) p)))
  unfolding read_little_endian_loop assemble
  read_loop-assemble zero off i value four fits = refl
  read_loop-assemble (suc n) off i value four fits =
      let at : add_size off i ≡ off + i = omega (arith, small) in
      let b = get_or p (off + i) 0 in
      let byte : b < 256 = get_or-IsByte p (off + i) bytes in
      let got : read p (add_size off i) ≡ ok b =
        ap (read p) at ∙ read_inside p (off + i) (omega arith) in
      let next : 8 * (i + 1) ≡ 8 * i + 8 = omega arith in
      let here : off + (i + 1) ≡ off + i + 1 = omega arith in
      ap
        (λ r. r >>= λ x.
          read_little_endian_loop p off (i + 1) n (bit_or value (x * 2 ^ (8 * i) % 2 ^ 32)))
        got
      ∙ ap (λ v. read_little_endian_loop p off (i + 1) n (bit_or value v))
          (shift_fits i b (omega arith) byte)
      ∙ read_loop-assemble n off (i + 1) (bit_or value (b * 2 ^ (8 * i))) (omega arith)
          (omega arith)
      ∙ ap (λ s. ok (assemble (bit_or value (b * 2 ^ (8 * i))) s (take n (drop (off + (i + 1)) p))))
          next
      ∙ ap (λ k. ok (assemble (bit_or value (b * 2 ^ (8 * i))) (8 * i + 8) (take n (drop k p))))
          here
      ∙ ap (λ l. ok (assemble value (8 * i) l)) (sym (take-drop-suc n p (off + i) (omega arith)))

  -- A field of at most four bytes inside the packet is read as the number of its bytes.
  pub read_value :
      (n off : ℕ)
      → n ≤ 4
      → off + n ≤ length p
      → read_little_endian_value p off n ≡ ok (le_value (take n (drop off p)))
  unfolding read_little_endian_value
  read_value n off four fits =
      read_loop-assemble n off 0 0 (omega arith) (omega arith)
      ∙ ap (λ k. ok (assemble 0 0 (take n (drop k p)))) (omega arith)
      ∙ ap ok (
          assemble-le_value (take n (drop off p))
            (All-take IsByte n _ (All-drop IsByte off p bytes)))
