-- ===== src/Schema/Optimizer/Restores.antt =====
-- What `deoptimize_packet` makes of the fields that `optimize_packet` left out, copied or prefixed.
use keydrop.Base.{ℕ, zero, suc, ◌+◌, ◌/◌, ◌≤◌, ◌<◌, ◌≡◌, refl, sym, ap, ◌∙◌, arith}
use keydrop.Base.{true, false, ◌&&◌, ◌||◌, if◌then◌else◌, ◌==◌, List, [], ◌∷◌, ◌++◌, none, some}
use keydrop.Base.{
  length, get_or, take, drop, replicate, All, IsByte, length-append, length-take, length-drop,
}
use keydrop.Base.{take-add, take-append, drop-append, drop-drop}
use keydrop.Base.{is_bit_set, set_bit, set_bit-IsByte, length-set_bit, is_bit_set-set_bit}
use keydrop.Base.{read_u16_le-copy}
use keydrop.Schema.Types.{FieldType, FieldDef, try_field_type_fixed_size, is_string, is_bytes}
use keydrop.Schema.Optimizer.{all_zero, total_size, Restoring, deoptimize_field, deoptimize_fields}
use keydrop.Schema.Optimizer.Trace.{
  Trace, done, omitted, copied, prefixed, Trace-bitmap, total_size-two,
}

pub take-drop-suc :
    (n : ℕ) (bytes : List ℕ) (c : ℕ)
    → c < length bytes
    → take (suc n) (drop c bytes) ≡ get_or bytes c 0 ∷ take n (drop (c + 1) bytes)
take-drop-suc n [] c h = absurd (omega arith)
take-drop-suc n (b ∷ bs) zero h = refl
take-drop-suc n (b ∷ bs) (suc c) h =
    let e : suc c + 1 ≡ suc (c + 1) = omega arith in rw e (take-drop-suc n bs c (omega arith))

pub variable-cases :
    (t : FieldType) → try_field_type_fixed_size t ≡ none → (is_string t || is_bytes t) ≡ true
unfolding try_field_type_fixed_size is_string is_bytes
variable-cases t e = ground arith

-- Bytes that are all zero are what the restoring loop writes for an omitted field.
pub all_zero-replicate :
    (n : ℕ) (bytes : List ℕ) (c : ℕ)
    → c + n ≤ length bytes
    → all_zero bytes c n ≡ true
    → take n (drop c bytes) ≡ replicate n 0
unfolding all_zero
all_zero-replicate zero bytes c fits h = refl
all_zero-replicate (suc n) bytes c fits h =
    take-drop-suc n bytes c (omega arith)
    ∙ ground (arith, all_zero-replicate n bytes (c + 1) (omega arith) (ground arith))

pub total_size-copy :
    (t : FieldType) (ps os tail : List ℕ) (c d : ℕ)
    → drop d os ≡ take (total_size t ps c) (drop c ps) ++ tail
    → c + total_size t ps c ≤ length ps
    → total_size t os d ≡ total_size t ps c
total_size-copy t ps os tail c d e fits =
    unfold total_size in
    ap (λ (k : ℕ). if is_string t && k == 0xFFFF then 4 else 2 + k)
      (read_u16_le-copy ps os tail c d (total_size t ps c) e (total_size-two t ps c) fits)

module _ (os m : List ℕ) (s : Restoring) (i : ℕ) (t : FieldType) where
  pub restore_omitted :
      (n : ℕ)
      → try_field_type_fixed_size t ≡ some n
      → is_bit_set m i ≡ true
      → deoptimize_field os m s i t ≡ some (record s { restored = s.restored ++ replicate n 0 })
  unfolding deoptimize_field
  restore_omitted n e b = ground arith

  pub restore_copied :
      (n : ℕ)
      → try_field_type_fixed_size t ≡ some n
      → is_bit_set m i ≡ false
      → s.cursor + n ≤ length os
      → deoptimize_field os m s i t
        ≡ some
            (record { cursor = s.cursor + n; restored = s.restored ++ take n (drop s.cursor os) })
  unfolding deoptimize_field
  restore_copied n e b fits = ground arith

  pub restore_prefixed :
      (n : ℕ)
      → try_field_type_fixed_size t ≡ none
      → total_size t os s.cursor ≡ n
      → s.cursor + n ≤ length os
      → deoptimize_field os m s i t
        ≡ some
            (record { cursor = s.cursor + n; restored = s.restored ++ take n (drop s.cursor os) })
  unfolding deoptimize_field
  restore_prefixed n e b fits = ground (arith, variable-cases t e, total_size-two t os s.cursor)

-- A copied span: what is read in the optimized packet, and where the next bytes stand.
pub record Span (ps os out : List ℕ) (c d n : ℕ) : Type 0 where
  pub fits : d + n ≤ length os
  pub read : take n (drop d os) ≡ take n (drop c ps)
  pub next : drop (d + n) os ≡ out
  pub size : length (take n (drop c ps)) ≡ n

pub span :
    (ps os out : List ℕ) (c d n : ℕ)
    → c + n ≤ length ps
    → d ≤ length os
    → drop d os ≡ take n (drop c ps) ++ out
    → Span ps os out c d n
span ps os out c d n inside reached e =
    let seg = take n (drop c ps) in
    let len : length seg ≡ n = omega (arith, length-take n (drop c ps), length-drop c ps) in
    record {
      fits = omega (arith, ap length e, length-drop d os, length-append seg out);
      read = ap (take n) e ∙ take-append seg out n (sym len);
      next = sym (drop-drop n d os) ∙ ap (drop n) e ∙ drop-append seg out n (sym len);
      size = len;
    }

abbrev pub at : ℕ → List ℕ → Restoring
at d restored = record { cursor = d; restored = restored }

-- The restoring loop takes one more round where its state is known.
pub deoptimize_step :
    (os m : List ℕ) (s s' : Restoring) (i : ℕ) (f : FieldDef) (fs : List FieldDef)
    → deoptimize_field os m s i f.type ≡ some s'
    → deoptimize_fields os m s i (f ∷ fs) ≡ deoptimize_fields os m s' (i + 1) fs
unfolding deoptimize_fields
deoptimize_step os m s s' i f fs e = rw (e, deoptimize_fields)

module _ {ps : List ℕ} (os : List ℕ) where
  pub copied_step :
      (m' : List ℕ) (i : ℕ) (fs : List FieldDef) (out : List ℕ) (c d n e : ℕ)
      → Span ps os out c d n
      → deoptimize_fields os m' (at (d + n) (take (c + n) ps)) (i + 1) fs
        ≡ some (at (d + n + length out) (take e ps))
      → deoptimize_fields os m' (at (d + n) (take c ps ++ take n (drop d os))) (i + 1) fs
        ≡ some (at (d + length (take n (drop c ps) ++ out)) (take e ps))
  copied_step m' i fs out c d n e sp rest =
      ap (λ l. deoptimize_fields os m' (at (d + n) (take c ps ++ l)) (i + 1) fs) sp.read
      ∙ ap (λ l. deoptimize_fields os m' (at (d + n) l) (i + 1) fs) (sym (take-add c n ps))
      ∙ rest
      ∙ ap (λ k. some (at k (take e ps)))
          (omega (arith, length-append (take n (drop c ps)) out, sp.size))

  -- Behind a trace of the optimizing loop the restoring loop rebuilds the packet up to where the
  -- trace ends.
  pub Trace-deoptimize :
      {fs : List FieldDef} {i c e : ℕ} {m m' out : List ℕ} (d : ℕ)
      → Trace ps fs i c m m' out e
      → All IsByte m
      → (i + length fs + 7) / 8 ≤ length m
      → ((j : ℕ) → i ≤ j → is_bit_set m j ≡ false)
      → d ≤ length os
      → drop d os ≡ out
      → deoptimize_fields os m' (at d (take c ps)) i fs ≡ some (at (d + length out) (take e ps))
  Trace-deoptimize {c = c} d done h room clear reached e =
      unfold deoptimize_fields in ap (λ k. some (at k (take c ps))) (omega arith)
  Trace-deoptimize {i = i} {c = c} {m = m} {m' = m'} {out = out} d
        (omitted {f = f} {fs = fs} {n = n} size fits zeros t) h room clear reached e =
      let valid = set_bit-IsByte m i h in
      let room' : (i + 1 + length fs + 7) / 8 ≤ length (set_bit m i) =
        omega (arith, length-set_bit m i) in
      let keep = (Trace-bitmap t valid room').2 in
      let bit : is_bit_set m' i ≡ true =
        keep i (omega arith) ∙ is_bit_set-set_bit m i i h (omega arith) ∙ ground arith in
      let clear' : (j : ℕ) → i + 1 ≤ j → is_bit_set (set_bit m i) j ≡ false =
        λ j le. is_bit_set-set_bit m i j h (omega arith) ∙ ground (arith, clear j (omega arith)) in
      let grown : take c ps ++ replicate n 0 ≡ take (c + n) ps =
        ap (λ l. take c ps ++ l) (sym (all_zero-replicate n ps c fits zeros))
        ∙ sym (take-add c n ps) in
      deoptimize_step os m' _ _ i f fs
        (restore_omitted os m' (at d (take c ps)) i f.type n size bit)
      ∙ ap (λ l. deoptimize_fields os m' (at d l) (i + 1) fs) grown
      ∙ Trace-deoptimize d t valid room' clear' reached e
  Trace-deoptimize {i = i} {c = c} {m = m} {m' = m'} d
        (copied {f = f} {fs = fs} {n = n} {out = out} size fits t) h room clear reached e =
      let keep = (Trace-bitmap t h (omega arith)).2 in
      let bit : is_bit_set m' i ≡ false = keep i (omega arith) ∙ clear i (omega arith) in
      let sp = span ps os out c d n fits reached e in
      deoptimize_step os m' _ _ i f fs
        (restore_copied os m' (at d (take c ps)) i f.type n size bit sp.fits)
      ∙ copied_step m' i fs out c d n _ sp (
          Trace-deoptimize (d + n) t h (omega arith) (λ j le. clear j (omega arith)) sp.fits
            sp.next)
  Trace-deoptimize {i = i} {c = c} {m = m} {m' = m'} d
        (prefixed {f = f} {fs = fs} {out = out} variable fits t) h room clear reached e =
      let n = total_size f.type ps c in
      let sp = span ps os out c d n fits reached e in
      deoptimize_step os m' _ _ i f fs (
        restore_prefixed os m' (at d (take c ps)) i f.type n variable
          (total_size-copy f.type ps os out c d e fits) sp.fits)
      ∙ copied_step m' i fs out c d n _ sp (
          Trace-deoptimize (d + n) t h (omega arith) (λ j le. clear j (omega arith)) sp.fits
            sp.next)
