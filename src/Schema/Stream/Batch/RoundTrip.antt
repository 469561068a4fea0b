-- ===== src/Schema/Stream/Batch/RoundTrip.antt =====
-- Which packets are batches, and that a batch gives back its packets.
use keydrop.Base.{ℕ, zero, suc, ◌+◌, ◌%◌, ◌^◌, ◌≤◌, ◌<◌, ◌≡◌, refl, sym, ap, ◌∙◌, arith}
use keydrop.Base.{true, List, [], ◌∷◌, ◌++◌, length, get_or, take, drop, All, IsByte}
use keydrop.Base.{
  le_bytes, length-append, length-drop, length-take, drop-drop, length-le_bytes, drop-append,
  take-append, append_assoc, nil_of_length, take-append-drop,
}
use keydrop.Base.{read_u16_le, read_u16_le-le_bytes, read_u16_le-take}
use mathlib.Core.Path.{subst, ap₂}
use keydrop.Schema.Stream.Batch.{
  batch_marker, batch_part, batch_parts, build_batch_packet, expand_parts, expand_incoming,
}

-- A packet of a batch has fewer than 2 ^ 16 bytes.
abbrev pub Short : List ℕ → Type 0
Short p = length p < 2 ^ 16

part-bytes : (p : List ℕ) → Short p → batch_part p ≡ le_bytes 2 (length p) ++ p
unfolding batch_part le_bytes
part-bytes p h = let fits : length p % 2 ^ 16 ≡ length p = omega arith in rw fits

parts-cons :
    (p : List ℕ) (ps : List (List ℕ)) → batch_parts (p ∷ ps) ≡ batch_part p ++ batch_parts ps
unfolding batch_parts
parts-cons p ps = refl

-- What the loop gives on the parts at the cursor.
parts-expand :
    (ps : List (List ℕ)) (bytes : List ℕ) (cursor : ℕ)
    → All Short ps
    → cursor ≤ length bytes
    → drop cursor bytes ≡ batch_parts ps
    → expand_parts bytes (length ps) cursor ≡ (true, ps)
unfolding expand_parts batch_parts
parts-expand [] bytes cursor h inside e = ground (arith, ap length e, length-drop cursor bytes)
parts-expand (p ∷ ps) bytes cursor (hp, h) inside e =
    let e' : drop cursor bytes ≡ le_bytes 2 (length p) ++ (p ++ batch_parts ps) =
      e
      ∙ ap (λ l. l ++ batch_parts ps) (part-bytes p hp)
      ∙ append_assoc (le_bytes 2 (length p)) p (batch_parts ps) in
    let len = read_u16_le-le_bytes bytes (p ++ batch_parts ps) cursor (length p) hp e' in
    let behind : drop (cursor + 2) bytes ≡ p ++ batch_parts ps =
      sym (drop-drop 2 cursor bytes)
      ∙ ap (drop 2) e'
      ∙ drop-append (le_bytes 2 (length p)) _ 2 (sym (length-le_bytes 2 (length p))) in
    let size = length-append p (batch_parts ps) in
    let left = ap length behind ∙ size in
    let rest : drop (cursor + 2 + length p) bytes ≡ batch_parts ps =
      sym (drop-drop (length p) (cursor + 2) bytes)
      ∙ ap (drop (length p)) behind
      ∙ drop-append p (batch_parts ps) (length p) refl in
    let taken : take (length p) (drop (cursor + 2) bytes) ≡ p =
      ap (take (length p)) behind ∙ take-append p (batch_parts ps) (length p) refl in
    let room : cursor + 2 ≤ length bytes = omega (
      arith,
      ap length e',
      length-drop cursor bytes,
      length-append (le_bytes 2 (length p)) (p ++ batch_parts ps),
      length-le_bytes 2 (length p),
    ) in
    let more : cursor + 2 + length p ≤ length bytes =
      omega (arith, left, length-drop (cursor + 2) bytes, room) in
    ground
      (arith, len, taken, room, more, parts-expand ps bytes (cursor + 2 + length p) h more rest)

-- What the loop learns of a part that it takes.
expand_parts-step :
    (bytes : List ℕ) (count cursor : ℕ) (ps : List (List ℕ))
    → expand_parts bytes (suc count) cursor ≡ (true, ps)
    → let len = read_u16_le bytes cursor in
      (cursor + 2 + len ≤ length bytes)
      × (ps ≡ take len (drop (cursor + 2) bytes) ∷ (expand_parts bytes count (cursor + 2 + len)).1)
      × ((expand_parts bytes count (cursor + 2 + len)).0 ≡ true)
unfolding expand_parts
expand_parts-step bytes count cursor ps h =
    (ground (arith, h), ground (arith, h), ground (arith, h))

expand-parts :
    (bytes : List ℕ) (count cursor : ℕ) (ps : List (List ℕ))
    → All IsByte bytes
    → cursor ≤ length bytes
    → expand_parts bytes count cursor ≡ (true, ps)
    → (drop cursor bytes ≡ batch_parts ps) × (length ps ≡ count) × All Short ps
expand-parts bytes zero cursor ps b inside h =
    let none_there : [] ≡ ps = unfold expand_parts in ap (λ x. x.1) h in
    let end : cursor ≡ length bytes = unfold expand_parts in ground arith in
    subst (λ qs. (drop cursor bytes ≡ batch_parts qs) × (length qs ≡ 0) × All Short qs) none_there
      (unfold batch_parts in
        (nil_of_length (drop cursor bytes) (omega (arith, length-drop cursor bytes)), refl, tt))
expand-parts bytes (suc count) cursor ps b inside h =
    let len = read_u16_le bytes cursor in
    let tail = expand_parts bytes count (cursor + 2 + len) in
    let (room, shape, done) = expand_parts-step bytes count cursor ps h in
    let part = take len (drop (cursor + 2) bytes) in
    let (rest, size, short) =
      expand-parts bytes count (cursor + 2 + len) tail.1 b room (ap (λ x. (x, tail.1)) done) in
    let (two, small) = read_u16_le-take bytes cursor b (omega (arith, room)) in
    let long : length part ≡ len =
      omega
        (arith, length-take len (drop (cursor + 2) bytes), length-drop (cursor + 2) bytes, room) in
    let behind = drop (cursor + 2) bytes in
    let front : drop cursor bytes ≡ le_bytes 2 len ++ (part ++ batch_parts tail.1) =
      sym (take-append-drop 2 (drop cursor bytes))
      ∙ ap₂ (◌++◌ {A = ℕ}) two (drop-drop 2 cursor bytes)
      ∙ ap (λ l. le_bytes 2 len ++ l)
          (sym (take-append-drop len behind)
            ∙ ap (λ l. part ++ l) (drop-drop len (cursor + 2) bytes ∙ rest)) in
    let whole : drop cursor bytes ≡ batch_part part ++ batch_parts tail.1 =
      front
      ∙ sym (append_assoc (le_bytes 2 len) part (batch_parts tail.1))
      ∙ ap (λ l. l ++ batch_parts tail.1)
          (ap (λ n. le_bytes 2 n ++ part) (sym long)
            ∙ sym (part-bytes part (omega (arith, long, small)))) in
    subst (λ qs. (drop cursor bytes ≡ batch_parts qs) × (length qs ≡ suc count) × All Short qs)
      (sym shape)
      (whole ∙ sym (parts-cons part tail.1), ap suc size, (omega (arith, long, small), short))

-- A batch of fewer than 256 packets, each of fewer than 2 ^ 16 bytes, gives back these packets.
pub expand_incoming-build_batch_packet :
    (ps : List (List ℕ))
    → All Short ps
    → length ps < 2 ^ 8
    → expand_incoming (build_batch_packet ps) ≡ (true, ps)
unfolding expand_incoming build_batch_packet
expand_incoming-build_batch_packet ps h few =
    let fits : length ps % 2 ^ 8 ≡ length ps = omega arith in
    let run = parts-expand ps (batch_marker ∷ length ps ∷ batch_parts ps) 2 h (omega arith) refl in
    ground (arith, fits, run)

-- The packets that an envelope of bytes with the mark of a batch expands to are those that it was
-- built of: it is the batch of them, each is shorter than 2 ^ 16 bytes, and nothing is left over.
pub build_batch_packet-expand_incoming :
    (bytes : List ℕ) (ps : List (List ℕ))
    → All IsByte bytes
    → get_or bytes 0 0 ≡ batch_marker
    → expand_incoming bytes ≡ (true, ps)
    → (build_batch_packet ps ≡ bytes) × All Short ps
build_batch_packet-expand_incoming [] ps b m h = absurd (omega arith)
build_batch_packet-expand_incoming (x ∷ []) ps b m h =
    absurd (unfold expand_incoming in ground arith)
build_batch_packet-expand_incoming (x ∷ n ∷ rest) ps (hx, (hn, b)) m h =
    let all = x ∷ n ∷ rest in
    let run : expand_parts all n 2 ≡ (true, ps) = unfold expand_incoming in ground (arith, h, m) in
    let (parts, size, short) = expand-parts all n 2 ps (hx, (hn, b)) (omega arith) run in
    let fits : length ps % 2 ^ 8 ≡ n = omega (arith, size, hn) in
    (
      unfold build_batch_packet in
          ap₂ (λ (a : ℕ) (l : List ℕ). batch_marker ∷ a ∷ l) fits (sym parts)
          ∙ ap (λ (a : ℕ). a ∷ n ∷ rest) (sym m),
      short,
    )
