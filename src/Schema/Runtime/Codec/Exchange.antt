-- ===== src/Schema/Runtime/Codec/Exchange.antt =====
-- One value written and read with the same dictionary.
use keydrop.Base.{
  ℕ, suc, ◌+◌, ◌^◌, ◌<◌, ◌≤◌, ◌≡◌, ◌≢◌, refl, sym, ap, ◌∙◌, inl, inr, arith, ◌==◌, if◌then◌else◌,
}
use keydrop.Base.{
  List, ◌++◌, none, some, length, true, false, Bool-cases, Option-cases, Text, text_key, number_key,
  find, All, IsByte, le_bytes, le_bytes-IsByte, length-le_bytes, length-append, append_assoc,
  All-append, ok,
}
use keydrop.Base.Int.{to_word}
use keydrop.Core.Endian.{Host, little}
use keydrop.Core.Encoder
use keydrop.Core.Encoder.{Encoder}
use keydrop.Core.Reader
use keydrop.Core.Reader.{M, PacketReader, ◌>>=◌, return}
use keydrop.Core.Packet.Write.{content, Appends, write_u16-Appends}
use keydrop.Core.Packet.Read.{
  At, Reads, map-Reads, >>=-ok, next-Reads, read_u8-Reads, read_u16-Reads, read_u32-Reads,
  read_u64-Reads, read_i8-Reads, read_i16-Reads, read_i32-Reads,
}
use keydrop.Schema.Types.{FieldType, FieldDef, is_variable_length, is_string}
use keydrop.Schema.Layout.{codec_for_type}
use keydrop.Schema.Layout.Fields.{describe}
use keydrop.Schema.Values.{FieldValue, type_of, write_value}
use keydrop.Schema.Values.Wire.{Valid, value_wire, write_value-wire}
use keydrop.Schema.Validator.Accepts.{Fitting}
use keydrop.Schema.Fast
use keydrop.Schema.Fast.Slots.{Short}
use keydrop.Reliability.Keydrop.Conforms.{FieldBytes, reference}
use keydrop.Reliability.Keydrop.Values.{value-FieldBytes, value-IsByte}
use keydrop.Schema.Dictionary.{AdaptiveDictionary, create_or_get, lookup_id, lookup_value}
use keydrop.Schema.Runtime.Codec.{
  keeps_strings, plainly, write_reference, encode_string, encode_value, decode_reference_value,
  decode_literal, decode_sized, decode_string, decode_bytes, decode_value,
}
use keydrop.Schema.Runtime.Codec.Lockstep.{Ready, id-fits, create_or_get-Ready, Ready-less}

-- A string may take an id of the dictionary.
abbrev pub ids_of : FieldValue → ℕ
ids_of (FieldValue.string s) = 1
ids_of _ = 0

-- A field of type string may hold a reference.
string-reference :
    (f : FieldDef) (before : List FieldDef) (id : ℕ)
    → FieldType.string ≡ f.type
    → FieldBytes (describe before f) (le_bytes 2 0xFFFF ++ le_bytes 2 id)
unfolding describe is_variable_length is_string
string-reference f before id t =
    reference (le_bytes 2 id) (ap is_variable_length (sym t)) (ap is_string (sym t))
      (length-le_bytes 2 id) refl

length-value_wire : (v : FieldValue) → Valid v → length (value_wire v) ≤ 2 ^ 17
unfolding value_wire
length-value_wire (FieldValue.u8 v) h = omega (arith, length-le_bytes 1 v)
length-value_wire (FieldValue.u16 v) h = omega (arith, length-le_bytes 2 v)
length-value_wire (FieldValue.u32 v) h = omega (arith, length-le_bytes 4 v)
length-value_wire (FieldValue.i8 v) h = omega (arith, length-le_bytes 1 (to_word (2 ^ 8) v))
length-value_wire (FieldValue.i16 v) h = omega (arith, length-le_bytes 2 (to_word (2 ^ 16) v))
length-value_wire (FieldValue.i32 v) h = omega (arith, length-le_bytes 4 (to_word (2 ^ 32) v))
length-value_wire (FieldValue.f32 v) h = omega (arith, length-le_bytes 4 v)
length-value_wire (FieldValue.f64 v) h = omega (arith, length-le_bytes 8 v)
length-value_wire (FieldValue.string s) (h, b) =
    omega (arith, h, length-append (le_bytes 2 (length s)) s, length-le_bytes 2 (length s))
length-value_wire (FieldValue.bytes s) (h, b) =
    omega (arith, h, length-append (le_bytes 2 (length s)) s, length-le_bytes 2 (length s))

module _ (host : Host) (order : host.order ≡ little) where
  -- What one dictionary writes of a value is read back by the same dictionary, and both go on with
  -- the same one.
  pub record Exchanged (n : ℕ) (v : FieldValue) (e : Encoder) (d : AdaptiveDictionary)
      : Type 0 where
    pub wire : List ℕ
    pub next : AdaptiveDictionary
    pub after : Encoder
    pub written : encode_value host (codec_for_type (type_of v)) e v d ≡ (ok after, next)
    pub appended : content after ≡ content e ++ wire
    pub bytes : All IsByte wire
    pub small : length wire ≤ 2 ^ 17
    pub shaped :
        (f : FieldDef) (before : List FieldDef) → Fitting f v → FieldBytes (describe before f) wire
    pub reads :
        (rest : List ℕ) (r : PacketReader)
        → At r (wire ++ rest)
        → Reads (decode_value host (codec_for_type (type_of v)) d) r (v, next) rest
    pub ready : Ready n next

  -- A size in front of a sequence, and the sequence.
  sized-Reads :
      {A : Type 0} (f : ℕ → M A) (s rest : List ℕ) (r : PacketReader) (x : A)
      → length s < 2 ^ 16
      → ((r' : PacketReader) → At r' (s ++ rest) → Reads (f (length s)) r' x rest)
      → At r ((le_bytes 2 (length s) ++ s) ++ rest)
      → Reads (Reader.read_u16 host >>= f) r x rest
  sized-Reads f s rest r x h then_reads at =
      let (r', e, left, same) =
        read_u16-Reads (s ++ rest) r host order (length s) h
          (rw (append_assoc (le_bytes 2 (length s)) s rest) at at) in
      let (r'', e', left', same') = then_reads r' left in
      (r'', >>=-ok (Reader.read_u16 host) f e ∙ e', left', same' ∙ same)

  plainly-Reads :
      {A : Type 0} (m : M A) (f : A → FieldValue) (d : AdaptiveDictionary) (x : A) (rest : List ℕ)
      (r : PacketReader)
      → Reads m r x rest
      → Reads (plainly d m f) r (f x, d) rest
  plainly-Reads m f d x rest r = map-Reads m (λ v. (f v, d)) r x (f x, d) rest refl

  -- What the switch does with a value that is not a string.
  plain-Reads :
      (v : FieldValue) (d : AdaptiveDictionary) (rest : List ℕ) (r : PacketReader)
      → ids_of v ≡ 0
      → Valid v
      → At r (value_wire v ++ rest)
      → Reads (decode_value host (codec_for_type (type_of v)) d) r (v, d) rest
  unfolding decode_value value_wire codec_for_type type_of decode_bytes Reader.read_f32
      Reader.read_f64 Reader.read_bytes
  plain-Reads (FieldValue.u8 v) d rest r p h at =
      plainly-Reads Reader.read_u8 FieldValue.u8 d v rest r (read_u8-Reads rest r v h at)
  plain-Reads (FieldValue.u16 v) d rest r p h at =
      plainly-Reads (Reader.read_u16 host) FieldValue.u16 d v rest r
        (read_u16-Reads rest r host order v h at)
  plain-Reads (FieldValue.u32 v) d rest r p h at =
      plainly-Reads (Reader.read_u32 host) FieldValue.u32 d v rest r
        (read_u32-Reads rest r host order v h at)
  plain-Reads (FieldValue.i8 v) d rest r p h at =
      plainly-Reads Reader.read_i8 FieldValue.i8 d v rest r (read_i8-Reads host order v rest r h at)
  plain-Reads (FieldValue.i16 v) d rest r p h at =
      plainly-Reads (Reader.read_i16 host) FieldValue.i16 d v rest r
        (read_i16-Reads host order v rest r h at)
  plain-Reads (FieldValue.i32 v) d rest r p h at =
      plainly-Reads (Reader.read_i32 host) FieldValue.i32 d v rest r
        (read_i32-Reads host order v rest r h at)
  plain-Reads (FieldValue.f32 v) d rest r p h at =
      plainly-Reads (Reader.read_u32 host) FieldValue.f32 d v rest r
        (read_u32-Reads rest r host order v h at)
  plain-Reads (FieldValue.f64 v) d rest r p h at =
      plainly-Reads (Reader.read_u64 host) FieldValue.f64 d v rest r
        (read_u64-Reads rest r host order v h at)
  plain-Reads (FieldValue.string s) d rest r p h at = absurd (omega arith)
  plain-Reads (FieldValue.bytes s) d rest r p (h, bytes) at =
      plainly-Reads (decode_bytes host) FieldValue.bytes d s rest r (
        sized-Reads Reader.read_bytes s rest r s h
          (λ r' left. next-Reads s rest r' (length s) refl left) at)

  encode_value-plain :
      (e : Encoder) (v : FieldValue) (d : AdaptiveDictionary)
      → ids_of v ≡ 0
      → encode_value host (codec_for_type (type_of v)) e v d ≡ (write_value host e v, d)
  unfolding encode_value codec_for_type type_of write_value Fast.as_natural Fast.as_signed
      Fast.as_sequence
  encode_value-plain e (FieldValue.u8 v) d p = refl
  encode_value-plain e (FieldValue.u16 v) d p = refl
  encode_value-plain e (FieldValue.u32 v) d p = refl
  encode_value-plain e (FieldValue.i8 v) d p = refl
  encode_value-plain e (FieldValue.i16 v) d p = refl
  encode_value-plain e (FieldValue.i32 v) d p = refl
  encode_value-plain e (FieldValue.f32 v) d p = refl
  encode_value-plain e (FieldValue.f64 v) d p = refl
  encode_value-plain e (FieldValue.string s) d p = absurd (omega arith)
  encode_value-plain e (FieldValue.bytes s) d p = refl

  plain-Exchanged :
      (n : ℕ) (v : FieldValue) (e : Encoder) (d : AdaptiveDictionary)
      → ids_of v ≡ 0
      → Valid v
      → Short v
      → Ready n d
      → Exchanged n v e d
  plain-Exchanged n v e d p h s ready =
      let (e', done, appended) = write_value-wire host e v h in
      record {
        wire = value_wire v;
        next = d;
        after = e';
        written = encode_value-plain e v d p ∙ ap (λ x. (x, d)) done;
        appended = appended;
        bytes = value-IsByte v h;
        small = length-value_wire v h;
        shaped = λ f before fits. value-FieldBytes f before v fits h s;
        reads = λ rest r at. plain-Reads v d rest r p h at;
        ready = ready;
      }

  -- What the dictionary is after a string that is written in full.
  abbrev with_string : AdaptiveDictionary → Text → AdaptiveDictionary
  with_string d s = if keeps_strings d then (create_or_get d s).1 else d

  with_string-Ready :
      (n : ℕ) (d : AdaptiveDictionary) (s : Text) → Ready (suc n) d → Ready n (with_string d s)
  with_string-Ready n d s ready = elim (Bool-cases (keeps_strings d)) [
    | inl e ↦ rw e (create_or_get-Ready n d s ready)
    | inr e ↦ rw e (Ready-less (suc n) d n (omega arith) ready)
  ]

  literal-Reads :
      (d : AdaptiveDictionary) (s rest : List ℕ) (r : PacketReader)
      → length s < 2 ^ 16
      → length s ≢ 0xFFFF
      → At r ((le_bytes 2 (length s) ++ s) ++ rest)
      → Reads (decode_string host d) r (FieldValue.string s, with_string d s) rest
  unfolding decode_string decode_sized decode_literal Reader.read_string_from_size
  literal-Reads d s rest r h short at =
      sized-Reads (decode_sized host d) s rest r (FieldValue.string s, with_string d s) h
        (λ r' left.
          let other : (length s == 0xFFFF) ≡ false = ground (arith, short) in
          rw other (
            map-Reads (Reader.next (length s)) (λ x. (FieldValue.string x, with_string d x)) r' s
              (FieldValue.string s, with_string d s) rest refl
              (next-Reads s rest r' (length s) refl left)))
        at

  literal-Exchanged :
      (n : ℕ) (s : Text) (e : Encoder) (d : AdaptiveDictionary)
      → Valid (FieldValue.string s)
      → Short (FieldValue.string s)
      → Ready (suc n) d
      → encode_string host e s d ≡ (Encoder.write_string host e s, with_string d s)
      → Exchanged n (FieldValue.string s) e d
  unfolding value_wire encode_value codec_for_type type_of Fast.as_sequence write_value decode_value
  literal-Exchanged n s e d (h, b) short ready run =
      let v = FieldValue.string s in
      let (e', done, appended) = write_value-wire host e v (h, b) in
      record {
        wire = value_wire v;
        next = with_string d s;
        after = e';
        written = run ∙ ap (λ x. (x, with_string d s)) done;
        appended = appended;
        bytes = value-IsByte v (h, b);
        small = length-value_wire v (h, b);
        shaped = λ f before fits. value-FieldBytes f before v fits (h, b) short;
        reads = λ rest r at. literal-Reads d s rest r h short at;
        ready = with_string-Ready n d s ready;
      }

  encode_string-literal :
      (e : Encoder) (s : Text) (d : AdaptiveDictionary)
      → ((keeps_strings d ≡ true) → find s d.id_by_value ≡ none)
      → encode_string host e s d ≡ (Encoder.write_string host e s, with_string d s)
  unfolding encode_string lookup_id
  encode_string-literal e s d unknown = elim (Bool-cases (keeps_strings d)) [
    | inl keeps ↦ ground (arith, keeps, unknown keeps)
    | inr off ↦ ground (arith, off)
  ]

  encode_string-reference :
      (e : Encoder) (s : Text) (d : AdaptiveDictionary) (id : ℕ)
      → keeps_strings d ≡ true
      → find s d.id_by_value ≡ some id
      → encode_string host e s d ≡ (write_reference host e id, d)
  unfolding encode_string lookup_id
  encode_string-reference e s d id keeps known = ground (arith, keeps, known)

  write_reference-Appends :
      (e : Encoder) (id : ℕ)
      → id < 2 ^ 16
      → Appends e (le_bytes 2 0xFFFF ++ le_bytes 2 id) (write_reference host e id)
  unfolding write_reference
  write_reference-Appends e id h =
      let (e', one, front) = write_u16-Appends host e 0xFFFF (omega arith) in
      let (e'', two, back) = write_u16-Appends host e' id h in
      (
        e'',
        ground (arith, one, two),
        back
            ∙ ap (λ l. l ++ le_bytes 2 id) front
            ∙ append_assoc (content e) (le_bytes 2 0xFFFF) (le_bytes 2 id),
      )

  reference-Reads :
      (d : AdaptiveDictionary) (s : Text) (id : ℕ) (rest : List ℕ) (r : PacketReader)
      → id < 2 ^ 16
      → find id d.value_by_id ≡ some s
      → At r ((le_bytes 2 0xFFFF ++ le_bytes 2 id) ++ rest)
      → Reads (decode_string host d) r (FieldValue.string s, d) rest
  unfolding decode_string decode_sized decode_reference_value lookup_value
  reference-Reads d s id rest r h known at =
      let (r', e, left, same) =
        read_u16-Reads (le_bytes 2 id ++ rest) r host order 0xFFFF (omega arith)
          (rw (append_assoc (le_bytes 2 0xFFFF) (le_bytes 2 id) rest) at at) in
      let (r'', e', left', same') = read_u16-Reads rest r' host order id h left in
      (r'', ground (arith, e, e', known), left', same' ∙ same)

  reference-Exchanged :
      (n : ℕ) (s : Text) (e : Encoder) (d : AdaptiveDictionary) (id : ℕ)
      → Ready (suc n) d
      → keeps_strings d ≡ true
      → find s d.id_by_value ≡ some id
      → Exchanged n (FieldValue.string s) e d
  unfolding encode_value codec_for_type type_of Fast.as_sequence decode_value
  reference-Exchanged n s e d id ready keeps known =
      let fits = id-fits (suc n) d s id ready known in
      let (e', done, appended) = write_reference-Appends e id fits in
      record {
        wire = le_bytes 2 0xFFFF ++ le_bytes 2 id;
        next = d;
        after = e';
        written = encode_string-reference e s d id keeps known ∙ ap (λ x. (x, d)) done;
        appended = appended;
        bytes =
            All-append IsByte (le_bytes 2 0xFFFF) (le_bytes 2 id) (le_bytes-IsByte 2 0xFFFF)
              (le_bytes-IsByte 2 id);
        small = omega (
          arith,
          length-append (le_bytes 2 0xFFFF) (le_bytes 2 id),
          length-le_bytes 2 0xFFFF,
          length-le_bytes 2 id,
        );
        shaped = λ f before fitting. string-reference f before id fitting.0;
        reads =
            λ rest r at. reference-Reads d s id rest r fits (ready.inverse.value_of s id known) at;
        ready = Ready-less (suc n) d n (omega arith) ready;
      }

  none_taken : (n : ℕ) (d : AdaptiveDictionary) → Ready (0 + n) d → Ready n d
  none_taken n d ready = Ready-less (0 + n) d n (omega arith) ready

  pub exchange :
      (n : ℕ) (v : FieldValue) (e : Encoder) (d : AdaptiveDictionary)
      → Valid v
      → Short v
      → Ready (ids_of v + n) d
      → Exchanged n v e d
  exchange n (FieldValue.string s) e d h short ready =
      let more : Ready (suc n) d = Ready-less (1 + n) d (suc n) (omega arith) ready in
      elim (Option-cases (find s d.id_by_value)) [
        | inl absent ↦
            literal-Exchanged n s e d h short more (encode_string-literal e s d (λ keeps. absent))
        | inr (id, known) ↦ elim (Bool-cases (keeps_strings d)) [
          | inl keeps ↦ reference-Exchanged n s e d id more keeps known
          | inr off ↦
              literal-Exchanged n s e d h short more
                (encode_string-literal e s d (λ keeps. absurd (ground (arith, keeps, off))))
        ]
      ]
  exchange n (FieldValue.u8 v) e d h s ready =
      plain-Exchanged n (FieldValue.u8 v) e d refl h s (none_taken n d ready)
  exchange n (FieldValue.u16 v) e d h s ready =
      plain-Exchanged n (FieldValue.u16 v) e d refl h s (none_taken n d ready)
  exchange n (FieldValue.u32 v) e d h s ready =
      plain-Exchanged n (FieldValue.u32 v) e d refl h s (none_taken n d ready)
  exchange n (FieldValue.i8 v) e d h s ready =
      plain-Exchanged n (FieldValue.i8 v) e d refl h s (none_taken n d ready)
  exchange n (FieldValue.i16 v) e d h s ready =
      plain-Exchanged n (FieldValue.i16 v) e d refl h s (none_taken n d ready)
  exchange n (FieldValue.i32 v) e d h s ready =
      plain-Exchanged n (FieldValue.i32 v) e d refl h s (none_taken n d ready)
  exchange n (FieldValue.f32 v) e d h s ready =
      plain-Exchanged n (FieldValue.f32 v) e d refl h s (none_taken n d ready)
  exchange n (FieldValue.f64 v) e d h s ready =
      plain-Exchanged n (FieldValue.f64 v) e d refl h s (none_taken n d ready)
  exchange n (FieldValue.bytes v) e d h s ready =
      plain-Exchanged n (FieldValue.bytes v) e d refl h s (none_taken n d ready)
