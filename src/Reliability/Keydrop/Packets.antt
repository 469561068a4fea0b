-- ===== src/Reliability/Keydrop/Packets.antt =====
-- `check_keydrop_packet` accepts exactly the packets of the schema.
use keydrop.Base.{
  ℕ, ◌+◌, ◌^◌, ◌≤◌, ◌<◌, ◌≡◌, sym, ap, ◌∙◌, ◌↔◌, inl, inr, arith, true, false, Bool-cases,
}
use keydrop.Base.{
  List, [], ◌∷◌, ◌++◌, length, take, drop, All, IsByte, le_bytes, length-append, length-take,
  length-drop, length-le_bytes,
}
use keydrop.Base.{
  take-append-drop, drop-append, nil_of_length, read_u16_le, read_u16_le-take, read_u16_le-le_bytes,
}
use mathlib.Core.Path.{subst}
use keydrop.Schema.Types.{FieldDef, SchemaDef, is_variable_length}
use keydrop.Schema.Layout.{FieldLayout, PacketLayout, build_packet_layout}
use keydrop.Schema.Layout.Fields.{
  descriptions, describe, sum_by, least_size, any_variable, fixed_bytes, fixed_size-cases,
}
use keydrop.Schema.Layout.Fields.{Describes, build_packet_layout-Describes}
use keydrop.Reliability.Keydrop.{check_layout, check_fields, check_keydrop_packet}
use keydrop.Reliability.Keydrop.Conforms.{
  Conforms, FieldBytes, fixed, reference, literal, check_fields_iff,
}

-- The message id, low byte first, and the fields behind it.
abbrev pub IsPacket : SchemaDef → List ℕ → Type 0
IsPacket schema p =
    (rest : List ℕ) × (p ≡ le_bytes 2 schema.message_id ++ rest)
    × Conforms (descriptions [] schema.fields) rest

fixed_facts :
    (f : FieldDef) (fs : List FieldDef)
    → any_variable (f ∷ fs) ≡ false
    → (is_variable_length f.type ≡ false)
      × (fixed_bytes f.type ≡ least_size f.type)
      × (any_variable fs ≡ false)
unfolding any_variable fixed_bytes least_size
fixed_facts f fs v = ground (arith, fixed_size-cases f.type)

-- Where no field is variable, the bytes conform that have the size of the fields.
fixed-Conforms :
    (fs before : List FieldDef) (bytes : List ℕ)
    → any_variable fs ≡ false
    → length bytes ≡ sum_by least_size fs
    → Conforms (descriptions before fs) bytes
unfolding sum_by descriptions describe
fixed-Conforms [] before bytes v h = nil_of_length bytes h
fixed-Conforms (f ∷ fs) before bytes v h =
    let (var, size, more) = fixed_facts f fs v in
    let n = least_size f.type in
    let len : length (take n bytes) ≡ fixed_bytes f.type =
      omega (arith, size, length-take n bytes) in
    (
      take n bytes,
      drop n bytes,
      sym (take-append-drop n bytes),
      fixed var len,
      fixed-Conforms fs (before ++ (f ∷ [])) (drop n bytes) more
          (omega (arith, length-drop n bytes)),
    )

fixed_seg :
    (f : FieldLayout) (seg : List ℕ)
    → f.variable_length ≡ false
    → FieldBytes f seg
    → length seg ≡ f.fixed_size
fixed_seg f seg v (fixed var size) = size
fixed_seg f seg v (reference id var str two s) = cc
fixed_seg f seg v (literal content var small plain limit s) = cc

pub Conforms-fixed :
    (fs before : List FieldDef) (bytes : List ℕ)
    → any_variable fs ≡ false
    → Conforms (descriptions before fs) bytes
    → length bytes ≡ sum_by least_size fs
unfolding sum_by descriptions
Conforms-fixed [] before bytes v h = ap length h
Conforms-fixed (f ∷ fs) before bytes v (seg, tail, e, field, rest) =
    let (var, size, more) = fixed_facts f fs v in
    let first : length seg ≡ fixed_bytes f.type =
      unfold describe in fixed_seg (describe before f) seg var field in
    omega (
      arith,
      first,
      size,
      ap length e,
      length-append seg tail,
      Conforms-fixed fs (before ++ (f ∷ [])) tail more rest,
    )

-- The test of the message id.
id_iff :
    (p : List ℕ) (id : ℕ)
    → All IsByte p
    → id < 2 ^ 16
    → 2 ≤ length p
    → (read_u16_le p 0 ≡ id) ↔ (p ≡ le_bytes 2 id ++ drop 2 p)
id_iff p id bytes small two = (
  λ e.
      sym (take-append-drop 2 p)
      ∙ ap (λ l. l ++ drop 2 p) ((read_u16_le-take p 0 bytes (omega arith)).0 ∙ ap (le_bytes 2) e),
  λ e. read_u16_le-le_bytes p (drop 2 p) 0 id small e,
)

module _ (p : List ℕ) (l : PacketLayout) where
  ok_fixed :
      l.fixed_size_only ≡ true
      → ((check_layout p l).ok ≡ true)
        ↔ ((2 ≤ length p) × (read_u16_le p 0 ≡ l.message_id) × (length p ≡ l.fixed_packet_size))
  unfolding check_layout
  ok_fixed only = (λ h. ground arith, λ h. ground arith)

  ok_walk :
      l.fixed_size_only ≡ false
      → ((check_layout p l).ok ≡ true) ↔ (
          (2 ≤ length p)
          × (read_u16_le p 0 ≡ l.message_id)
          × ((check_fields p 2 l.fields).ok ≡ true))
  unfolding check_layout
  ok_walk some_variable = (λ h. ground arith, λ h. ground arith)

module _ (p : List ℕ) (schema : SchemaDef) (bytes : All IsByte p)
    (small : schema.message_id < 2 ^ 16) where
  -- A packet as its id and what follows.
  split : IsPacket schema p ↔ (
      (2 ≤ length p)
      × (read_u16_le p 0 ≡ schema.message_id)
      × Conforms (descriptions [] schema.fields) (drop 2 p))
  split = (
    λ (rest, e, fields).
        let two : 2 ≤ length p = omega (
          arith,
          ap length e,
          length-append (le_bytes 2 schema.message_id) rest,
          length-le_bytes 2 schema.message_id,
        ) in
        let behind : drop 2 p ≡ rest =
          ap (drop 2) e
          ∙ drop-append (le_bytes 2 schema.message_id) rest 2
              (sym (length-le_bytes 2 schema.message_id)) in
        (
          two,
          (id_iff p schema.message_id bytes small two).1
              (e ∙ ap (λ t. le_bytes 2 schema.message_id ++ t) (sym behind)),
          subst (Conforms (descriptions [] schema.fields)) (sym behind) fields,
        ),
    λ (two, id, fields). (drop 2 p, (id_iff p schema.message_id bytes small two).0 id, fields),
  )

  module _ (l : PacketLayout) (d : Describes schema l) where
    -- The fixed-size branch tests the size alone, which is enough.
    fixed_branch :
        l.fixed_size_only ≡ true
        → 2 ≤ length p
        → (length p ≡ l.fixed_packet_size) ↔ Conforms (descriptions [] schema.fields) (drop 2 p)
    fixed_branch only two =
        let none_variable : any_variable schema.fields ≡ false =
          ground (arith, d.totals.only_fixed) in
        let size : l.fixed_packet_size ≡ 2 + sum_by least_size schema.fields =
          ground (arith, d.fixed, d.totals.least) in
        (
          λ h.
              fixed-Conforms schema.fields [] (drop 2 p) none_variable
                (omega (arith, size, length-drop 2 p)),
          λ h. omega (
            arith,
            size,
            length-drop 2 p,
            Conforms-fixed schema.fields [] (drop 2 p) none_variable h,
          ),
        )

    walk_branch :
        2 ≤ length p
        → ((check_fields p 2 l.fields).ok ≡ true)
          ↔ Conforms (descriptions [] schema.fields) (drop 2 p)
    walk_branch two =
        let both = check_fields_iff l.fields p 2 bytes two in
        (
          λ h. subst (λ fs. Conforms fs (drop 2 p)) d.each (both.0 h),
          λ h. both.1 (subst (λ fs. Conforms fs (drop 2 p)) (sym d.each) h),
        )

    check_layout_iff : ((check_layout p l).ok ≡ true) ↔ IsPacket schema p
    check_layout_iff = elim (Bool-cases l.fixed_size_only) [
      | inl only ↦ (
        λ h.
            let (two, id, size) = (ok_fixed p l only).0 h in
            split.1 (two, id ∙ d.same_id, (fixed_branch only two).0 size),
        λ h.
            let (two, id, fields) = split.0 h in
            (ok_fixed p l only).1 (two, id ∙ sym d.same_id, (fixed_branch only two).1 fields),
      )
      | inr some_variable ↦ (
        λ h.
            let (two, id, walked) = (ok_walk p l some_variable).0 h in
            split.1 (two, id ∙ d.same_id, (walk_branch two).0 walked),
        λ h.
            let (two, id, fields) = split.0 h in
            (ok_walk p l some_variable).1 (two, id ∙ sym d.same_id, (walk_branch two).1 fields),
      )
    ]

-- The check accepts a packet of bytes exactly where the packet is the message id of the schema, low
-- byte first, and then the bytes of its fields in order with nothing behind them: also where it
-- only compares sizes, because no field is variable.
pub check_keydrop_packet_iff :
    (p : List ℕ) (schema : SchemaDef)
    → All IsByte p
    → schema.message_id < 2 ^ 16
    → ((check_keydrop_packet p schema).ok ≡ true) ↔ IsPacket schema p
unfolding check_keydrop_packet
check_keydrop_packet_iff p schema bytes small =
    check_layout_iff p schema bytes small (build_packet_layout schema)
      (build_packet_layout-Describes schema)
