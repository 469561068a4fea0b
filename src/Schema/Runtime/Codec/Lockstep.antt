-- ===== src/Schema/Runtime/Codec/Lockstep.antt =====
-- The sender's dictionary and the receiver's change in the same way: what the writer of a value does
-- to the one, its reader does to the other.
use keydrop.Base.{ℕ, suc, ◌+◌, ◌^◌, ◌≤◌, ◌<◌, ◌≡◌, sym, inl, inr, arith, leb}
use keydrop.Base.{
  none, some, Bool-cases, Option-cases, Text, text_key, number_key, find, find-assign,
}
use mathlib.Core.Path.{subst}
use keydrop.Schema.Dictionary.{AdaptiveDictionary, entered, make_room, size, create_or_get}
use keydrop.Schema.Dictionary.Inverse.{Inverse, entered-Inverse}
use keydrop.Schema.Dictionary.Keeps.{
  make_room-Roomy, create_or_get-there, create_or_get-full, create_or_get-entered,
}

-- The maps are inverse, no id from the next one on is taken, and `n` more ids do not wrap.
pub record Ready (n : ℕ) (d : AdaptiveDictionary) : Type 0 where
  pub inverse : Inverse d
  pub fresh : (i : ℕ) → d.next_id ≤ i → find i d.value_by_id ≡ none
  pub room : d.next_id + n < 2 ^ 16

module _ (n : ℕ) (d : AdaptiveDictionary) where
  pub Ready-less : (m : ℕ) → m ≤ n → Ready n d → Ready m d
  Ready-less m h r = record {
    inverse = r.inverse;
    fresh = r.fresh;
    room = omega (arith, r.room, h);
  }

  -- The ids of the strings that are known fit 16 bits.
  pub id-fits : (s : Text) (id : ℕ) → Ready n d → find s d.id_by_value ≡ some id → id < 2 ^ 16
  id-fits s id r known =
      let back = r.inverse.value_of s id known in ground (arith, r.fresh id, back, r.room)

module _ (n : ℕ) (d : AdaptiveDictionary) (s : Text) (ready : Ready (suc n) d) where
  roomy-Ready : (m : ℕ) → m ≤ suc n → Ready m (make_room d)
  roomy-Ready m h =
      let r = make_room-Roomy d ready.inverse in
      record {
        inverse = r.inverse;
        fresh = λ i le. r.no_id i (ready.fresh i (omega (arith, le, r.same_next)));
        room = omega (arith, ready.room, r.same_next, h);
      }

  entered-Ready : find s (make_room d).id_by_value ≡ none → Ready n (entered (make_room d) s)
  entered-Ready absent =
      let r = roomy-Ready (suc n) (omega arith) in
      let next = (make_room d).next_id in
      record {
        inverse = entered-Inverse (make_room d) r.inverse s absent (r.fresh next (omega arith));
        fresh = λ i le.
            ground (arith, find-assign next i s (make_room d).value_by_id, r.fresh i, le, r.room);
        room = omega (arith, r.room);
      }

  -- A new string takes one of the ids at most.
  pub create_or_get-Ready : Ready n (create_or_get d s).1
  create_or_get-Ready = elim (Option-cases (find s d.id_by_value)) [
    | inr (id, there) ↦
        subst (λ x. Ready n x.1) (sym (create_or_get-there d s id there))
          (Ready-less (suc n) d n (omega arith) ready)
    | inl absent ↦ elim (Bool-cases (leb (make_room d).config.max_entries (size (make_room d)))) [
      | inl full ↦
          subst (λ x. Ready n x.1) (sym (create_or_get-full d s absent full))
            (roomy-Ready n (omega arith))
      | inr free ↦
          subst (λ x. Ready n x.1) (sym (create_or_get-entered d s absent free))
            (entered-Ready ((make_room-Roomy d ready.inverse).no_value s absent))
    ]
  ]
