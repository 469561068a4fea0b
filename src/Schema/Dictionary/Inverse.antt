-- ===== src/Schema/Dictionary/Inverse.antt =====
-- The two maps of the dictionary are inverse to each other.
use keydrop.Base.{ℕ, ◌≡◌, arith}
use keydrop.Base.{
  none, some, Text, text_eq_iff, text_key, number_key, find, find-assign, find-erase,
}
use keydrop.Schema.Dictionary.{AdaptiveDictionary, without, entered}

pub record Inverse (d : AdaptiveDictionary) : Type 0 where
  pub value_of : (v : Text) (i : ℕ) → find v d.id_by_value ≡ some i → find i d.value_by_id ≡ some v
  pub id_of : (v : Text) (i : ℕ) → find i d.value_by_id ≡ some v → find v d.id_by_value ≡ some i

module _ (d : AdaptiveDictionary) (inverse : Inverse d) where
  pub without-Inverse : (i : ℕ) (v : Text) → find i d.value_by_id ≡ some v → Inverse (without d i v)
  without-Inverse i v found = record {
    value_of = λ w j h. ground (
      arith,
      find-erase v w d.id_by_value,
      find-erase i j d.value_by_id,
      text_eq_iff v w,
      inverse.value_of w j,
      found,
    );
    id_of = λ w j h. ground (
      arith,
      find-erase v w d.id_by_value,
      find-erase i j d.value_by_id,
      text_eq_iff v w,
      inverse.id_of w j,
      inverse.id_of v i found,
    );
  }

  pub entered-Inverse :
      (v : Text)
      → find v d.id_by_value ≡ none
      → find d.next_id d.value_by_id ≡ none
      → Inverse (entered d v)
  entered-Inverse v new_value new_id = record {
    value_of = λ w j h. ground (
      arith,
      find-assign v w d.next_id d.id_by_value,
      find-assign d.next_id j v d.value_by_id,
      text_eq_iff v w,
      inverse.value_of w j,
      new_id,
    );
    id_of = λ w j h. ground (
      arith,
      find-assign v w d.next_id d.id_by_value,
      find-assign d.next_id j v d.value_by_id,
      text_eq_iff v w,
      inverse.id_of w j,
      new_value,
    );
  }
