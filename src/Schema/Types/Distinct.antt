-- ===== src/Schema/Types/Distinct.antt =====
-- Fields whose names differ.
use keydrop.Base.{◌≢◌, List, [], ◌∷◌, All, Text}
use keydrop.Schema.Types.{FieldDef}

-- No field has the name.
abbrev pub Unnamed : Text → List FieldDef → Type 0
Unnamed name fields = All (λ f. f.name ≢ name) fields

abbrev pub Distinct : List FieldDef → Type 0
Distinct [] = Unit {0}
Distinct (f ∷ fs) = Unnamed f.name fs × Distinct fs
