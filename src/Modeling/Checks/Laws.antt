-- ===== src/Modeling/Checks/Laws.antt =====
-- What the checks mean where they pass, and which failure they report.
use us_flight_delay_mlops.Prelude.{◌≡◌, refl, ap, ◌∙◌, none, some, true, List, [], ◌∷◌, All, String}
use us_flight_delay_mlops.Python.Equal.{eq_value}
use us_flight_delay_mlops.Python.Result.{Result, ok, err, ◌>>=◌, ◌>>◌}
use us_flight_delay_mlops.Python.Result.Ensures.{
  Ensures, Ensures-bind, Ensures-eq_ok, or_raise-eq-ok, require-eq-ok,
}
use us_flight_delay_mlops.Python.Value.{
  Value, Items, Fields, null, bool, int, float, str, list, tuple, dict, get_or, as_dict, as_list,
}
use us_flight_delay_mlops.Modeling.Checks.{
  ProtocolError, Line, expect, expects, section, as_mapping, identified, each_row, column,
  text_list, row_fields,
}

-- what a value holds at a path of keys, None where there is nothing
unfoldable pub look : List String → Value → Value
look [] v = v
look (key ∷ path) v = elim (as_dict v) [ none ↦ null | some d ↦ look path (get_or key null d) ]

-- the value at the path equals `expected`
abbrev pub Holds : Value → List String → Value → Type 0
Holds v path expected = eq_value (look path v) expected ≡ true

pub as_dict-eq_some : (v : Value) {d : Fields} → as_dict v ≡ some d → v ≡ dict d
as_dict-eq_some null h = cc
as_dict-eq_some (bool b) h = cc
as_dict-eq_some (int n) h = cc
as_dict-eq_some (float x) h = cc
as_dict-eq_some (str s) h = cc
as_dict-eq_some (list vs) h = cc
as_dict-eq_some (tuple vs) h = cc
as_dict-eq_some (dict fs) h = cc

-- A section that is there lies one step down.
pub look-section :
    (key : String) (d : Fields) (label : String) {fs : Fields} (path : List String)
    → section key d label ≡ ok fs
    → look (key ∷ path) (dict d) ≡ look path (dict fs)
unfolding look as_mapping
look-section key d label path h =
    ap (look path) (as_dict-eq_some (get_or key null d) (or_raise-eq-ok _ _ h))

pub look-sections :
    (key below : String) (d : Fields) (label label' : String) {fs gs : Fields} (path : List String)
    → section key d label ≡ ok fs
    → section below fs label' ≡ ok gs
    → look (key ∷ below ∷ path) (dict d) ≡ look path (dict gs)
look-sections key below d label label' {fs} path h k =
    look-section key d label (below ∷ path) h ∙ look-section below fs label' path k

-- `d[key] == expected`, where a missing key reads as None
abbrev pub Says : Fields → Line → Type 0
Says d (key, expected, label) = eq_value (get_or key null d) expected ≡ true

module _ {ℓ} {E : Type ℓ} where
  pub >>-eq-ok {ξ} :
      {B : Type ξ} (m : Result E (Unit {0})) (k : Result E B) {b : B} → (m >> k) ≡ ok b → k ≡ ok b
  unfolding ◌>>=◌
  >>-eq-ok (ok u) k h = h
  >>-eq-ok (err e) k h = cc

  pub >>-first {ξ} :
      {B : Type ξ} (m : Result E (Unit {0})) (k : Result E B) {b : B} → (m >> k) ≡ ok b → m ≡ ok tt
  unfolding ◌>>=◌
  >>-first (ok tt) k h = refl
  >>-first (err e) k h = cc

-- Lines that all pass were all true.
pub expects-Says :
    (d : Fields) (lines : List Line) {u : Unit {0}} → expects d lines ≡ ok u → All (Says d) lines
unfolding expects expect
expects-Says d [] h = tt
expects-Says d ((key, expected, label) ∷ lines) h =
    (require-eq-ok _ _ (>>-first _ _ h), expects-Says d lines (>>-eq-ok _ _ h))

pub Says-expects : (d : Fields) (lines : List Line) → All (Says d) lines → expects d lines ≡ ok tt
unfolding expects expect ◌>>=◌
Says-expects d [] h = refl
Says-expects d ((key, expected, label) ∷ lines) h = rw (h.0) (Says-expects d lines h.1)

pub expects-first :
    (d : Fields) (key label : String) (expected : Value) (lines : List Line) {u : Unit {0}}
    → expects d ((key, expected, label) ∷ lines) ≡ ok u
    → eq_value (get_or key null d) expected ≡ true
expects-first d key label expected lines h = (expects-Says d ((key, expected, label) ∷ lines) h).0

-- A line on a section is a fact on the whole.
pub section-Holds :
    (key k : String) (d : Fields) (label : String) (expected : Value) {fs : Fields}
    → section key d label ≡ ok fs
    → eq_value (get_or k null fs) expected ≡ true
    → Holds (dict d) (key ∷ k ∷ []) expected
unfolding look
section-Holds key k d label expected {fs} h e = rw (look-section key d label (k ∷ []) h) e

pub sections-Holds :
    (key below k : String) (d : Fields) (label label' : String) (expected : Value) {fs gs : Fields}
    → section key d label ≡ ok fs
    → section below fs label' ≡ ok gs
    → eq_value (get_or k null gs) expected ≡ true
    → Holds (dict d) (key ∷ below ∷ k ∷ []) expected
unfolding look
sections-Holds key below k d label label' expected {fs} {gs} h h' e =
    rw (look-sections key below d label label' (k ∷ []) h h') e

-- the last step of a block
pub Ensures-end {ℓ κ} :
    {E : Type ℓ} (P : Unit {0} → Type κ) (m : Result E (Unit {0}))
    → (m ≡ ok tt → P tt)
    → Ensures P m
Ensures-end P (ok tt) h = h refl
Ensures-end P (err e) h = tt

-- A loop that raises nothing has checked every row.
pub each_row-All :
    (check : Fields → Result ProtocolError (Unit {0})) (rows : List Fields)
    → each_row check rows ≡ ok tt
    → All (λ row. check row ≡ ok tt) rows
unfolding each_row
each_row-All check [] h = tt
each_row-All check (row ∷ rows) h = (>>-first _ _ h, each_row-All check rows (>>-eq-ok _ _ h))

-- `rows` is a list of mappings, which are these.
pub record AreRows (rows : Value) (fields : List Fields) : Type 0 where
  pub items : Items
  pub is_list : as_list rows ≡ some items
  pub are_fields : row_fields items ≡ ok fields

pub identified-AreRows :
    (rows : Value) (key : String) (names : List String) (message : String) {fields : List Fields}
    → identified rows key names message ≡ ok fields
    → AreRows rows fields
unfolding identified
identified-AreRows rows key names message h =
    Ensures-eq_ok (λ fields. AreRows rows fields) _
      (Ensures-bind _ _ _ λ items is_list. Ensures-bind _ _ _ λ fields are_fields.
        Ensures-bind _ _ _ λ _ _. record {
          items = items;
          is_list = or_raise-eq-ok _ _ is_list;
          are_fields = are_fields;
        })
      h

pub identified-column :
    (rows : Value) (key : String) (names : List String) (message : String) {fields : List Fields}
    → identified rows key names message ≡ ok fields
    → eq_value (column key fields) (text_list names) ≡ true
unfolding identified
identified-column rows key names message h =
    Ensures-eq_ok (λ fields. eq_value (column key fields) (text_list names) ≡ true) _
      (Ensures-bind _ _ _ λ items _.
        Ensures-bind _ _ _ λ fields _. Ensures-bind _ _ _ λ _ same. require-eq-ok _ _ same)
      h
