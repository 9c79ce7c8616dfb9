-- ===== src/Promotion/Keys/Scan.antt =====
-- The scan for forbidden keys (src/flight_delay/promotion/candidates.py, `_scan_keys`) against an
-- inductive account of the keys that a value holds.
use us_flight_delay_mlops.Prelude.{ℕ, suc, ◌≡◌, refl, ◌↔◌, Bool, true, false, List, String}
use us_flight_delay_mlops.Python.Result.{Result, ok, err, ◌>>=◌, ◌>>◌, raise_if}
use us_flight_delay_mlops.Python.Value.{
  Value, Items, Fields, null, bool, int, float, str, list, tuple, dict, nil, cons, end, field,
}
use us_flight_delay_mlops.Promotion.Keys.{
  Raised, Keypath, key_path, index_path, is_forbidden, scan_keys, scan_items, scan_fields,
}

-- `KeyAt path v p`: the value `v`, itself at `path`, holds a key whose own path is `p`.
mutual
  pub data KeyAt : Keypath → Value → Keypath → Type 0 where
    in_dict : {path p : Keypath} {fs : Fields} → FieldAt path fs p → KeyAt path (dict fs) p
    in_list : {path p : Keypath} {vs : Items} → ItemAt path 0 vs p → KeyAt path (list vs) p
    in_tuple : {path p : Keypath} {vs : Items} → ItemAt path 0 vs p → KeyAt path (tuple vs) p

  pub data ItemAt : Keypath → ℕ → Items → Keypath → Type 0 where
    this_item :
        {path p : Keypath} {i : ℕ} {v : Value} {vs : Items}
        → KeyAt (index_path path i) v p
        → ItemAt path i (cons v vs) p
    later_item :
        {path p : Keypath} {i : ℕ} {v : Value} {vs : Items}
        → ItemAt path (suc i) vs p
        → ItemAt path i (cons v vs) p

  pub data FieldAt : Keypath → Fields → Keypath → Type 0 where
    own_key :
        {path p : Keypath} {k : String} {v : Value} {fs : Fields}
        → p ≡ key_path path k
        → FieldAt path (field k v fs) p
    inside_field :
        {path p : Keypath} {k : String} {v : Value} {fs : Fields}
        → KeyAt (key_path path k) v p
        → FieldAt path (field k v fs) p
    later_field :
        {path p : Keypath} {k : String} {v : Value} {fs : Fields}
        → FieldAt path fs p
        → FieldAt path (field k v fs) p

>>-eq-ok : {m k : Result Raised (Unit {0})} → (m >> k) ≡ ok tt → (m ≡ ok tt) × (k ≡ ok tt)
unfolding ◌>>=◌
>>-eq-ok {m = ok tt} h = (refl, h)
>>-eq-ok {m = err e} h = (cc, cc)

raise_if-eq-ok : {b : Bool} (e : Raised) → raise_if b e ≡ ok tt → b ≡ false
raise_if-eq-ok {b = true} e h = cc
raise_if-eq-ok {b = false} e h = refl

module _ (fragments prefixes : List String) where
  mutual
    unfolding scan_keys ◌>>=◌

    scan_sound :
        {path p : Keypath} {v : Value}
        → KeyAt path v p
        → scan_keys fragments prefixes path v ≡ ok tt
        → is_forbidden fragments prefixes p ≡ false
    scan_sound (in_dict at) h = scan_fields_sound at h
    scan_sound (in_list at) h = scan_items_sound at h
    scan_sound (in_tuple at) h = scan_items_sound at h

    scan_items_sound :
        {path p : Keypath} {i : ℕ} {vs : Items}
        → ItemAt path i vs p
        → scan_items fragments prefixes path i vs ≡ ok tt
        → is_forbidden fragments prefixes p ≡ false
    scan_items_sound (this_item at) h = scan_sound at (>>-eq-ok h).0
    scan_items_sound (later_item at) h = scan_items_sound at (>>-eq-ok h).1

    scan_fields_sound :
        {path p : Keypath} {fs : Fields}
        → FieldAt path fs p
        → scan_fields fragments prefixes path fs ≡ ok tt
        → is_forbidden fragments prefixes p ≡ false
    scan_fields_sound (own_key e) h = rw e (raise_if-eq-ok _ (>>-eq-ok h).0)
    scan_fields_sound (inside_field at) h = scan_sound at (>>-eq-ok (>>-eq-ok h).1).0
    scan_fields_sound (later_field at) h = scan_fields_sound at (>>-eq-ok (>>-eq-ok h).1).1

  mutual
    unfolding scan_keys ◌>>=◌

    scan_complete :
        (path : Keypath) (v : Value)
        → ((p : Keypath) → KeyAt path v p → is_forbidden fragments prefixes p ≡ false)
        → scan_keys fragments prefixes path v ≡ ok tt
    scan_complete path (dict fs) h = scan_fields_complete path fs (λ p at. h p (in_dict at))
    scan_complete path (list vs) h = scan_items_complete path 0 vs (λ p at. h p (in_list at))
    scan_complete path (tuple vs) h = scan_items_complete path 0 vs (λ p at. h p (in_tuple at))
    scan_complete path null h = refl
    scan_complete path (bool b) h = refl
    scan_complete path (int n) h = refl
    scan_complete path (float x) h = refl
    scan_complete path (str t) h = refl

    scan_items_complete :
        (path : Keypath) (i : ℕ) (vs : Items)
        → ((p : Keypath) → ItemAt path i vs p → is_forbidden fragments prefixes p ≡ false)
        → scan_items fragments prefixes path i vs ≡ ok tt
    scan_items_complete path i nil h = refl
    scan_items_complete path i (cons v vs) h =
        rw (scan_complete (index_path path i) v (λ p at. h p (this_item at)))
          (scan_items_complete path (suc i) vs (λ p at. h p (later_item at)))

    scan_fields_complete :
        (path : Keypath) (fs : Fields)
        → ((p : Keypath) → FieldAt path fs p → is_forbidden fragments prefixes p ≡ false)
        → scan_fields fragments prefixes path fs ≡ ok tt
    scan_fields_complete path end h = refl
    scan_fields_complete path (field k v fs) h = rw (h (key_path path k) (own_key refl)) (
        rw (scan_complete (key_path path k) v (λ p at. h p (inside_field at)))
          (scan_fields_complete path fs (λ p at. h p (later_field at))))

  -- The scan accepts a value exactly when no key at any depth of it, in dicts inside lists and
  -- tuples included, has a forbidden path.
  pub scan_keys_iff :
      (path : Keypath) (v : Value)
      → (scan_keys fragments prefixes path v ≡ ok tt)
        ↔ ((p : Keypath) → KeyAt path v p → is_forbidden fragments prefixes p ≡ false)
  scan_keys_iff path v = (λ h p at. scan_sound at h, scan_complete path v)
