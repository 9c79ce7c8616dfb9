-- ===== src/Promotion/Keys.antt =====
-- src/flight_delay/promotion/candidates.py: the errors, and the scan for forbidden keys.
pub mod Scan
use us_flight_delay_mlops.Prelude.{ℕ, suc, Bool, ◌||◌, List, [], ◌∷◌, ◌++◌, String, any}
use us_flight_delay_mlops.Prelude.Text.{codes, lower, starts_with, contains, leaf_of, decimal}
use us_flight_delay_mlops.Python.Result.{Result, ok, ◌>>◌, raise_if}
use us_flight_delay_mlops.Python.Value.{
  Value, Items, Fields, list, tuple, dict, nil, cons, end, field,
}

-- `CandidateMetadataError`, by its message
pub data MetadataError : Type 0 where
  not_a_mapping : MetadataError
  forbidden_key : String → MetadataError
  unknown_fields missing_fields : List String → MetadataError
  identity_not_strings bad_git_sha size_not_positive gates_not_boolean : MetadataError
  metrics_not_mapping blank_metric_name : MetadataError
  metric_not_numeric metric_not_finite : String → MetadataError
  bad_aliases : MetadataError

-- the exceptions that the functions of this package raise or let through
pub data Raised : Type 0 where
  metadata : MetadataError → Raised
  key_error : String → Raised
  overflow_error : Raised

-- the parts of `path` that are joined by a dot
abbrev pub Keypath : Type 0
Keypath = List ℕ

abbrev pub key_path : Keypath → String → Keypath
key_path path key = path ++ b'.' ∷ codes key

abbrev pub index_path : Keypath → ℕ → Keypath
index_path path index = path ++ b'[' ∷ (decimal index ++ b']' ∷ [])

module _ (fragments prefixes : List String) where
  -- `_forbidden_key`
  unfoldable pub is_forbidden : Keypath → Bool
  is_forbidden path =
      let normalized = lower path in
      let leaf = leaf_of normalized in
      any (λ value. contains (codes value) normalized) fragments
      || any (λ value. starts_with (codes value) leaf) prefixes

  -- `_scan_keys`
  unfoldable mutual
    pub scan_keys : Keypath → Value → Result Raised (Unit {0})
    scan_keys path (dict fs) = scan_fields path fs
    scan_keys path (list vs) = scan_items path 0 vs
    scan_keys path (tuple vs) = scan_items path 0 vs
    scan_keys path _ = ok tt

    pub scan_items : Keypath → ℕ → Items → Result Raised (Unit {0})
    scan_items path index nil = ok tt
    scan_items path index (cons v vs) =
        scan_keys (index_path path index) v >> scan_items path (suc index) vs

    pub scan_fields : Keypath → Fields → Result Raised (Unit {0})
    scan_fields path end = ok tt
    scan_fields path (field k v fs) =
        raise_if (is_forbidden (key_path path k)) (metadata (forbidden_key k))
        >> (scan_keys (key_path path k) v >> scan_fields path fs)
