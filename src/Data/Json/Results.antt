-- ===== src/Data/Json/Results.antt =====
-- What the JSON value of a list of entries says.
use rpiweatherd.Base.{◌≤◌, ◌≡◌, ◌≢◌, none, some, List, [], ◌∷◌, ◌++◌, length, codes, All, arith}
use rpiweatherd.Data.Entries.{Entry}
use rpiweatherd.Data.Json.{Call, field_key, entry_fields, lookup}
use rpiweatherd.Data.Json.Lookup.{field_calls}

module _ {F : Type 0} where
  pub short_fields : (e : Entry F) → All (λ f. length f.0 ≤ 11) (entry_fields e)
  short_fields e =
      (omega arith, (omega arith, (omega arith, (omega arith, (omega arith, (omega arith, tt))))))

  abbrev pub result_calls : List (Entry F) → List (Call F)
  result_calls [] = []
  result_calls (e ∷ es) = field_calls (codes "results.") e.id (entry_fields e) ++ result_calls es

  -- No two entries have one id.
  abbrev pub DistinctIds : List (Entry F) → Type 0
  DistinctIds [] = Unit
  DistinctIds (e ∷ es) = All (λ d. e.id ≢ d.id) es × DistinctIds es

  -- No string of the entry is NULL.
  pub record HasTexts (e : Entry F) : Type 0 where
    pub dated : e.record_date ≢ none
    pub located : e.location ≢ none
    pub named : e.device_name ≢ none

  -- Every field of the entry is found under its key.
  abbrev pub Shows : List (Call F) → Entry F → Type 0
  Shows calls e =
      All (λ f. lookup (field_key (codes "results.") e.id f.0) calls ≡ some f.1) (entry_fields e)
