-- ===== src/Settings/Merge.antt =====
-- useful_blockchain/settings.py: what stands at a key after `_deep_merge`.
use easyblockchain.Prelude.{
  ◌≡◌, ◌∙◌, ap, refl, subst, String, Option, none, some, str_eq, str_eq_iff, if◌then◌else◌,
  Bool-cases, inl, inr,
}
use easyblockchain.Python.Value.{Value, obj, Fields, end, field}
use easyblockchain.Python.Fields.{find, put, find-put}
use easyblockchain.Settings.Values.{deep_merge, merged_value}

-- The keys of a dict are distinct.
abbrev pub HasDistinctKeys : Fields → Type 0
HasDistinctKeys end = Unit
HasDistinctKeys (field k v rest) = (find k rest ≡ none) × HasDistinctKeys rest

-- a mapping that overrides what may be there: it is merged into a mapping, and else takes its place
abbrev pub merged_into : Option Value → Fields → Value
merged_into (some (obj base)) override = obj (deep_merge base override)
merged_into _ override = obj override

-- the value at a key, by what the two mappings have there
abbrev pub overridden : Option Value → Option Value → Option Value
overridden present none = present
overridden present (some (obj override)) = some (merged_into present override)
overridden present (some v) = some v

merged_value-merged_into :
    (present : Option Value) (override : Fields)
    → merged_value present (obj override) ≡ merged_into present override
unfolding deep_merge
merged_value-merged_into none override = refl
merged_value-merged_into (some (obj base)) override = refl
merged_value-merged_into (some _) override = refl

merged_value-overridden :
    (present : Option Value) (v : Value)
    → some (merged_value present v) ≡ overridden present (some v)
unfolding deep_merge
merged_value-overridden present (obj override) = ap some (merged_value-merged_into present override)
merged_value-overridden present _ = refl

-- After a merge with an override whose keys are distinct, a key that the override has not keeps what
-- it had; a key with a mapping on both sides has the one merged with the other, in the same way;
-- and any other key of the override has the override's value.
pub find-deep_merge :
    (key : String) (base override : Fields)
    → HasDistinctKeys override
    → find key (deep_merge base override) ≡ overridden (find key base) (find key override)
unfolding deep_merge find
find-deep_merge key base end distinct = refl
find-deep_merge key base (field k v rest) (fresh, distinct) =
    find-deep_merge key (put k (merged_value (find k base) v) base) rest distinct ∙ step
  where
    step :
        overridden (find key (put k (merged_value (find k base) v) base)) (find key rest)
        ≡ overridden (find key base) (if str_eq k key then some v else find key rest)
    step = elim (Bool-cases (str_eq k key)) [
      | inl e ↦
          let same = (str_eq_iff k key).0 e in
          let absent = subst (λ j. find j rest ≡ none) same fresh in
          rw (find-put, e, absent)
            (ap (λ j. some (merged_value (find j base) v)) same
              ∙ merged_value-overridden (find key base) v)
      | inr e ↦ rw (find-put, e) refl
    ]
