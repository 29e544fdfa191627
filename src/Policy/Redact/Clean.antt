-- ===== src/Policy/Redact/Clean.antt =====
-- What redaction leaves: no secret under a sensitive key.
use sqreen_core.Prelude.{
  ℕ, ◌≡◌, refl, Bool, true, false, List, arith, ap, ap₂, subst, ◌↔◌, if◌then◌else◌,
}
use sqreen_core.Json.{
  Value, Items, Fields, null, bool, number, string, array, object, nil, cons, end, field,
}
use sqreen_core.Policy.Redact.{redacted, is_sensitive, redact_value_ci, redact_items, redact_fields}

module _ (keys : List (List ℕ)) where
  -- Every entry under a sensitive key, at any depth, holds the mark of a redacted value.
  abbrev mutual
    pub IsClean : Value → Type 0
    IsClean (object fs) = FieldsClean fs
    IsClean (array xs) = ItemsClean xs
    IsClean null = Unit
    IsClean (bool b) = Unit
    IsClean (number n) = Unit
    IsClean (string s) = Unit

    pub ItemsClean : Items → Type 0
    ItemsClean nil = Unit
    ItemsClean (cons v xs) = IsClean v × ItemsClean xs

    pub FieldsClean : Fields → Type 0
    FieldsClean end = Unit
    FieldsClean (field k v fs) =
        (is_sensitive keys k ≡ true → v ≡ redacted) × IsClean v × FieldsClean fs

  marked : (b : Bool) (v : Value) → b ≡ true → (if b then redacted else v) ≡ redacted
  marked b v h = ground arith

  marked-IsClean : (b : Bool) (v : Value) → IsClean v → IsClean (if b then redacted else v)
  marked-IsClean true v h = tt
  marked-IsClean false v h = h

  mutual
    unfolding redact_fields

    clean : (v : Value) → IsClean (redact_value_ci keys v)
    clean (object fs) = clean_fields fs
    clean (array xs) = clean_items xs
    clean null = tt
    clean (bool b) = tt
    clean (number n) = tt
    clean (string s) = tt

    clean_items : (xs : Items) → ItemsClean (redact_items keys xs)
    clean_items nil = tt
    clean_items (cons v xs) = (clean v, clean_items xs)

    clean_fields : (fs : Fields) → FieldsClean (redact_fields keys fs)
    clean_fields end = tt
    clean_fields (field k v fs) = (
      marked (is_sensitive keys k) (redact_value_ci keys v),
      marked-IsClean (is_sensitive keys k) (redact_value_ci keys v) (clean v),
      clean_fields fs,
    )

  -- After redaction every entry under a sensitive key, at any depth, holds the mark.
  pub redact_value_ci-IsClean : (v : Value) → IsClean (redact_value_ci keys v)
  redact_value_ci-IsClean v = clean v

  -- Redaction of a value that is clean changes nothing.
  mutual
    unfolding redact_fields

    clean_same : (v : Value) → IsClean v → redact_value_ci keys v ≡ v
    clean_same (object fs) h = ap object (fields_same fs h)
    clean_same (array xs) h = ap array (items_same xs h)
    clean_same null h = refl
    clean_same (bool b) h = refl
    clean_same (number n) h = refl
    clean_same (string s) h = refl

    items_same : (xs : Items) → ItemsClean xs → redact_items keys xs ≡ xs
    items_same nil h = refl
    items_same (cons v xs) h = ap₂ cons (clean_same v h.0) (items_same xs h.1)

    fields_same : (fs : Fields) → FieldsClean fs → redact_fields keys fs ≡ fs
    fields_same end h = refl
    fields_same (field k v fs) h = ground (arith, h.0, clean_same v h.1, fields_same fs h.2)

  -- A value is left as it is exactly when every entry under a sensitive key holds the mark
  -- already.
  pub redact_value_ci-eq_iff : (v : Value) → (redact_value_ci keys v ≡ v) ↔ IsClean v
  redact_value_ci-eq_iff v = (λ e. subst IsClean e (clean v), clean_same v)

  -- To redact a second time changes nothing.
  pub redact_value_ci_idem :
      (v : Value) → redact_value_ci keys (redact_value_ci keys v) ≡ redact_value_ci keys v
  redact_value_ci_idem v = clean_same (redact_value_ci keys v) (clean v)
