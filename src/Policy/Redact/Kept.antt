-- ===== src/Policy/Redact/Kept.antt =====
-- What redaction (mcp-proxy/src/policy/redact.rs) keeps of a value.
use sqreen_core.Prelude.{
  ℕ, zero, suc, ◌≡◌, refl, ap, ◌∙◌, subst, arith, String, Bool, true, false, Option, none, some,
  List, [], ◌∷◌, ◌⊎◌, inl, inr, if◌then◌else◌,
}
use sqreen_core.Json.{
  Value, Items, Fields, null, bool, number, string, array, object, nil, cons, end, field,
}
use sqreen_core.Policy.Redact.{redacted, is_sensitive, redact_value_ci, redact_items, redact_fields}

-- The items and the entries of a value, by position
abbrev pub item_at : ℕ → Items → Option Value
item_at n nil = none
item_at zero (cons v xs) = some v
item_at (suc n) (cons v xs) = item_at n xs

abbrev pub field_at : ℕ → Fields → Option (String × Value)
field_at n end = none
field_at zero (field k v fs) = some (k, v)
field_at (suc n) (field k v fs) = field_at n fs

-- The value `w` stands in a value at the end of a path of positions, and no key on the way, which
-- `keys` lists, is sensitive.
pub data At (keys : List (List ℕ)) (w : Value) : List (ℕ ⊎ (ℕ × String)) → Value → Type 0 where
  here : At keys w [] w
  in_array :
      (n : ℕ) (xs : Items) (v : Value) (path : List (ℕ ⊎ (ℕ × String)))
      → item_at n xs ≡ some v
      → At keys w path v
      → At keys w (inl n ∷ path) (array xs)
  in_object :
      (n : ℕ) (fs : Fields) (k : String) (v : Value) (path : List (ℕ ⊎ (ℕ × String)))
      → field_at n fs ≡ some (k, v)
      → is_sensitive keys k ≡ false
      → At keys w path v
      → At keys w (inr (n, k) ∷ path) (object fs)

some-injective {ℓ} : {A : Type ℓ} {a b : A} → some a ≡ some b → a ≡ b
some-injective h = cc

module _ (keys : List (List ℕ)) where
  item_at-redact_items :
      (n : ℕ) (xs : Items) (v : Value)
      → item_at n xs ≡ some v
      → item_at n (redact_items keys xs) ≡ some (redact_value_ci keys v)
  unfolding redact_items
  item_at-redact_items n nil v h = ground (arith, h)
  item_at-redact_items zero (cons x xs) v h =
      ap (λ (o : Value). some (redact_value_ci keys o)) (some-injective h)
  item_at-redact_items (suc n) (cons x xs) v h = item_at-redact_items n xs v h

  field_at-redact_fields :
      (n : ℕ) (fs : Fields) (k : String) (v : Value)
      → field_at n fs ≡ some (k, v)
      → is_sensitive keys k ≡ false
      → field_at n (redact_fields keys fs) ≡ some (k, redact_value_ci keys v)
  unfolding redact_fields
  field_at-redact_fields n end k v h s = ground (arith, h)
  field_at-redact_fields zero (field k' v' fs) k v h s =
      ap
        (λ (e : String × Value).
          some (e.0, (if is_sensitive keys e.0 then redacted else redact_value_ci keys e.1)))
        (some-injective h)
      ∙ ap (λ (b : Bool). some (k, (if b then redacted else redact_value_ci keys v))) s
  field_at-redact_fields (suc n) (field k' v' fs) k v h s = field_at-redact_fields n fs k v h s

  redact_value_ci-At :
      (w : Value) (path : List (ℕ ⊎ (ℕ × String))) (v : Value)
      → At keys w path v
      → At keys (redact_value_ci keys w) path (redact_value_ci keys v)
  unfolding redact_value_ci
  redact_value_ci-At w _ _ here = here
  redact_value_ci-At w _ _ (in_array n xs v path e h) =
      in_array n (redact_items keys xs) (redact_value_ci keys v) path
        (item_at-redact_items n xs v e) (redact_value_ci-At w path v h)
  redact_value_ci-At w _ _ (in_object n fs k v path e s h) =
      in_object n (redact_fields keys fs) k (redact_value_ci keys v) path
        (field_at-redact_fields n fs k v e s) s (redact_value_ci-At w path v h)

  -- A value that is neither an array nor an object
  abbrev pub is_scalar : Value → Bool
  is_scalar (array _) = false
  is_scalar (object _) = false
  is_scalar _ = true

  scalar_same : (w : Value) → is_scalar w ≡ true → redact_value_ci keys w ≡ w
  unfolding redact_value_ci
  scalar_same (array xs) h = ground (arith, h)
  scalar_same (object fs) h = ground (arith, h)
  scalar_same null h = refl
  scalar_same (bool b) h = refl
  scalar_same (number n) h = refl
  scalar_same (string s) h = refl

  -- Redaction touches nothing else: a value that is neither an array nor an object, and that stands
  -- at the end of a path of positions and keys of which none is sensitive, stands at the end of the
  -- same path afterwards.
  pub redact_value_ci-keeps :
      (w : Value) (path : List (ℕ ⊎ (ℕ × String))) (v : Value)
      → is_scalar w ≡ true
      → At keys w path v
      → At keys w path (redact_value_ci keys v)
  redact_value_ci-keeps w path v s h =
      subst (λ (x : Value). At keys x path (redact_value_ci keys v)) (scalar_same w s)
        (redact_value_ci-At w path v h)
