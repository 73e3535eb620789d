-- ===== src/Academic/Isolation/Rows.antt =====
-- Tables of rows with a branch, before and after a step that concerns one branch.
use kingsway_academy.Base.{
  String, ◌≡◌, ◌≢◌, ◌∙◌, ap, inl, inr, some, none, Bool-cases, ◌==◌, arith, eq_iff,
}
use kingsway_academy.Map.{Map, lookup, insert, insert-cases, lookup-insert}

module _ {V : Type 0} (branch_of : V → String) (b : String) where
  -- No row of another branch comes in or changes.
  pub record Adds (t t' : Map V) : Type 0 where
    pub no_other :
        (k : String) (v : V) → lookup k t' ≡ some v → branch_of v ≢ b → lookup k t ≡ some v

  -- The rows of the other branches are the same.
  pub record Spares (t t' : Map V) : Type 0 where
    pub kept : (k : String) (v : V) → lookup k t ≡ some v → branch_of v ≢ b → lookup k t' ≡ some v
    pub no_other :
        (k : String) (v : V) → lookup k t' ≡ some v → branch_of v ≢ b → lookup k t ≡ some v

  pub Spares-refl : (t : Map V) → Spares t t
  Spares-refl t = record { kept = λ k v e h. e; no_other = λ k v e h. e }

  pub Spares-trans : {t t' t'' : Map V} → Spares t t' → Spares t' t'' → Spares t t''
  Spares-trans p q = record {
    kept = λ k v e h. q.kept k v (p.kept k v e h) h;
    no_other = λ k v e h. p.no_other k v (q.no_other k v e h) h;
  }

  insert_no_other :
      (id : String) (row : V) (t : Map V)
      → branch_of row ≡ b
      → (k : String) (v : V) → lookup k (insert id row t) ≡ some v
      → branch_of v ≢ b
      → lookup k t ≡ some v
  insert_no_other id row t own k v e h = elim (insert-cases id k row v t e) [
    | inl (same, is_row) ↦ absurd (h (ap branch_of is_row ∙ own))
    | inr (other, found) ↦ found
  ]

  pub Spares-insert :
      (id : String) (row : V) (t : Map V)
      → branch_of row ≡ b
      → ((v : V) → lookup id t ≡ some v → branch_of v ≡ b)
      → Spares t (insert id row t)
  Spares-insert id row t own old = record {
    kept = λ k v e h. elim (Bool-cases (id == k)) [
      | inl same ↦ absurd (h (old v (ground (arith, eq_iff id k))))
      | inr other ↦ ground (arith, lookup-insert id k row t)
    ];
    no_other = insert_no_other id row t own;
  }

  -- A row under a new id.
  pub Spares-new :
      (id : String) (row : V) (t : Map V)
      → branch_of row ≡ b
      → lookup id t ≡ none
      → Spares t (insert id row t)
  Spares-new id row t own fresh = Spares-insert id row t own (λ v found. absurd (ground arith))

  pub Adds-refl : (t : Map V) → Adds t t
  Adds-refl t = record { no_other = λ k v e h. e }

  pub Adds-insert :
      (id : String) (row : V) (t : Map V) → branch_of row ≡ b → Adds t (insert id row t)
  Adds-insert id row t own = record { no_other = insert_no_other id row t own }

  pub Adds-trans : {t t' t'' : Map V} → Adds t t' → Adds t' t'' → Adds t t''
  Adds-trans p q = record { no_other = λ k v e h. p.no_other k v (q.no_other k v e h) h }
