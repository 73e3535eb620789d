-- ===== src/Map.antt =====
-- Go's `map[string]V` as an association list. `insert` and `erase` leave one entry at most for a
-- key, and every law here holds of any list of entries.
pub mod Index
pub mod Sweep
use kingsway_academy.Base.{
  String, ◌≡◌, ◌≢◌, refl, Bool, true, false, ◌||◌, Option, none, some, List, [], ◌∷◌, arith, ◌==◌,
  eq_iff, any, false, if◌then◌else◌, ◌⊎◌, inl, inr, Option-cases, Bool-cases, eq_refl, All,
}

-- `_, ok := set[j]`, for a set given by its elements
unfoldable pub among : String → List String → Bool
among j ids = any (λ id. id == j) ids

abbrev pub Map {ℓ} : Type ℓ → Type ℓ
Map V = List (String × V)

module _ {ℓ} {V : Type ℓ} where
  -- `v, ok := m[k]`
  unfoldable pub lookup : String → Map V → Option V
  lookup k [] = none
  lookup k ((j, v) ∷ m) = if j == k then some v else lookup k m

  -- `_, ok := m[k]`
  abbrev pub contains : String → Map V → Bool
  contains k m = elim (lookup k m) [ none ↦ false | some _ ↦ true ]

  -- `m[k]`, with the zero value for a missing key
  abbrev pub get_or : String → Map V → V → V
  get_or k m zero_value = elim (lookup k m) [ none ↦ zero_value | some v ↦ v ]

  -- `delete(m, k)`
  unfoldable pub erase : String → Map V → Map V
  erase k [] = []
  erase k ((j, v) ∷ m) = if j == k then erase k m else (j, v) ∷ erase k m

  -- `m[k] = v`
  unfoldable pub insert : String → V → Map V → Map V
  unfolding erase
  insert k v m = (k, v) ∷ erase k m

  -- `for k, v := range m { if p(v) { delete(m, k) } }`
  unfoldable pub delete_where : (V → Bool) → Map V → Map V
  unfolding erase
  delete_where p [] = []
  delete_where p ((j, v) ∷ m) =
      let rest = delete_where p m in if p v then erase j rest else (j, v) ∷ rest

  -- The keys that a `range` visits.
  unfoldable pub keys : Map V → List String
  keys [] = []
  keys ((j, v) ∷ m) = j ∷ keys m

  -- `for _, v := range m { if p(v) { return … } }`: does the loop meet such a value?
  unfoldable pub any_value : (V → Bool) → Map V → Bool
  any_value p [] = false
  any_value p ((j, v) ∷ m) = p v || any_value p m

  -- `for _, v := range m { if p(v) { out = append(out, v) } }`
  unfoldable pub values_where : (V → Bool) → Map V → List V
  values_where p [] = []
  values_where p ((j, v) ∷ m) = let rest = values_where p m in if p v then v ∷ rest else rest

  -- `for k := range set { delete(m, k) }`
  unfoldable pub erase_keys : List String → Map V → Map V
  unfolding erase
  erase_keys [] m = m
  erase_keys (k ∷ ks) m = erase_keys ks (erase k m)

  -- `for k, v := range m { if p(v) { m[k] = f(k, v) } }`
  unfoldable pub update_where : (V → Bool) → (String → V → V) → Map V → Map V
  update_where p f [] = []
  update_where p f ((j, v) ∷ m) =
      let rest = update_where p f m in if p v then (j, f j v) ∷ rest else (j, v) ∷ rest

  pub lookup-erase :
      (k j : String) (m : Map V) → lookup j (erase k m) ≡ (if k == j then none else lookup j m)
  unfolding lookup erase
  lookup-erase k j [] = ground arith
  lookup-erase k j ((i, w) ∷ m) =
      ground (arith, eq_iff k j, eq_iff i k, eq_iff i j, lookup-erase k j m)

  pub lookup-insert :
      (k j : String) (v : V) (m : Map V)
      → lookup j (insert k v m) ≡ (if k == j then some v else lookup j m)
  unfolding lookup insert
  lookup-insert k j v m = ground (arith, lookup-erase k j m)

  pub lookup_self : (k : String) (v : V) (m : Map V) → lookup k (insert k v m) ≡ some v
  lookup_self k v m = ground (arith, lookup-insert k k v m, eq_iff k k)

  -- What an option keeps of a value when those that pass a test are deleted.
  abbrev pub unless : (V → Bool) → Option V → Option V
  unless p none = none
  unless p (some v) = if p v then none else some v

  pub lookup-delete_where :
      (p : V → Bool) (j : String) (m : Map V) → lookup j (delete_where p m) ≡ unless p (lookup j m)
  unfolding lookup delete_where
  lookup-delete_where p j [] = refl
  lookup-delete_where p j ((i, w) ∷ m) = elim (Bool-cases (p w)) [
    | inl hit ↦
        ground (arith, eq_iff i j, lookup-erase i j (delete_where p m), lookup-delete_where p j m)
    | inr miss ↦ ground (arith, eq_iff i j, lookup-delete_where p j m)
  ]

  -- A loop that met no such value has passed over every entry.
  pub any_value-false :
      (p : V → Bool) (m : Map V) (k : String) (v : V)
      → any_value p m ≡ false
      → lookup k m ≡ some v
      → p v ≡ false
  unfolding lookup any_value
  any_value-false p [] k v h e = ground arith
  any_value-false p ((i, w) ∷ m) k v h e = ground (arith, any_value-false p m k v)

  pub lookup-erase_keys :
      (ks : List String) (j : String) (m : Map V)
      → lookup j (erase_keys ks m) ≡ (if among j ks then none else lookup j m)
  unfolding erase_keys among
  lookup-erase_keys [] j m = refl
  lookup-erase_keys (k ∷ ks) j m =
      ground (arith, lookup-erase_keys ks j (erase k m), lookup-erase k j m)

  -- What an option holds of the row under `k` when those that pass a test are changed.
  abbrev pub changed : (V → Bool) → (String → V → V) → String → Option V → Option V
  changed p f k none = none
  changed p f k (some v) = if p v then some (f k v) else some v

  pub lookup-update_where :
      (p : V → Bool) (f : String → V → V) (j : String) (m : Map V)
      → lookup j (update_where p f m) ≡ changed p f j (lookup j m)
  unfolding lookup update_where
  lookup-update_where p f j [] = refl
  lookup-update_where p f j ((i, w) ∷ m) = ground (arith, eq_iff i j, lookup-update_where p f j m)

  -- The row after the loop, and the row that it comes from.
  pub update_where_back :
      (p : V → Bool) (f : String → V → V) (j : String) (m : Map V) (w : V)
      → lookup j (update_where p f m) ≡ some w
      → (v : V) × (lookup j m ≡ some v) × ((w ≡ v) ⊎ (w ≡ f j v))
  update_where_back p f j m w e = elim (Option-cases (lookup j m)) [
    | inl gone ↦ absurd (ground (arith, lookup-update_where p f j m))
    | inr (v, found) ↦ (v, found, ground (arith, lookup-update_where p f j m))
  ]

  pub update_where_forth :
      (p : V → Bool) (f : String → V → V) (j : String) (m : Map V) (v : V)
      → lookup j m ≡ some v
      → (w : V) × (lookup j (update_where p f m) ≡ some w) × ((w ≡ v) ⊎ (w ≡ f j v))
  update_where_forth p f j m v found = elim (Bool-cases (p v)) [
    | inl hit ↦ (f j v, ground (arith, lookup-update_where p f j m), inr refl)
    | inr miss ↦ (v, ground (arith, lookup-update_where p f j m), inl refl)
  ]

  -- A key that the loop does not visit is missing.
  pub among-keys : (j : String) (m : Map V) → among j (keys m) ≡ false → lookup j m ≡ none
  unfolding among keys lookup
  among-keys j [] h = refl
  among-keys j ((i, v) ∷ m) h = ground (arith, among-keys j m)

  pub missing_of_contains : (k : String) (m : Map V) → contains k m ≡ false → lookup k m ≡ none
  missing_of_contains k m h = ground arith

  -- A row after an insertion is the inserted one, or an old one under another key.
  pub insert-cases :
      (id k : String) (row a : V) (s : Map V)
      → lookup k (insert id row s) ≡ some a
      → ((k ≡ id) × (a ≡ row)) ⊎ ((k ≢ id) × (lookup k s ≡ some a))
  insert-cases id k row a s e = elim (Bool-cases (id == k)) [
    | inl same ↦ inl (ground (arith, eq_iff id k), ground (arith, lookup-insert id k row s))
    | inr other ↦ inr (ground (arith, eq_iff id k), ground (arith, lookup-insert id k row s))
  ]

  -- Each value that a loop appends has passed its test.
  pub values_where-All : (p : V → Bool) (m : Map V) → All (λ v. p v ≡ true) (values_where p m)
  unfolding values_where
  values_where-All p [] = tt
  values_where-All p ((j, v) ∷ m) = elim (Bool-cases (p v)) [
    | inl passed ↦ rw passed (passed, values_where-All p m)
    | inr not_passed ↦ rw not_passed (values_where-All p m)
  ]
