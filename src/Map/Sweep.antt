-- ===== src/Map/Sweep.antt =====
-- The loops `for id, v := range table { if p(v) { delete(table, id); delete(index, key(v)) } }`,
-- over a table and the index of its keys.
use kingsway_academy.Base.{
  String, ◌≡◌, refl, inl, inr, Bool, none, some, List, [], ◌∷◌, arith, ◌==◌, eq_iff, if◌then◌else◌,
  Bool-cases, Option-cases,
}
use kingsway_academy.Map.{among, among-keys, Map, lookup, erase, keys, lookup-erase, unless}
use kingsway_academy.Map.Index.{IsIndexed, erase-IsIndexed}

module _ {V : Type 0} (p : V → Bool) (key : V → String) where
  -- One round: the entry under `id`, if it is still there.
  sweep_entry : String → Map V × Map String → Map V × Map String
  sweep_entry id (table, index) = elim (lookup id table) [
    | none ↦ (table, index)
    | some v ↦ if p v then (erase id table, erase (key v) index) else (table, index)
  ]

  sweep_keys : List String → Map V × Map String → Map V × Map String
  unfolding sweep_entry
  sweep_keys [] s = s
  sweep_keys (id ∷ ids) s = sweep_keys ids (sweep_entry id s)

  unfoldable pub sweep : Map V → Map String → Map V × Map String
  unfolding sweep_keys keys
  sweep table index = sweep_keys (keys table) (table, index)

  sweep_entry-IsIndexed :
      (id_of : V → String) (id : String) (s : Map V × Map String)
      → IsIndexed id_of key s.0 s.1
      → IsIndexed id_of key (sweep_entry id s).0 (sweep_entry id s).1
  unfolding sweep_entry
  sweep_entry-IsIndexed id_of id s x = elim (Option-cases (lookup id s.0)) [
    | inl e ↦ rw (e, sweep_entry) x
    | inr (v, e) ↦ elim (Bool-cases (p v)) [
      | inl hit ↦ rw (e, sweep_entry, hit) (erase-IsIndexed id_of key x id v e)
      | inr miss ↦ rw (e, sweep_entry, miss) x
    ]
  ]

  sweep_keys-IsIndexed :
      (id_of : V → String) (ids : List String) (s : Map V × Map String)
      → IsIndexed id_of key s.0 s.1
      → IsIndexed id_of key (sweep_keys ids s).0 (sweep_keys ids s).1
  unfolding sweep_keys
  sweep_keys-IsIndexed id_of [] s x = x
  sweep_keys-IsIndexed id_of (id ∷ ids) s x =
      sweep_keys-IsIndexed id_of ids (sweep_entry id s) (sweep_entry-IsIndexed id_of id s x)

  -- The index still fits the table after the loop.
  pub sweep-IsIndexed :
      (id_of : V → String) (table : Map V) (index : Map String)
      → IsIndexed id_of key table index
      → IsIndexed id_of key (sweep table index).0 (sweep table index).1
  unfolding sweep
  sweep-IsIndexed id_of table index x = sweep_keys-IsIndexed id_of (keys table) (table, index) x

  lookup-sweep_entry :
      (id j : String) (s : Map V × Map String)
      → lookup j (sweep_entry id s).0 ≡ (if id == j then unless p (lookup j s.0) else lookup j s.0)
  unfolding sweep_entry
  lookup-sweep_entry id j s = ground (arith, lookup-erase id j s.0, eq_iff id j)

  -- What passes the test is gone if its key was visited; the rest stands.
  lookup-sweep_keys :
      (ids : List String) (j : String) (s : Map V × Map String)
      → lookup j (sweep_keys ids s).0
        ≡ (if among j ids then unless p (lookup j s.0) else lookup j s.0)
  unfolding sweep_keys among
  lookup-sweep_keys [] j s = refl
  lookup-sweep_keys (id ∷ ids) j s =
      ground (arith, lookup-sweep_keys ids j (sweep_entry id s), lookup-sweep_entry id j s)

  -- After the loop a row is there exactly if it was there and fails the test.
  pub lookup-sweep :
      (table : Map V) (index : Map String) (j : String)
      → lookup j (sweep table index).0 ≡ unless p (lookup j table)
  unfolding sweep
  lookup-sweep table index j =
      ground (arith, lookup-sweep_keys (keys table) j (table, index), among-keys j table)
