-- ===== src/Map/Index.antt =====
-- A table of rows by id, beside an index from a row's unique key to its id: the shape of the
-- branches and their slugs, the users and their addresses, the students and their FIN codes.
use kingsway_academy.Base.{
  String, ◌≡◌, inl, inr, none, some, arith, Bool, [], ◌==◌, eq_iff, Bool-cases,
}
use mathlib.Core.Path.{subst, sym}
use kingsway_academy.Map.{
  Map, lookup, update_where, update_where_back, update_where_forth, erase, insert, lookup-erase,
  lookup-insert,
}

module _ {V : Type 0} (id_of key : V → String) where
  -- Every row stands under its own id and is listed under its key, and every entry of the index
  -- leads to a row with that key.
  pub record IsIndexed (table : Map V) (index : Map String) : Type 0 where
    pub own : (id : String) (v : V) → lookup id table ≡ some v → id_of v ≡ id
    pub listed : (id : String) (v : V) → lookup id table ≡ some v → lookup (key v) index ≡ some id
    pub stored :
        (k id : String)
        → lookup k index ≡ some id
        → (v : V) × (lookup id table ≡ some v) × (key v ≡ k)

  -- Two rows with one key are one row.
  pub IsIndexed-unique :
      {table : Map V} {index : Map String}
      → IsIndexed table index
      → (i j : String) (v w : V) → lookup i table ≡ some v
      → lookup j table ≡ some w
      → key v ≡ key w
      → i ≡ j
  IsIndexed-unique x i j v w hi hj e = ground (arith, x.listed i v hi, x.listed j w hj)

  module _ {table : Map V} {index : Map String} (x : IsIndexed table index) where
    -- A new row under a new id and an unused key.
    pub insert-IsIndexed :
        (id : String) (v : V)
        → id_of v ≡ id
        → lookup id table ≡ none
        → lookup (key v) index ≡ none
        → IsIndexed (insert id v table) (insert (key v) id index)
    insert-IsIndexed id v mine fresh unused = record {
      own = λ j w e. ground (arith, lookup-insert id j v table, eq_iff id j, x.own j w);
      listed = λ j w e. ground (
        arith,
        lookup-insert id j v table,
        lookup-insert (key v) (key w) id index,
        eq_iff id j,
        eq_iff (key v) (key w),
        x.listed j w,
      );
      stored = λ k j e. elim (Bool-cases (key v == k)) [
        | inl same ↦ (
          v,
          ground (arith, lookup-insert id j v table, lookup-insert (key v) k id index, eq_iff id j),
          (eq_iff (key v) k).0 same,
        )
        | inr other ↦
            let (w, at, is_key) = x.stored k j (rw (lookup-insert, other) at e) in
            (w, ground (arith, lookup-insert id j v table, eq_iff id j), is_key)
      ];
    }

    -- An update of a row that keeps its key.
    pub update-IsIndexed :
        (id : String) (v old : V)
        → id_of v ≡ id
        → lookup id table ≡ some old
        → key v ≡ key old
        → IsIndexed (insert id v table) index
    update-IsIndexed id v old mine found same_key = record {
      own = λ j w e. ground (arith, lookup-insert id j v table, eq_iff id j, x.own j w);
      listed = λ j w e.
          ground (arith, lookup-insert id j v table, eq_iff id j, x.listed j w, x.listed id old);
      stored = λ k j e.
          let (w, at, is_key) = x.stored k j e in
          elim (Bool-cases (id == j)) [
            | inl same ↦
                (v, ground (arith, lookup-insert id j v table), ground (arith, eq_iff id j))
            | inr other ↦ (w, ground (arith, lookup-insert id j v table), is_key)
          ];
    }

    -- A row leaves, and its key with it.
    pub erase-IsIndexed :
        (id : String) (v : V)
        → lookup id table ≡ some v
        → IsIndexed (erase id table) (erase (key v) index)
    erase-IsIndexed id v found = record {
      own = λ j w e. ground (arith, lookup-erase id j table, x.own j w);
      listed = λ j w e. ground (
        arith,
        lookup-erase id j table,
        lookup-erase (key v) (key w) index,
        eq_iff id j,
        eq_iff (key v) (key w),
        x.listed j w,
        x.listed id v,
      );
      stored = λ k j e.
          let (w, at, is_key) =
            x.stored k j (ground (arith, lookup-erase (key v) k index, eq_iff (key v) k)) in
          (
            w,
            ground (
              arith,
              lookup-erase id j table,
              lookup-erase (key v) k index,
              eq_iff id j,
              eq_iff (key v) k,
            ),
            is_key,
          );
    }

    -- An update of a row that moves it to another key, which is unused or its own.
    pub rekey-IsIndexed :
        (id : String) (v old : V)
        → id_of v ≡ id
        → lookup id table ≡ some old
        → ((j : String) → lookup (key v) index ≡ some j → j ≡ id)
        → IsIndexed (insert id v table) (insert (key v) id (erase (key old) index))
    rekey-IsIndexed id v old mine found free = record {
      own = λ j w e. ground (arith, lookup-insert id j v table, eq_iff id j, x.own j w);
      listed = λ j w e. ground (
        arith,
        lookup-insert id j v table,
        lookup-insert (key v) (key w) id (erase (key old) index),
        lookup-erase (key old) (key w) index,
        eq_iff id j,
        eq_iff (key v) (key w),
        eq_iff (key old) (key w),
        x.listed j w,
        x.listed id old,
        free j,
      );
      stored = λ k j e. elim (Bool-cases (key v == k)) [
        | inl same ↦ (
          v,
          ground (
            arith,
            lookup-insert id j v table,
            lookup-insert (key v) k id (erase (key old) index),
            eq_iff id j,
          ),
          (eq_iff (key v) k).0 same,
        )
        | inr other ↦
            let at : lookup k (erase (key old) index) ≡ some j =
              ground (arith, lookup-insert (key v) k id (erase (key old) index)) in
            let (w, found_w, is_key) =
              x.stored k j (ground (arith, lookup-erase (key old) k index)) in
            (
              w,
              ground (
                arith,
                lookup-insert id j v table,
                lookup-erase (key old) k index,
                eq_iff id j,
                eq_iff (key old) k,
              ),
              is_key,
            )
      ];
    }

    -- A row that is found stands under the id that it carries.
    pub stored_own :
        (id : String) (v : V) → lookup id table ≡ some v → lookup (id_of v) table ≡ some v
    stored_own id v found = subst (λ k. lookup k table ≡ some v) (sym (x.own id v found)) found

    -- An id that has no row can be erased.
    pub erase_missing-IsIndexed :
        (id : String) → lookup id table ≡ none → IsIndexed (erase id table) index
    erase_missing-IsIndexed id missing = record {
      own = λ j w e. ground (arith, lookup-erase id j table, x.own j w);
      listed = λ j w e. ground (arith, lookup-erase id j table, x.listed j w);
      stored = λ k j e.
          let (w, at, is_key) = x.stored k j e in
          (w, ground (arith, lookup-erase id j table, eq_iff id j), is_key);
    }

    -- A change of rows that touches neither their ids nor their keys.
    pub update_where-IsIndexed :
        (p : V → Bool) (f : String → V → V)
        → ((k : String) (v : V) → id_of (f k v) ≡ id_of v)
        → ((k : String) (v : V) → key (f k v) ≡ key v)
        → IsIndexed (update_where p f table) index
    update_where-IsIndexed p f same_id same_key = record {
      own = λ j w e.
          let (v, found, from) = update_where_back p f j table w e in
          ground (arith, x.own j v, same_id j v);
      listed = λ j w e.
          let (v, found, from) = update_where_back p f j table w e in
          ground (arith, x.listed j v, same_key j v);
      stored = λ k j e.
          let (v, found, is_key) = x.stored k j e in
          let (w, found_w, from) = update_where_forth p f j table v found in
          (w, found_w, ground (arith, same_key j v));
    }

  -- With neither rows nor entries.
  pub empty-IsIndexed : IsIndexed [] []
  unfolding lookup
  empty-IsIndexed = record { own = λ id v e. cc; listed = λ id v e. cc; stored = λ k id e. cc }
