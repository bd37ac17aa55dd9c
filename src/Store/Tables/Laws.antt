-- ===== src/Store/Tables/Laws.antt =====
-- Laws of the statements on a table: lookup after insertion and deletion.
use rivet_durable_streams.Prelude.{
  Bool, true, false, Text, List, [], ◌∷◌, none, some, eq_of_cmp_text, cmp_text_refl, text_eq,
  if◌then◌else◌, select, ◌≡◌, refl, arith, is_some,
}
use rivet_durable_streams.Store.Tables.{
  find_row, has_row, delete_row, place_row, insert_or_ignore, upsert_row,
}

module _ {A : Type 0} (key : A → Text) where
  pub has_row-eq-is_some : (k : Text) (xs : List A) → has_row key k xs ≡ is_some (find_row key k xs)
  unfolding has_row find_row
  has_row-eq-is_some k [] = refl
  has_row-eq-is_some k (x ∷ xs) = ground (arith, has_row-eq-is_some k xs)

  pub find_row-place_row :
      (k : Text) (row : A) (xs : List A)
      → find_row key (key row) xs ≡ none
      → find_row key k (place_row key row xs)
        ≡ (if text_eq (key row) k then some row else find_row key k xs)
  unfolding find_row place_row
  find_row-place_row k row [] h = refl
  find_row-place_row k row (x ∷ xs) h = ground (
    arith,
    find_row-place_row k row xs,
    eq_of_cmp_text (key row) k,
    eq_of_cmp_text (key x) k,
    cmp_text_refl k,
  )

  pub find_row-delete_row :
      (k j : Text) (xs : List A)
      → find_row key j (delete_row key k xs) ≡ (if text_eq k j then none else find_row key j xs)
  unfolding find_row delete_row select
  find_row-delete_row k j [] = ground arith
  find_row-delete_row k j (x ∷ xs) = ground (
    arith,
    find_row-delete_row k j xs,
    eq_of_cmp_text (key x) k,
    eq_of_cmp_text k j,
    eq_of_cmp_text (key x) j,
    cmp_text_refl k,
  )

  pub has_row-delete_row :
      (k j : Text) (xs : List A)
      → has_row key j (delete_row key k xs) ≡ (if text_eq k j then false else has_row key j xs)
  has_row-delete_row k j xs =
      rw
        (
          has_row-eq-is_some j (delete_row key k xs),
          find_row-delete_row k j xs,
          has_row-eq-is_some j xs,
        )
        (decided (text_eq k j))
    where
      decided :
          (b : Bool)
          → is_some (if b then none else find_row key j xs)
            ≡ (if b then false else is_some (find_row key j xs))
      decided true = refl
      decided false = refl

  pub find_row-upsert_row :
      (k : Text) (row : A) (xs : List A)
      → find_row key k (upsert_row key row xs)
        ≡ (if text_eq (key row) k then some row else find_row key k xs)
  unfolding upsert_row
  find_row-upsert_row k row xs = ground (
    arith,
    find_row-place_row k row (delete_row key (key row) xs),
    find_row-delete_row (key row) k xs,
    find_row-delete_row (key row) (key row) xs,
    cmp_text_refl (key row),
  )

  -- An inserted row is found unless its key was taken; other rows stay.
  pub find_row-insert_or_ignore :
      (row : A) (xs : List A)
      → find_row key (key row) (insert_or_ignore key row xs)
        ≡ (if has_row key (key row) xs then find_row key (key row) xs else some row)
  unfolding insert_or_ignore
  find_row-insert_or_ignore row xs = ground (
    arith,
    has_row-eq-is_some (key row) xs,
    find_row-place_row (key row) row xs,
    cmp_text_refl (key row),
  )
