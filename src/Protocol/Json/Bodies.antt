-- ===== src/Protocol/Json/Bodies.antt =====
-- The body of a JSON read, from the appends as they are stored.
use mathlib.Core.List.{append_assoc}
use rivet_durable_streams.Prelude.{
  ℕ, ◌≡◌, refl, sym, ap, ◌∙◌, Bytes, List, [], ◌∷◌, ◌++◌, map, some, last,
}
use rivet_durable_streams.Store.Platform.{Platform}
use rivet_durable_streams.Protocol.Json.{
  pop, pop_comma, concatenate, format_json_messages, write_values,
}

module _ (p : Platform) where
  -- The values with a comma between each two.
  pub separated : List p.Value → Bytes
  separated [] = []
  separated (value ∷ []) = p.to_writer value
  separated (value ∷ next ∷ values) = p.to_writer value ++ b',' ∷ separated (next ∷ values)

  -- The values of all appends in their order.
  pub all_values : List (List p.Value) → List p.Value
  all_values [] = []
  all_values (group ∷ groups) = group ++ all_values groups

  write_values-append :
      (xs ys : List p.Value) → write_values p (xs ++ ys) ≡ write_values p xs ++ write_values p ys
  unfolding write_values
  write_values-append [] ys = refl
  write_values-append (x ∷ xs) ys =
      ap (λ r. p.to_writer x ++ b',' ∷ r) (write_values-append xs ys)
      ∙ sym (append_assoc (p.to_writer x) (b',' ∷ write_values p xs) (write_values p ys))

  concatenate-write_values :
      (groups : List (List p.Value))
      → concatenate (map (write_values p) groups) ≡ write_values p (all_values groups)
  unfolding concatenate all_values write_values
  concatenate-write_values [] = refl
  concatenate-write_values (group ∷ groups) =
      ap (◌++◌ (write_values p group)) (concatenate-write_values groups)
      ∙ sym (write_values-append group (all_values groups))

  write_values-separated :
      (value : p.Value) (values : List p.Value)
      → write_values p (value ∷ values) ≡ separated (value ∷ values) ++ b',' ∷ []
  unfolding write_values separated
  write_values-separated value [] = refl
  write_values-separated value (next ∷ values) =
      ap (λ r. p.to_writer value ++ b',' ∷ r) (write_values-separated next values)
      ∙ sym (append_assoc (p.to_writer value) (b',' ∷ separated (next ∷ values)) (b',' ∷ []))

pop_snoc : (x c : ℕ) (xs : Bytes) → pop (x ∷ xs ++ c ∷ []) ≡ x ∷ xs
unfolding pop
pop_snoc x c [] = refl
pop_snoc x c (y ∷ ys) = ap (◌∷◌ x) (pop_snoc y c ys)

last_snoc : (x c : ℕ) (xs : Bytes) → last (x ∷ xs ++ c ∷ []) ≡ some c
last_snoc x c [] = refl
last_snoc x c (y ∷ ys) = last_snoc y c ys

pop_comma_snoc : (x : ℕ) (xs : Bytes) → pop_comma (x ∷ xs ++ b',' ∷ []) ≡ x ∷ xs
unfolding pop_comma
pop_comma_snoc x xs = rw (last_snoc x b',' xs) (pop_snoc x b',' xs)

module _ (p : Platform) where
  bracketed :
      (values : List p.Value) → pop_comma (b'[' ∷ write_values p values) ≡ b'[' ∷ separated p values
  unfolding separated
  bracketed [] = unfold pop_comma write_values in refl
  bracketed (value ∷ values) =
      ap (λ r. pop_comma (b'[' ∷ r)) (write_values-separated p value values)
      ∙ pop_comma_snoc b'[' (separated p (value ∷ values))

  -- A JSON read answers with one array: the values of all appends it holds, in their order.
  pub format_json_messages-write_values :
      (groups : List (List p.Value))
      → format_json_messages (map (write_values p) groups)
        ≡ b'[' ∷ separated p (all_values p groups) ++ b']' ∷ []
  unfolding format_json_messages concatenate
  format_json_messages-write_values [] = unfold all_values separated in refl
  format_json_messages-write_values (group ∷ groups) =
      ap (λ r. pop_comma (b'[' ∷ r) ++ b']' ∷ []) (concatenate-write_values p (group ∷ groups))
      ∙ ap (λ r. r ++ b']' ∷ []) (bracketed (all_values p (group ∷ groups)))
