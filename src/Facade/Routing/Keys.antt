-- ===== src/Facade/Routing/Keys.antt =====
-- `stream_actor_key` of src/facade.rs: which streams can share an actor.
use rivet_durable_streams.Prelude.{
  ◌≡◌, ◌≢◌, refl, ◌⊎◌, inl, inr, Bool, true, false, not, Text, Bytes, [], ◌∷◌, ◌++◌, all, ◌==◌,
  text_eq, text_eq_iff, arith, Bool-cases,
}
use rivet_durable_streams.Facade.Upstream.{Upstream}
use rivet_durable_streams.Facade.Routing.{stream_actor_key}

abbrev pub has_no_zero : Text → Bool
has_no_zero = all (λ b. not (b == 0))

zero_in_the_middle : (s path rest : Text) → path ≡ s ++ (0 ∷ rest) → has_no_zero path ≡ false
unfolding all
zero_in_the_middle [] path rest e = rw e refl
zero_in_the_middle (x ∷ xs) path rest e =
    rw e (ground (arith, zero_in_the_middle xs (xs ++ (0 ∷ rest)) rest))

-- Only the scope may hold a zero byte, so the last zero byte parts it from the path.
parted :
    (s t path other : Text)
    → has_no_zero path ≡ true
    → has_no_zero other ≡ true
    → s ++ (0 ∷ path) ≡ t ++ (0 ∷ other)
    → (s ≡ t) × (path ≡ other)
parted [] [] path other h k e = ground arith
parted [] (y ∷ ys) path other h k e = ground (arith, zero_in_the_middle ys path other)
parted (x ∷ xs) [] path other h k e = ground (arith, zero_in_the_middle xs other path)
parted (x ∷ xs) (y ∷ ys) path other h k e = ground (arith, parted xs ys path other)

-- Where the actor key is that of two scopes and paths, and neither path holds a zero byte, the scopes
-- and the paths are the same, or two different byte strings with the same SHA-256 are known.
pub stream_actor_key_separates :
    (u : Upstream) (scope other_scope path other_path : Text)
    → has_no_zero path ≡ true
    → has_no_zero other_path ≡ true
    → stream_actor_key u scope path ≡ stream_actor_key u other_scope other_path
    → ((scope ≡ other_scope) × (path ≡ other_path))
      ⊎ ((a : Bytes) × (b : Bytes) × (a ≢ b) × (u.sha256_hex a ≡ u.sha256_hex b))
unfolding stream_actor_key
stream_actor_key_separates u scope other_scope path other_path h k e =
    let a = scope ++ (0 ∷ path) in
    let b = other_scope ++ (0 ∷ other_path) in
    elim (Bool-cases (text_eq a b)) [
      | inl same ↦ inl (parted scope other_scope path other_path h k ((text_eq_iff a b).0 same))
      | inr other ↦ inr (a, b, (λ p. cc (other, (text_eq_iff a b).1 p)), e)
    ]
