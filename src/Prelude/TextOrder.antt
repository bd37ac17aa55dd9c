-- ===== src/Prelude/TextOrder.antt =====
-- Texts as their bytes: order and equality as Rust's `str` and SQLite's BINARY collation have them.
use Prim.Native.Nat.{ℕ, compare, Ordering}
use Prim.Native.Nat.Ordering.{lt, eq, gt}
use Prim.Native.Char.{code}
use Prim.Native.String.{String}
use mathlib.Core.Path.{◌≡◌, refl}
use mathlib.Core.Logic.{◌↔◌}
use mathlib.Core.Bool.{Bool, true, false}
use mathlib.Core.List.{List, [], ◌∷◌}
use mathlib.Core.Option.{Option, none, some}
use native.Mathlib.Omega.{arith}

abbrev pub Bytes : Type 0
Bytes = List ℕ

abbrev pub Text : Type 0
Text = List ℕ

-- The bytes of an ASCII literal. Shut, so that a literal stays one name in a proof.
unfoldable pub codes : String → Text
codes String.[] = []
codes (String.◌∷◌ c s) = code c ∷ codes s

unfoldable pub then_by : Ordering → Ordering → Ordering
then_by eq second = second
then_by lt second = lt
then_by gt second = gt

-- Lexicographic by bytes, a prefix first.
unfoldable pub cmp_text : Text → Text → Ordering
unfolding then_by
cmp_text [] [] = eq
cmp_text [] (y ∷ ys) = lt
cmp_text (x ∷ xs) [] = gt
cmp_text (x ∷ xs) (y ∷ ys) = then_by (compare x y) (cmp_text xs ys)

abbrev pub text_lt : Text → Text → Bool
text_lt s t = elim (cmp_text s t) [ lt ↦ true | _ ↦ false ]

abbrev pub text_le : Text → Text → Bool
text_le s t = elim (cmp_text s t) [ gt ↦ false | _ ↦ true ]

abbrev pub text_eq : Text → Text → Bool
text_eq s t = elim (cmp_text s t) [ eq ↦ true | _ ↦ false ]

-- Equality of two optional texts.
abbrev pub opt_eq : Option Text → Option Text → Bool
opt_eq none none = true
opt_eq (some s) (some t) = text_eq s t
opt_eq none (some t) = false
opt_eq (some s) none = false

pub cmp_text_refl : (s : Text) → cmp_text s s ≡ eq
unfolding cmp_text
cmp_text_refl [] = refl
cmp_text_refl (x ∷ xs) = ground (arith, cmp_text_refl xs)

pub eq_of_cmp_text : (s t : Text) → cmp_text s t ≡ eq → s ≡ t
unfolding cmp_text
eq_of_cmp_text [] [] h = refl
eq_of_cmp_text [] (y ∷ ys) h = cc
eq_of_cmp_text (x ∷ xs) [] h = cc
eq_of_cmp_text (x ∷ xs) (y ∷ ys) h = ground (arith, eq_of_cmp_text xs ys)

pub lt_of_gt_text : (s t : Text) → cmp_text s t ≡ gt → cmp_text t s ≡ lt
unfolding cmp_text
lt_of_gt_text [] [] h = cc
lt_of_gt_text [] (y ∷ ys) h = cc
lt_of_gt_text (x ∷ xs) [] h = refl
lt_of_gt_text (x ∷ xs) (y ∷ ys) h = ground (arith, lt_of_gt_text xs ys)

pub gt_of_lt_text : (s t : Text) → cmp_text s t ≡ lt → cmp_text t s ≡ gt
unfolding cmp_text
gt_of_lt_text [] [] h = cc
gt_of_lt_text [] (y ∷ ys) h = refl
gt_of_lt_text (x ∷ xs) [] h = cc
gt_of_lt_text (x ∷ xs) (y ∷ ys) h = ground (arith, gt_of_lt_text xs ys)

pub lt_trans_text : (s t u : Text) → cmp_text s t ≡ lt → cmp_text t u ≡ lt → cmp_text s u ≡ lt
unfolding cmp_text
lt_trans_text [] [] u h k = cc
lt_trans_text [] (y ∷ ys) [] h k = cc
lt_trans_text [] (y ∷ ys) (z ∷ zs) h k = refl
lt_trans_text (x ∷ xs) [] u h k = cc
lt_trans_text (x ∷ xs) (y ∷ ys) [] h k = cc
lt_trans_text (x ∷ xs) (y ∷ ys) (z ∷ zs) h k =
    ground (arith, lt_trans_text xs ys zs, eq_of_cmp_text xs ys, eq_of_cmp_text ys zs)

pub text_eq_refl : (s : Text) → text_eq s s ≡ true
text_eq_refl s = ground (arith, cmp_text_refl s)

pub text_eq_iff : (s t : Text) → (text_eq s t ≡ true) ↔ (s ≡ t)
text_eq_iff s t = (λ h. eq_of_cmp_text s t (ground arith), λ e. ground (arith, cmp_text_refl s))
