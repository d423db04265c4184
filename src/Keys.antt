-- ===== src/Keys.antt =====
-- EventDefine.h: an event type is a std::string, compared as std::less and std::string::compare
-- do, byte by byte. `Order` is what std::multimap asks of its keys.
use event_bus_cpp.Prelude.{ℕ, ◌≡◌, refl, Bool, true, false, List, [], ◌∷◌, arith, compare, Ordering}

-- A three-way comparison that is a linear order.
pub record Order {ℓ} (K : Type ℓ) : Type ℓ where
  pub cmp : K → K → Ordering
  pub cmp_refl : (a : K) → cmp a a ≡ Ordering.eq
  pub eq_of_cmp : (a b : K) → cmp a b ≡ Ordering.eq → a ≡ b
  pub cmp_flip : (a b : K) → cmp a b ≡ Ordering.lt → cmp b a ≡ Ordering.gt
  pub cmp_unflip : (a b : K) → cmp a b ≡ Ordering.gt → cmp b a ≡ Ordering.lt
  pub cmp_trans :
      (a b c : K) → cmp a b ≡ Ordering.lt → cmp b c ≡ Ordering.lt → cmp a c ≡ Ordering.lt

abbrev pub is_eq : Ordering → Bool
is_eq Ordering.eq = true
is_eq Ordering.lt = false
is_eq Ordering.gt = false

-- std::string and std::vector<unsigned char>
abbrev pub EventType : Type 0
EventType = List ℕ

abbrev pub EventContent : Type 0
EventContent = List ℕ

-- std::string::compare, by its sign.
abbrev then_compare : Ordering → Ordering → Ordering
then_compare Ordering.eq o = o
then_compare Ordering.lt o = Ordering.lt
then_compare Ordering.gt o = Ordering.gt

unfoldable pub compare_types : EventType → EventType → Ordering
compare_types [] [] = Ordering.eq
compare_types [] (y ∷ ys) = Ordering.lt
compare_types (x ∷ xs) [] = Ordering.gt
compare_types (x ∷ xs) (y ∷ ys) = then_compare (compare x y) (compare_types xs ys)

pub compare_types_refl : (a : EventType) → compare_types a a ≡ Ordering.eq
unfolding compare_types
compare_types_refl [] = refl
compare_types_refl (x ∷ xs) = ground (arith, compare_types_refl xs)

pub eq_of_compare_types : (a b : EventType) → compare_types a b ≡ Ordering.eq → a ≡ b
unfolding compare_types
eq_of_compare_types [] [] h = refl
eq_of_compare_types [] (y ∷ ys) h = cc
eq_of_compare_types (x ∷ xs) [] h = cc
eq_of_compare_types (x ∷ xs) (y ∷ ys) h = ground (arith, eq_of_compare_types xs ys)

pub compare_types_flip :
    (a b : EventType) → compare_types a b ≡ Ordering.lt → compare_types b a ≡ Ordering.gt
unfolding compare_types
compare_types_flip [] [] h = cc
compare_types_flip [] (y ∷ ys) h = refl
compare_types_flip (x ∷ xs) [] h = cc
compare_types_flip (x ∷ xs) (y ∷ ys) h = ground (arith, compare_types_flip xs ys)

pub compare_types_unflip :
    (a b : EventType) → compare_types a b ≡ Ordering.gt → compare_types b a ≡ Ordering.lt
unfolding compare_types
compare_types_unflip [] [] h = cc
compare_types_unflip [] (y ∷ ys) h = cc
compare_types_unflip (x ∷ xs) [] h = refl
compare_types_unflip (x ∷ xs) (y ∷ ys) h = ground (arith, compare_types_unflip xs ys)

pub compare_types_trans :
    (a b c : EventType)
    → compare_types a b ≡ Ordering.lt
    → compare_types b c ≡ Ordering.lt
    → compare_types a c ≡ Ordering.lt
unfolding compare_types
compare_types_trans [] [] c h k = cc
compare_types_trans [] (y ∷ ys) [] h k = cc
compare_types_trans [] (y ∷ ys) (z ∷ zs) h k = refl
compare_types_trans (x ∷ xs) [] c h k = cc
compare_types_trans (x ∷ xs) (y ∷ ys) [] h k = cc
compare_types_trans (x ∷ xs) (y ∷ ys) (z ∷ zs) h k = ground (arith, compare_types_trans xs ys zs)

instance abbrev pub type_order : Order EventType
type_order = record {
  cmp = compare_types;
  cmp_refl = compare_types_refl;
  eq_of_cmp = eq_of_compare_types;
  cmp_flip = compare_types_flip;
  cmp_unflip = compare_types_unflip;
  cmp_trans = compare_types_trans;
}
