-- ===== src/Coordinates/Metric.antt =====
-- `distance_to` and `get_common_prefix` of src/coordinates.rs: laws of the distance.
use rust_pinecone.Prelude.{
  ◌+◌, ◌*◌, ◌≤◌, ◌≡◌, refl, ap, ◌↔◌, ◌⊎◌, true, List, [], ◌∷◌, arith, length,
}
use rust_pinecone.Tree.{Port}
use rust_pinecone.Coordinates.{
  Coordinates, common_prefix, get_common_prefix, distance_to, ports_eq, coordinates_eq,
}

pub common_prefix-le :
    (xs ys : List Port) → (common_prefix xs ys ≤ length xs) × (common_prefix xs ys ≤ length ys)
unfolding common_prefix
common_prefix-le [] ys = omega arith
common_prefix-le (x ∷ xs) [] = omega arith
common_prefix-le (x ∷ xs) (y ∷ ys) = ground (arith, common_prefix-le xs ys)

common_prefix_comm : (xs ys : List Port) → common_prefix xs ys ≡ common_prefix ys xs
unfolding common_prefix
common_prefix_comm [] [] = refl
common_prefix_comm [] (y ∷ ys) = refl
common_prefix_comm (x ∷ xs) [] = refl
common_prefix_comm (x ∷ xs) (y ∷ ys) = ground (arith, common_prefix_comm xs ys)

-- Of three prefixes the two shorter ones are equally long.
common_prefix_min :
    (xs ys zs : List Port)
    → (common_prefix xs ys ≤ common_prefix xs zs) ⊎ (common_prefix ys zs ≤ common_prefix xs zs)
unfolding common_prefix
common_prefix_min [] ys zs = ground arith
common_prefix_min (x ∷ xs) [] zs = ground arith
common_prefix_min (x ∷ xs) (y ∷ ys) [] = ground arith
common_prefix_min (x ∷ xs) (y ∷ ys) (z ∷ zs) = ground (arith, common_prefix_min xs ys zs)

common_prefix_full : (xs ys : List Port) → length xs + length ys ≤ 2 * common_prefix xs ys → xs ≡ ys
unfolding common_prefix
common_prefix_full [] [] h = refl
common_prefix_full [] (y ∷ ys) h = absurd (omega arith)
common_prefix_full (x ∷ xs) [] h = absurd (omega arith)
common_prefix_full (x ∷ xs) (y ∷ ys) h =
    ground (arith, common_prefix-le xs ys, common_prefix_full xs ys)

common_prefix_self : (xs : List Port) → common_prefix xs xs ≡ length xs
unfolding common_prefix
common_prefix_self [] = refl
common_prefix_self (x ∷ xs) = ground (arith, common_prefix_self xs)

-- Twice the common prefix of two coordinates is at most the sum of their lengths, so that the
-- `usize` subtraction in `distance_to` does not underflow.
pub distance_no_underflow :
    (c d : Coordinates) → 2 * get_common_prefix c d ≤ length c.coordinates + length d.coordinates
unfolding get_common_prefix
distance_no_underflow c d = omega (arith, common_prefix-le c.coordinates d.coordinates)

-- Exactly a node's own coordinates are at distance 0.
pub distance_to-zero_iff : (c d : Coordinates) → (distance_to c d ≡ 0) ↔ (c ≡ d)
unfolding distance_to get_common_prefix
distance_to-zero_iff c d = (
  λ h.
      ap (λ (l : List Port). record { coordinates = l })
        (common_prefix_full c.coordinates d.coordinates (omega arith)),
  λ e. rw e (omega (arith, common_prefix_self d.coordinates)),
)

pub distance_to_comm : (c d : Coordinates) → distance_to c d ≡ distance_to d c
unfolding distance_to get_common_prefix
distance_to_comm c d = omega (arith, common_prefix_comm c.coordinates d.coordinates)

pub distance_to_triangle :
    (c d e : Coordinates) → distance_to c e ≤ distance_to c d + distance_to d e
unfolding distance_to get_common_prefix
distance_to_triangle c d e = omega (
  arith,
  common_prefix_min c.coordinates d.coordinates e.coordinates,
  common_prefix-le c.coordinates d.coordinates,
  common_prefix-le d.coordinates e.coordinates,
  common_prefix-le c.coordinates e.coordinates,
)

-- The distance of two coordinates is zero exactly if they are equal, is the same in both
-- directions, and is never longer than the way over a third one.
pub distance_to_metric :
    (c d e : Coordinates)
    → ((distance_to c d ≡ 0) ↔ (c ≡ d))
      × (distance_to c d ≡ distance_to d c)
      × (distance_to c e ≤ distance_to c d + distance_to d e)
distance_to_metric c d e =
    (distance_to-zero_iff c d, distance_to_comm c d, distance_to_triangle c d e)

pub ports_eq_iff : (xs ys : List Port) → (ports_eq xs ys ≡ true) ↔ (xs ≡ ys)
unfolding ports_eq
ports_eq_iff [] [] = ground arith
ports_eq_iff [] (y ∷ ys) = ground arith
ports_eq_iff (x ∷ xs) [] = ground arith
ports_eq_iff (x ∷ xs) (y ∷ ys) = ground (arith, ports_eq_iff xs ys)

pub coordinates_eq_iff : (c d : Coordinates) → (coordinates_eq c d ≡ true) ↔ (c ≡ d)
coordinates_eq_iff c d = (
  λ h.
      ap (λ (l : List Port). record { coordinates = l })
        ((ports_eq_iff c.coordinates d.coordinates).0 h),
  λ e. (ports_eq_iff c.coordinates d.coordinates).1 (ap (λ (x : Coordinates). x.coordinates) e),
)
