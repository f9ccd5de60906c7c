-- ===== src/Coordinates.antt =====
-- src/coordinates.rs: the coordinates of a node in the spanning tree, and their distance.
pub mod Metric
use rust_pinecone.Prelude.{
  ℕ, suc, ◌+◌, ◌-◌, ◌*◌, ◌≡◌, ◌↔◌, Bool, true, false, ◌&&◌, List, [], ◌∷◌, map, arith, length,
  drop_last, ◌==◌, if◌then◌else◌,
}
use rust_pinecone.Tree.{Port, RootAnnouncementSignature}

pub record Coordinates : Type 0 where
  pub coordinates : List Port

-- The loop counts equal ports from the front, and stops at the first difference or at the shorter end.
unfoldable pub common_prefix : List Port → List Port → ℕ
common_prefix [] ys = 0
common_prefix (x ∷ xs) [] = 0
common_prefix (x ∷ xs) (y ∷ ys) = if x == y then suc (common_prefix xs ys) else 0

unfoldable pub get_common_prefix : Coordinates → Coordinates → ℕ
get_common_prefix c to = common_prefix c.coordinates to.coordinates

-- `usize` subtraction; Coordinates/Metric is about its range.
unfoldable pub distance_to : Coordinates → Coordinates → ℕ
distance_to c to = length c.coordinates + length to.coordinates - 2 * get_common_prefix c to

abbrev pub default_coordinates : Coordinates
default_coordinates = record { coordinates = [] }

unfoldable pub ports_eq : List Port → List Port → Bool
ports_eq [] [] = true
ports_eq [] (y ∷ ys) = false
ports_eq (x ∷ xs) [] = false
ports_eq (x ∷ xs) (y ∷ ys) = (x == y) && ports_eq xs ys

-- `==`, which is derived.
abbrev pub coordinates_eq : Coordinates → Coordinates → Bool
coordinates_eq c d = ports_eq c.coordinates d.coordinates

-- `coords` and `peer_coords` of an announcement, given its signatures. With no signature at all
-- `len() - 1` overflows in the second, which its caller models.
unfoldable pub signature_ports : List RootAnnouncementSignature → List Port
signature_ports = map (λ s. s.destination_port)
