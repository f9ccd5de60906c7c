-- ===== src/Tree.antt =====
-- src/tree.rs and the type aliases of src/router.rs: roots, signatures and what is routed over the
-- tree. A `PublicKey`, an array of 32 bytes, is the number that its bytes spell in big-endian
-- order (Tree/Keys is about the comparison). A `Signature` is that of its 64 bytes.
pub mod Keys
pub mod Order
use rust_pinecone.Prelude.{
  ℕ, ◌≡◌, ◌<◌, ◌^◌, Bool, true, false, ◌&&◌, List, [], ◌∷◌, arith, ltb, ◌==◌, if◌then◌else◌,
}
use Prim.Native.Nat.{compare, Ordering}

abbrev pub Port : Type 0
Port = ℕ

abbrev pub SequenceNumber : Type 0
SequenceNumber = ℕ

abbrev pub SnekPathId : Type 0
SnekPathId = ℕ

abbrev pub PublicKey : Type 0
PublicKey = ℕ

-- The 64 bytes of an `ed25519_consensus::Signature`, as one number.
abbrev pub Signature : Type 0
Signature = ℕ

pub record Root : Type 0 where
  pub public_key : PublicKey
  pub sequence_number : SequenceNumber

-- `Ord for Root`: by key, then by sequence number.
unfoldable pub cmp : Root → Root → Ordering
cmp r s = elim (compare r.public_key s.public_key) [
  | Ordering.eq ↦ compare r.sequence_number s.sequence_number
  | other ↦ other
]

-- `==`, which is derived field by field.
abbrev pub root_eq : Root → Root → Bool
root_eq r s = (r.public_key == s.public_key) && (r.sequence_number == s.sequence_number)

abbrev pub root_lt : Root → Root → Bool
root_lt r s = elim (cmp r s) [ Ordering.lt ↦ true | _ ↦ false ]

pub record RootAnnouncementSignature : Type 0 where
  pub signing_public_key : PublicKey
  pub destination_port : Port
  pub signature : Signature
