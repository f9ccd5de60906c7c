-- ===== src/Snek.antt =====
-- src/snek.rs: paths through the overlay, the entries of a router's routing table.
use rust_pinecone.Prelude.{
  ℕ, ◌-◌, ◌*◌, ◌≡◌, ◌↔◌, Bool, true, false, ◌&&◌, ltb, ◌==◌, if◌then◌else◌, arith, Reply, ok, panic,
}
use rust_pinecone.Prelude.Maps.{Eq}
use rust_pinecone.Tree.{PublicKey, Port, SnekPathId, Root}

pub record SnekPathIndex : Type 0 where
  pub public_key : PublicKey
  pub path_id : SnekPathId

pub record SnekPath : Type 0 where
  pub index : SnekPathIndex
  pub origin : PublicKey
  pub target : PublicKey
  pub source : Port
  pub destination : Port
  pub last_seen : ℕ
  pub root : Root
  pub active : Bool

abbrev pub second : ℕ
second = 1_000_000_000

-- One hour, in nanoseconds.
abbrev pub snek_expiry_period : ℕ
snek_expiry_period = 60 * 60 * second

-- `time.elapsed().unwrap()`, which panics where the clock has gone back.
unfoldable pub elapsed : ℕ → ℕ → Reply ℕ
elapsed now time = if ltb now time then panic else ok (now - time)

unfoldable pub valid : ℕ → SnekPath → Reply Bool
unfolding elapsed
valid now p = elim (elapsed now p.last_seen) [
  | ok d ↦ ok (ltb d snek_expiry_period)
  | Reply.err e ↦ Reply.err e
  | panic ↦ panic
]

abbrev pub index_eq : SnekPathIndex → SnekPathIndex → Bool
index_eq i j = (i.public_key == j.public_key) && (i.path_id == j.path_id)

pub index_eq_iff : (i j : SnekPathIndex) → (index_eq i j ≡ true) ↔ (i ≡ j)
index_eq_iff i j = ground arith

instance abbrev pub index_Eq : Eq SnekPathIndex
index_Eq = record { beq = index_eq; beq_iff = index_eq_iff }

abbrev pub bool_eq : Bool → Bool → Bool
bool_eq true c = c
bool_eq false true = false
bool_eq false false = true

-- `==`, which is derived field by field.
abbrev pub path_eq : SnekPath → SnekPath → Bool
path_eq p q =
    index_eq p.index q.index
    && ((p.origin == q.origin)
        && ((p.target == q.target)
            && ((p.source == q.source)
                && ((p.destination == q.destination)
                    && ((p.last_seen == q.last_seen)
                        && ((p.root.public_key == q.root.public_key)
                            && ((p.root.sequence_number == q.root.sequence_number)
                                && bool_eq p.active q.active)))))))
