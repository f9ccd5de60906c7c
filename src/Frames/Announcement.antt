-- ===== src/Frames/Announcement.antt =====
-- src/frames.rs, the methods of `TreeAnnouncement`, with `coords` and `peer_coords` of
-- src/coordinates.rs. The `ed25519_consensus` crate is the record `Ed25519`.
use rust_pinecone.Prelude.{
  ℕ, zero, suc, ◌-◌, ◌≡◌, Bool, true, false, not, ◌&&◌, ◌||◌, List, [], ◌∷◌, ◌++◌, Option, none,
  some, length, get_elem?, last?, drop_last, ltb, ◌==◌, if◌then◌else◌, Reply, ok, panic,
}
use rust_pinecone.Bytes.{BytesMut}
use rust_pinecone.Bytes.Words.{be}
use rust_pinecone.Tree.{PublicKey, Port, Signature, Root, RootAnnouncementSignature}
use rust_pinecone.Coordinates.{Coordinates, signature_ports}
use rust_pinecone.Frames.{TreeAnnouncement}

abbrev pub SigningKey : Type 0
SigningKey = ℕ

-- `is_key k` says that `VerificationKey::try_from(k)` succeeds, and `verify k s m` that then
-- `verify(s, m)` does.
pub record Ed25519 : Type 0 where
  pub verification_key : SigningKey → PublicKey
  pub sign : SigningKey → List ℕ → Signature
  pub is_key : PublicKey → Bool
  pub verify : PublicKey → Signature → List ℕ → Bool

-- A signature is accepted under the key that belongs to the signing key.
pub record IsCorrect (c : Ed25519) : Type 0 where
  pub is_key-verification_key : (k : SigningKey) → c.is_key (c.verification_key k) ≡ true
  pub verify-sign :
      (k : SigningKey) (m : List ℕ) → c.verify (c.verification_key k) (c.sign k m) m ≡ true

-- The numbers below `n`, as `0..n` yields them.
unfoldable pub range_from : ℕ → ℕ → List ℕ
range_from i zero = []
range_from i (suc n) = i ∷ range_from (suc i) n

unfoldable pub any {ℓ} : {A : Type ℓ} → (A → Bool) → List A → Bool
any p [] = false
any p (x ∷ xs) = p x || any p xs

unfoldable pub same_key : Option RootAnnouncementSignature → Option RootAnnouncementSignature → Bool
same_key none t = false
same_key (some s) none = false
same_key (some s) (some t) = s.signing_public_key == t.signing_public_key

-- `self.signatures.get(i).unwrap().signing_public_key == self.signatures.get(j).unwrap()…`, at
-- indices below the length.
unfoldable pub same_signer : List RootAnnouncementSignature → ℕ → ℕ → Bool
unfolding same_key
same_signer sigs i j = same_key (get_elem? sigs i) (get_elem? sigs j)

-- The two nested loops of `is_clean` over `0..len - 1`.
unfoldable pub has_loop : List RootAnnouncementSignature → Bool
has_loop sigs =
    let indices = range_from 0 (length sigs - 1) in
    any (λ i. any (λ j. not (i == j) && same_signer sigs i j) indices) indices

unfoldable pub is_loop_of_child : TreeAnnouncement → PublicKey → Bool
is_loop_of_child a key = any (λ s. s.signing_public_key == key) a.signatures

unfoldable pub replayed_old_sequence : TreeAnnouncement → TreeAnnouncement → Bool
replayed_old_sequence a of = ltb a.root.sequence_number of.root.sequence_number

unfoldable pub has_same_root_key : TreeAnnouncement → TreeAnnouncement → Bool
has_same_root_key a as_ = a.root.public_key == as_.root.public_key

unfoldable pub coords : TreeAnnouncement → Coordinates
coords a = record { coordinates = signature_ports a.signatures }

-- `len() - 1` overflows where there is no signature.
unfoldable pub peer_coords : TreeAnnouncement → Reply Coordinates
peer_coords a = elim a.signatures [
  | [] ↦ panic
  | s ∷ rest ↦ ok (record { coordinates = signature_ports (drop_last (s ∷ rest)) })
]

module _ (b : BytesMut) (c : Ed25519) where
  -- What a signature covers: the root, then each earlier signer with its port and signature.
  unfoldable pub put_root : Root → List ℕ → List ℕ
  put_root r buf = b.put_u64 r.sequence_number (b.put_slice (be 32 r.public_key) buf)

  unfoldable pub put_signer : PublicKey → Port → List ℕ → List ℕ
  put_signer key port buf = b.put_u64 port (b.put_slice (be 32 key) buf)

  unfoldable pub put_signatures : List RootAnnouncementSignature → List ℕ → List ℕ
  put_signatures [] buf = buf
  put_signatures (s ∷ rest) buf =
      put_signatures rest
        (b.put_slice (be 64 s.signature) (put_signer s.signing_public_key s.destination_port buf))

  unfoldable pub append_signature : TreeAnnouncement → SigningKey → Port → TreeAnnouncement
  append_signature a keypair port =
      let public_key = c.verification_key keypair in
      let unsigned =
        put_signer public_key port (put_signatures a.signatures (put_root a.root [])) in
      record a {
        signatures =
            a.signatures
            ++ (record {
              signing_public_key = public_key;
              destination_port = port;
              signature = c.sign keypair unsigned;
            })
              ∷ [];
      }

  -- The last loop of `is_clean`, over what is left of the signatures.
  unfoldable pub verify_all : List ℕ → List RootAnnouncementSignature → Bool
  verify_all buf [] = true
  verify_all buf (s ∷ rest) =
      let to_verify = put_signer s.signing_public_key s.destination_port buf in
      let later = verify_all (b.put_slice (be 64 s.signature) to_verify) rest in
      if c.is_key s.signing_public_key
      then if c.verify s.signing_public_key s.signature to_verify then later else false
      else false

  -- The tests of `is_clean`, in their order.
  unfoldable pub passes :
      Root
      → RootAnnouncementSignature
      → RootAnnouncementSignature
      → List RootAnnouncementSignature
      → PublicKey
      → Bool
  passes root first last sigs peer =
      if root.public_key == first.signing_public_key
      then if peer == last.signing_public_key
        then if any (λ s. s.destination_port == 0) sigs
          then false
          else if has_loop sigs
          then false
          else verify_all (put_root root []) sigs
        else false
      else false

  -- `is_clean` on the root and the signatures. With no signature `get(0).unwrap()` panics.
  unfoldable pub signatures_clean : Root → List RootAnnouncementSignature → PublicKey → Reply Bool
  signatures_clean root [] peer = panic
  signatures_clean root (first ∷ rest) peer = elim (last? (first ∷ rest)) [
    | none ↦ panic
    | some last ↦ ok (passes root first last (first ∷ rest) peer)
  ]

  unfoldable pub is_clean : TreeAnnouncement → PublicKey → Reply Bool
  unfolding signatures_clean
  is_clean a peer = signatures_clean a.root a.signatures peer
