-- ===== src/Frames/Relay.antt =====
-- `append_signature` and `is_clean` of src/frames.rs, one after the other.
use rust_pinecone.Prelude.{
  ℕ, ◌≡◌, ◌≢◌, refl, arith, true, false, List, [], ◌∷◌, ◌++◌, some, last?, ap, ◌∙◌, ◌↔◌, inl, inr,
  Option-cases, ◌==◌, ok,
}
use rust_pinecone.Bytes.{BytesMut}
use rust_pinecone.Tree.{Port, Root, RootAnnouncementSignature}
use rust_pinecone.Frames.{TreeAnnouncement}
use rust_pinecone.Frames.Announcement.{
  Ed25519, IsCorrect, SigningKey, any, has_loop, put_root, put_signer, put_signatures,
  append_signature, verify_all, passes, signatures_clean, is_clean,
}
use rust_pinecone.Frames.Checks.{
  any-append, last?-append, Distinct, has_loop-append, verify_all-append,
}

module _ (b : BytesMut) {c : Ed25519} (laws : IsCorrect c) where
  -- The one signature that is added is accepted behind what was signed before it.
  last_verified :
      (buf : List ℕ) (k : SigningKey) (port : Port)
      → verify_all b c buf (
          (record {
            signing_public_key = c.verification_key k;
            destination_port = port;
            signature = c.sign k (put_signer b c (c.verification_key k) port buf);
          })
          ∷ [])
        ≡ true
  unfolding verify_all
  last_verified buf k port = rw (laws.is_key-verification_key k, laws.verify-sign k _)

  -- What the tests of `is_clean` ask for.
  passes_parts :
      (r : Root) (first last : RootAnnouncementSignature) (sigs : List RootAnnouncementSignature)
      (peer : ℕ)
      → (passes b c r first last sigs peer ≡ true) ↔ (
          (r.public_key ≡ first.signing_public_key)
          × (peer ≡ last.signing_public_key)
          × (any (λ s. s.destination_port == 0) sigs ≡ false)
          × (has_loop sigs ≡ false)
          × (verify_all b c (put_root b c r []) sigs ≡ true))
  unfolding passes
  passes_parts r first last sigs peer = ground arith

  signatures_clean_test :
      (r : Root) (first last : RootAnnouncementSignature) (rest : List RootAnnouncementSignature)
      (peer : ℕ)
      → last? (first ∷ rest) ≡ some last
      → signatures_clean b c r (first ∷ rest) peer
        ≡ ok (passes b c r first last (first ∷ rest) peer)
  unfolding signatures_clean
  signatures_clean_test r first last rest peer h = rw (h, signatures_clean)

  clean_inversion :
      (r : Root) (first : RootAnnouncementSignature) (rest : List RootAnnouncementSignature)
      (peer : ℕ)
      → signatures_clean b c r (first ∷ rest) peer ≡ ok true
      → (last : RootAnnouncementSignature) × (passes b c r first last (first ∷ rest) peer ≡ true)
  unfolding signatures_clean
  clean_inversion r first rest peer h = elim (Option-cases (last? (first ∷ rest))) [
    | inl e ↦ cc (rw (e, signatures_clean) at h)
    | inr (last, e) ↦ (last, cc (rw (e, signatures_clean) at h))
  ]

  -- The signature that `append_signature` adds.
  abbrev own_signature :
      Root → List RootAnnouncementSignature → SigningKey → Port → RootAnnouncementSignature
  own_signature r sigs k port = record {
    signing_public_key = c.verification_key k;
    destination_port = port;
    signature =
        c.sign k (
          put_signer b c (c.verification_key k) port (put_signatures b c sigs (put_root b c r [])));
  }

  no_zero :
      (s : RootAnnouncementSignature)
      → s.destination_port ≢ 0
      → any (λ s. s.destination_port == 0) (s ∷ []) ≡ false
  unfolding any
  no_zero s h = ground arith

  relayed :
      (r : Root) (sigs : List RootAnnouncementSignature) (peer k : ℕ) (port : Port)
      → signatures_clean b c r sigs peer ≡ ok true
      → Distinct sigs
      → port ≢ 0
      → signatures_clean b c r (sigs ++ own_signature r sigs k port ∷ []) (c.verification_key k)
        ≡ ok true
  relayed r [] peer k port h d p = unfold signatures_clean in cc h
  relayed r (first ∷ rest) peer k port h d p =
      let own = own_signature r (first ∷ rest) k port in
      let (last, t) = clean_inversion r first rest peer h in
      let parts = (passes_parts r first last (first ∷ rest) peer).0 t in
      signatures_clean_test r first own (rest ++ own ∷ []) _ (last?-append (first ∷ rest) own)
      ∙ ap ok (
          (passes_parts r first own (first ∷ rest ++ own ∷ []) _).1 (
            parts.0,
            refl,
            any-append _ (first ∷ rest) (own ∷ []) ∙ rw (parts.2, no_zero own p),
            has_loop-append (first ∷ rest) own d,
            verify_all-append b c _ (first ∷ rest) (own ∷ [])
                ∙ rw (parts.4, last_verified _ k port),
          ))

  -- With a signature scheme that accepts its own signatures: from an announcement that is clean
  -- for some peer and whose signers all differ, a node that appends its signature for a port
  -- other than 0 makes one that is clean when it comes from that node.
  pub append_signature-is_clean :
      (a : TreeAnnouncement) (peer k : ℕ) (port : Port)
      → is_clean b c a peer ≡ ok true
      → Distinct a.signatures
      → port ≢ 0
      → is_clean b c (append_signature b c a k port) (c.verification_key k) ≡ ok true
  unfolding is_clean append_signature
  append_signature-is_clean a peer k port h d p = relayed a.root a.signatures peer k port h d p
