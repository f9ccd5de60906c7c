-- ===== src/Client/Separate.antt =====
-- The senders to sessions of src/client.rs, `session_senders`: that no two are on one channel.
use rust_pinecone.Prelude.{
  suc, ◌<◌, ◌≡◌, ◌≢◌, inl, inr, refl, arith, Bool, true, false, ◌||◌, [], ◌∷◌, some, ◌==◌,
  Bool-cases,
}
use rust_pinecone.Prelude.Maps.{HashMap, nat_eq, get, insert, remove}
use rust_pinecone.Tree.{PublicKey}
use rust_pinecone.Session.{ChannelId}
use rust_pinecone.Client.{Client}

unfoldable pub has_channel : ChannelId → HashMap PublicKey ChannelId → Bool
has_channel id [] = false
has_channel id ((k, i) ∷ m) = (i == id) || has_channel id m

-- No two senders are on one channel, and a new channel is on none.
abbrev pub IsSeparate : ChannelId → HashMap PublicKey ChannelId → Type 0
IsSeparate next [] = Unit {0}
IsSeparate next ((k, id) ∷ m) = (id < next) × (has_channel id m ≡ false) × IsSeparate next m

abbrev pub AreSeparate : Client → Type 0
AreSeparate c = IsSeparate c.next_channel c.session_senders

pub has_channel-get :
    (m : HashMap PublicKey ChannelId) (k : PublicKey) (id : ChannelId)
    → get m k ≡ some id
    → has_channel id m ≡ true
unfolding get has_channel
has_channel-get [] k id h = absurd (cc h)
has_channel-get ((i, a) ∷ m) k id h = ground (arith, has_channel-get m k id)

pub has_channel-insert :
    (m : HashMap PublicKey ChannelId) (k : PublicKey) (id new : ChannelId)
    → has_channel id m ≡ false
    → new ≢ id
    → has_channel id (insert m k new) ≡ false
unfolding insert has_channel
has_channel-insert [] k id new h n = ground arith
has_channel-insert ((i, a) ∷ m) k id new h n = ground (arith, has_channel-insert m k id new)

pub has_channel-remove :
    (m : HashMap PublicKey ChannelId) (k : PublicKey) (id : ChannelId)
    → has_channel id m ≡ false
    → has_channel id (remove m k) ≡ false
unfolding remove has_channel
has_channel-remove [] k id h = refl
has_channel-remove ((i, a) ∷ m) k id h = ground (arith, has_channel-remove m k id)

pub has_channel_next :
    (m : HashMap PublicKey ChannelId) (next : ChannelId)
    → IsSeparate next m
    → has_channel next m ≡ false
unfolding has_channel
has_channel_next [] next s = refl
has_channel_next ((i, a) ∷ m) next s = ground (arith, has_channel_next m next s.2)

pub IsSeparate-suc :
    (m : HashMap PublicKey ChannelId) (next : ChannelId)
    → IsSeparate next m
    → IsSeparate (suc next) m
IsSeparate-suc [] next s = tt
IsSeparate-suc ((i, a) ∷ m) next s = (omega arith, s.1, IsSeparate-suc m next s.2)

pub insert-IsSeparate :
    (m : HashMap PublicKey ChannelId) (k : PublicKey) (next : ChannelId)
    → IsSeparate next m
    → IsSeparate (suc next) (insert m k next)
unfolding insert has_channel
insert-IsSeparate [] k next s = (omega arith, refl, tt)
insert-IsSeparate ((i, a) ∷ m) k next s = elim (Bool-cases (i == k)) [
  | inl same ↦
      rw (same, insert) (omega arith, has_channel_next m next s.2, IsSeparate-suc m next s.2)
  | inr other ↦
      rw (other, insert)
        (
          omega arith,
          has_channel-insert m k a next s.1 (λ e. absurd (omega arith)),
          insert-IsSeparate m k next s.2,
        )
]

pub remove-IsSeparate :
    (m : HashMap PublicKey ChannelId) (k : PublicKey) (next : ChannelId)
    → IsSeparate next m
    → IsSeparate next (remove m k)
unfolding remove
remove-IsSeparate [] k next s = tt
remove-IsSeparate ((i, a) ∷ m) k next s = elim (Bool-cases (i == k)) [
  | inl same ↦ rw (same, remove) (remove-IsSeparate m k next s.2)
  | inr other ↦
      rw (other, remove) (s.0, has_channel-remove m k a s.1, remove-IsSeparate m k next s.2)
]

-- Two senders that are on one channel are the same.
pub same_sender :
    (m : HashMap PublicKey ChannelId) (next : ChannelId) (k j : PublicKey) (id : ChannelId)
    → IsSeparate next m
    → get m k ≡ some id
    → get m j ≡ some id
    → k ≡ j
unfolding get
same_sender [] next k j id s p q = absurd (cc p)
same_sender ((i, a) ∷ m) next k j id s p q =
    ground (arith, same_sender m next k j id s.2, has_channel-get m k id, has_channel-get m j id)

pub has_channel_ne :
    (m : HashMap PublicKey ChannelId) (next : ChannelId) (j : PublicKey) (id : ChannelId)
    → IsSeparate next m
    → get m j ≡ some id
    → next ≢ id
has_channel_ne m next j id s h e = cc (has_channel_next m next s, has_channel-get m j id h)
