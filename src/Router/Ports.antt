-- ===== src/Router/Ports.antt =====
-- src/router.rs, the port table: `get_new_port`, `port`, `peers` and `get_peer_on_port`.
pub mod Fresh
pub mod Table
use rust_pinecone.Prelude.{
  ℕ, zero, suc, ◌+◌, ◌≡◌, Bool, true, false, List, [], ◌∷◌, Option, none, some, length, ◌==◌,
  if◌then◌else◌, Reply, ok, err, panic, M,
}
use rust_pinecone.Prelude.Maps
use rust_pinecone.Prelude.Maps.{HashMap, nat_eq}
use rust_pinecone.Tree.{PublicKey, Port}
use rust_pinecone.Router.State.{Router}

-- The loop over `1..`, with fuel; `none` means that the fuel ran out.
unfoldable pub free_port : ℕ → HashMap Port (Option PublicKey) → Port → Option Port
free_port zero ports i = none
free_port (suc fuel) ports i =
    let later = free_port fuel ports (suc i) in if Maps.contains_key ports i then later else some i

-- The fuel is one round more than there are entries; Router/Ports/Fresh is about the result.
unfoldable pub get_new_port : M Router Port
get_new_port r = elim (free_port (suc (length r.ports)) r.ports 1) [
  | none ↦ (panic, r)
  | some i ↦ (ok i, record r { ports = Maps.insert r.ports i none })
]

unfoldable pub find_port : HashMap Port (Option PublicKey) → PublicKey → Option Port
find_port [] of = none
find_port ((p, none) ∷ rest) of = find_port rest of
find_port ((p, some peer) ∷ rest) of = if peer == of then some p else find_port rest of

-- The own key is on port 0.
unfoldable pub port : Router → PublicKey → Option Port
port r of = if r.public_key == of then some 0 else find_port r.ports of

unfoldable pub peers_of : HashMap Port (Option PublicKey) → List PublicKey
peers_of [] = []
peers_of ((p, none) ∷ rest) = peers_of rest
peers_of ((p, some peer) ∷ rest) = peer ∷ peers_of rest

unfoldable pub peers : Router → List PublicKey
peers r = peers_of r.ports

unfoldable pub get_peer_on_port : Router → Port → Option PublicKey
get_peer_on_port r p =
    if p == 0
    then some r.public_key
    else elim (Maps.get r.ports p) [ none ↦ none | some peer ↦ peer ]
