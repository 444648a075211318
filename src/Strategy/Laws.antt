-- ===== src/Strategy/Laws.antt =====
-- What a strategy promises to the stream: an interface, and what the stream makes of it.
use dragoonfly.Base.{◌≡◌, refl, ap, List, [], ◌∷◌, map, head?, tail, All, arith}
use dragoonfly.Base.Result.{ok}
use dragoonfly.Strategy.Defs.{
  PeerId, SendId, BlockInput, Chooser, send_id, block_of, get_send_stream,
}

-- A call picks a peer with `P` for exactly the block that it was given, and `Ready` holds of what is
-- left.
abbrev pub Served {ℓ} :
    {S : Type ℓ}
    → Chooser S
    → (S → List PeerId → Type 0)
    → (PeerId → Type 0)
    → S
    → List PeerId
    → BlockInput
    → Type ℓ
Served {S} choose Ready P s peers block =
    (p : PeerId) × (s' : S) × (choose s (head? peers) block ≡ (s', ok (send_id p block)))
    × P p
    × Ready s' (tail peers)

pub record Serves {ℓ} {S : Type ℓ} (choose : Chooser S) (Ready : S → List PeerId → Type 0)
    (P : PeerId → Type 0) : Type ℓ where
  pub serves :
      (s : S) (peers : List PeerId) (block : BlockInput)
      → Ready s peers
      → Served choose Ready P s peers block

get_send_stream_ok {ℓ} :
    {S : Type ℓ} (choose : Chooser S) (s s' : S) (peers : List PeerId) (b : BlockInput)
    (bs : List BlockInput) (id : SendId)
    → choose s (head? peers) b ≡ (s', ok id)
    → get_send_stream choose s peers (b ∷ bs) ≡ id ∷ get_send_stream choose s' (tail peers) bs
unfolding get_send_stream
get_send_stream_ok choose s s' peers b bs id e = ground arith

module _ {ℓ} {S : Type ℓ} {choose : Chooser S} {Ready : S → List PeerId → Type 0}
    {P : PeerId → Type 0} (law : Serves choose Ready P) where
  pub stream-blocks :
      (s : S) (peers : List PeerId) (blocks : List BlockInput)
      → Ready s peers
      → map block_of (get_send_stream choose s peers blocks) ≡ blocks
  unfolding get_send_stream
  stream-blocks s peers [] h = refl
  stream-blocks s peers (b ∷ bs) h =
      let (p, s', e, q, h') = law.serves s peers b h in
      rw (get_send_stream_ok choose s s' peers b bs _ e)
        (ap (◌∷◌ b) (stream-blocks s' (tail peers) bs h'))

  pub stream-peers :
      (s : S) (peers : List PeerId) (blocks : List BlockInput)
      → Ready s peers
      → All (λ id. P id.peer_id) (get_send_stream choose s peers blocks)
  unfolding get_send_stream
  stream-peers s peers [] h = tt
  stream-peers s peers (b ∷ bs) h =
      let (p, s', e, q, h') = law.serves s peers b h in
      rw (get_send_stream_ok choose s s' peers b bs _ e) (q, stream-peers s' (tail peers) bs h')
