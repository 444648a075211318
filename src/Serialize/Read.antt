-- ===== src/Serialize/Read.antt =====
-- What a client can read in an answer.
use dragoonfly.Base.{
  ℕ, ◌≡◌, ◌≢◌, refl, ap, String, Option, none, some, List, [], ◌∷◌, arith, if◌then◌else◌, ◌==◌,
  string_eq,
}
use dragoonfly.Strategy.{PeerId, SendId}
use dragoonfly.Exchange.World.{PeerBlockInfo}
use dragoonfly.Network.Defs
use dragoonfly.Network.Defs.{Multiaddr, BlockResponse, NetworkInfo, Value}
use dragoonfly.Serialize.Json.{
  Json, null, text, number, boolean, array, object, nil, element, no_field, field, elements,
  read_elements,
}
use dragoonfly.Serialize.Convert.{
  Texts, none_block, convert_ser, ser_send_id, ser_peer_id, ser_sizes, ser_block_response,
  ser_peer_block_info,
}

-- A client that knows the names that the keys of the answers have in the source. What it knows of an
-- answer: the command that it has sent.
pub data Kind : Type 0 where
  as_nothing as_number as_flag as_strings as_peers as_info as_block as_node as_network as_hashes
        as_distribution as_sent as_text :
      Kind

abbrev pub read_text : Json → Option String
read_text (text s) = some s
read_text _ = none

abbrev pub read_number : Json → Option ℕ
read_number (number n) = some n
read_number _ = none

abbrev pub on_some {ℓ κ} : {A : Type ℓ} {B : Type κ} → (A → B) → Option A → Option B
on_some f none = none
on_some f (some a) = some (f a)

-- What is read of a value whose key is the expected one.
abbrev pub named {ℓ} : {A : Type ℓ} → String → String → Option A → Option A
named expected key o = if key == expected then o else none

abbrev pub read_block_response : Json → Option BlockResponse
read_block_response (object (field a (text f) (field b (text h) (field c (array bs) no_field)))) =
    named "file_hash" a (
      named "block_hash" b (
        named "block_data" c (
          on_some (λ bytes. record { file_hash = f; block_hash = h; block_data = bytes })
            (read_elements read_number bs))))
read_block_response _ = none

abbrev pub read_sizes : Json → Option (Option (List ℕ))
read_sizes null = some none
read_sizes (array ns) = on_some some (read_elements read_number ns)
read_sizes _ = none

abbrev pub info_of :
    String → String → Option (List String) → Option (Option (List ℕ)) → Option PeerBlockInfo
info_of p f (some hs) (some sizes) =
    some (record { peer_id_base_58 = p; file_hash = f; block_hashes = hs; block_sizes = sizes })
info_of p f _ _ = none

abbrev pub read_peer_block_info : Json → Option PeerBlockInfo
read_peer_block_info
      (object (field a (text p) (field b (text f) (field c (array hs) (field d sizes no_field))))) =
    named "peer_id_base_58" a (
      named "file_hash" b (
        named "block_hashes" c
          (named "block_sizes" d (info_of p f (read_elements read_text hs) (read_sizes sizes)))))
read_peer_block_info _ = none

abbrev pub read_network_info : Json → Option NetworkInfo
read_network_info
      (object (
        field k (number a) (
          field l (number b) (
            field m (number c) (
              field n (number d) (
                field o
                  (number e)
                  (field p (number f) (field q (number g) (field r (number h) no_field))))))))) =
    named "peers" k (
      named "pending" l (
        named "connections" m (
          named "established" n (
            named "pending_incoming" o (
              named "pending_outgoing" p (
                named "established_incoming" q (
                  named "established_outgoing" r (
                    some (record {
                      peers = a;
                      pending = b;
                      connections = c;
                      established = d;
                      pending_incoming = e;
                      pending_outgoing = f;
                      established_incoming = g;
                      established_outgoing = h;
                    })))))))))
read_network_info _ = none

module _ (t : Texts) where
  abbrev pub read_peer_id : Json → Option PeerId
  read_peer_id (text s) = t.from_base58 s
  read_peer_id _ = none

  abbrev pub read_send_id : Json → Option SendId
  read_send_id (array (element p (element (text f) (element (text h) nil)))) =
      on_some (λ q. record { peer_id = q; file_hash = f; block_hash = h }) (read_peer_id p)
  read_send_id _ = none

  unfoldable pub read : Kind → Json → Option Value
  read as_nothing (text _) = some Defs.nothing
  read as_number (number n) = some (Defs.number n)
  read as_flag (boolean b) = some (Defs.flag b)
  read as_strings (array js) = on_some Defs.strings (read_elements read_text js)
  read as_peers (array js) = on_some Defs.peers (read_elements read_peer_id js)
  read as_info j = on_some Defs.info (read_peer_block_info j)
  read as_block j = on_some (λ r. Defs.block (some r)) (read_block_response j)
  read as_node (array (element p (element (text label) nil))) =
      on_some (λ q. Defs.node q label) (read_peer_id p)
  read as_network j = on_some Defs.network (read_network_info j)
  read as_hashes (array (element (text f) (element (text out) nil))) = some (Defs.hashes f out)
  read as_distribution (array js) = on_some Defs.distribution (read_elements read_send_id js)
  read as_sent (array (element (boolean b) (element id nil))) =
      on_some (Defs.sent b) (read_send_id id)
  read _ _ = none

-- The kind of an answer: the texts of paths, addresses and storage sizes have one kind that is not read.
abbrev pub kind : Value → Kind
kind Defs.nothing = as_nothing
kind (Defs.number _) = as_number
kind (Defs.flag _) = as_flag
kind (Defs.storage_text _) = as_text
kind (Defs.strings _) = as_strings
kind (Defs.addresses _) = as_text
kind (Defs.peers _) = as_peers
kind (Defs.path _) = as_text
kind (Defs.info _) = as_info
kind (Defs.block _) = as_block
kind (Defs.node _ _) = as_node
kind (Defs.network _) = as_network
kind (Defs.hashes _ _) = as_hashes
kind (Defs.distribution _) = as_distribution
kind (Defs.sent _ _) = as_sent

-- A block that was saved to disk is seen as one whose hashes are "None".
abbrev pub seen : Value → Value
seen (Defs.block none) = Defs.block (some none_block)
seen v = v

read_elements-elements {ℓ} :
    {A : Type ℓ} (f : A → Json) (g : Json → Option A)
    → ((a : A) → g (f a) ≡ some a)
    → (xs : List A) → read_elements g (elements f xs) ≡ some xs
read_elements-elements f g h [] = refl
read_elements-elements f g h (x ∷ xs) = ground (arith, h x, read_elements-elements f g h xs)

module _ (t : Texts) where
  read_peer_id-ser_peer_id : (p : PeerId) → read_peer_id t (ser_peer_id t p) ≡ some p
  read_peer_id-ser_peer_id p = t.from_base58-to_base58 p

  read_send_id-ser_send_id : (s : SendId) → read_send_id t (ser_send_id t s) ≡ some s
  read_send_id-ser_send_id s = ap (on_some _) (t.from_base58-to_base58 s.peer_id)

  read_sizes-ser_sizes : (o : Option (List ℕ)) → read_sizes (ser_sizes o) ≡ some o
  read_sizes-ser_sizes none = refl
  read_sizes-ser_sizes (some ns) =
      ap (on_some some) (read_elements-elements number read_number (λ n. refl) ns)

  read_block_response-ser_block_response :
      (r : BlockResponse) → read_block_response (ser_block_response r) ≡ some r
  read_block_response-ser_block_response r =
      ap (on_some _) (read_elements-elements number read_number (λ n. refl) r.block_data)

  read_peer_block_info-ser_peer_block_info :
      (i : PeerBlockInfo) → read_peer_block_info (ser_peer_block_info i) ≡ some i
  read_peer_block_info-ser_peer_block_info i = ground (
    arith,
    read_elements-elements text read_text (λ s. refl) i.block_hashes,
    read_sizes-ser_sizes i.block_sizes,
  )

  -- What a client that looks at the keys reads in an answer, once it knows the command, is the answer itself, except that a block
  -- which was saved to disk is seen as a block whose two hashes are "None" and which has no bytes. Paths,
  -- addresses and the texts about the storage size are left aside.
  pub read-convert_ser :
      (v : Value) → kind v ≢ as_text → read t (kind v) (convert_ser t v) ≡ some (seen v)
  unfolding read convert_ser
  read-convert_ser Defs.nothing h = refl
  read-convert_ser (Defs.number n) h = refl
  read-convert_ser (Defs.flag b) h = refl
  read-convert_ser (Defs.storage_text a) h = absurd (h refl)
  read-convert_ser (Defs.strings ss) h =
      ap (on_some Defs.strings) (read_elements-elements text read_text (λ s. refl) ss)
  read-convert_ser (Defs.addresses l) h = absurd (h refl)
  read-convert_ser (Defs.peers ps) h =
      ap (on_some Defs.peers)
        (read_elements-elements (ser_peer_id t) (read_peer_id t) read_peer_id-ser_peer_id ps)
  read-convert_ser (Defs.path p) h = absurd (h refl)
  read-convert_ser (Defs.info i) h =
      ap (on_some Defs.info) (read_peer_block_info-ser_peer_block_info i)
  read-convert_ser (Defs.block none) h = refl
  read-convert_ser (Defs.block (some r)) h =
      ap (on_some (λ r. Defs.block (some r))) (read_block_response-ser_block_response r)
  read-convert_ser (Defs.node p label) h =
      ap (on_some (λ q. Defs.node q label)) (t.from_base58-to_base58 p)
  read-convert_ser (Defs.network i) h = refl
  read-convert_ser (Defs.hashes f out) h = refl
  read-convert_ser (Defs.distribution ids) h =
      ap (on_some Defs.distribution)
        (read_elements-elements (ser_send_id t) (read_send_id t) read_send_id-ser_send_id ids)
  read-convert_ser (Defs.sent b id) h = ap (on_some (Defs.sent b)) (read_send_id-ser_send_id id)
