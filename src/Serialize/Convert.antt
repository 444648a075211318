-- ===== src/Serialize/Convert.antt =====
-- `convert_ser` for each type that a command is answered with.
use Prim.Native.String.{◌++◌ as push_str}
use dragoonfly.Base.{ℕ, ◌≡◌, String, Option, none, some, List, []}
use dragoonfly.Strategy.{PeerId, SendId}
use dragoonfly.Paths.{FilePath}
use dragoonfly.Exchange.World.{PeerBlockInfo}
use dragoonfly.Storage.Ledger.{StorageAnswer, no_more_blocks, remaining}
use dragoonfly.Network.Defs
use dragoonfly.Network.Defs.{Multiaddr, BlockResponse, NetworkInfo, Value}
use dragoonfly.Serialize.Json.{
  Json, null, text, number, boolean, array, object, nil, element, no_field, field, elements,
}

-- The texts of libp2p, bs58 and the standard library. A peer id is read back from its text.
pub record Texts : Type 0 where
  pub to_base58 : PeerId → String
  pub from_base58 : String → Option PeerId
  pub from_base58-to_base58 : (p : PeerId) → from_base58 (to_base58 p) ≡ some p
  pub address_text : Multiaddr → String
  pub path_text : FilePath → String
  pub show_number : ℕ → String

abbrev pub pair : Json → Json → Json
pair a b = array (element a (element b nil))

-- The derived `Serialize` of `BlockResponse`, `PeerBlockInfo` and `SerNetworkInfo`.
abbrev pub ser_block_response : BlockResponse → Json
ser_block_response r = object (
    field "file_hash" (text r.file_hash) (
      field "block_hash" (text r.block_hash)
        (field "block_data" (array (elements number r.block_data)) no_field)))

abbrev pub ser_sizes : Option (List ℕ) → Json
ser_sizes none = null
ser_sizes (some sizes) = array (elements number sizes)

abbrev pub ser_peer_block_info : PeerBlockInfo → Json
ser_peer_block_info i = object (
    field "peer_id_base_58" (text i.peer_id_base_58) (
      field "file_hash" (text i.file_hash) (
        field "block_hashes" (array (elements text i.block_hashes))
          (field "block_sizes" (ser_sizes i.block_sizes) no_field))))

abbrev pub ser_network_info : NetworkInfo → Json
ser_network_info i = object (
    field "peers" (number i.peers) (
      field "pending" (number i.pending) (
        field "connections" (number i.connections) (
          field "established" (number i.established) (
            field "pending_incoming" (number i.pending_incoming) (
              field "pending_outgoing" (number i.pending_outgoing) (
                field "established_incoming" (number i.established_incoming)
                  (field "established_outgoing" (number i.established_outgoing) no_field))))))))

-- What stands for a block that was saved to disk.
abbrev pub none_block : BlockResponse
none_block = record { file_hash = "None"; block_hash = "None"; block_data = [] }

abbrev pub ser_block : Option BlockResponse → Json
ser_block (some r) = ser_block_response r
ser_block none = ser_block_response none_block

module _ (t : Texts) where
  abbrev pub ser_peer_id : PeerId → Json
  ser_peer_id p = text (t.to_base58 p)

  abbrev pub ser_send_id : SendId → Json
  ser_send_id s = array (
      element (ser_peer_id s.peer_id)
        (element (text s.file_hash) (element (text s.block_hash) nil)))

  -- The two texts of ChangeAvailableSendStorage.
  abbrev pub storage_answer : StorageAnswer → String
  storage_answer (no_more_blocks size used) = push_str "New storage size is " (
      push_str (t.show_number size) (
        push_str " but already used size is "
          (push_str (t.show_number used) ", no more blocks will be accepted via send request")))
  storage_answer (remaining size used left) = push_str "New total storage space is " (
      push_str (t.show_number size) (
        push_str ", " (
          push_str (t.show_number used) (
            push_str " is already used so the remaining available size for send blocks is "
              (t.show_number left)))))

  -- `convert_ser`
  unfoldable pub convert_ser : Value → Json
  convert_ser Defs.nothing = text ""
  convert_ser (Defs.number n) = number n
  convert_ser (Defs.flag b) = boolean b
  convert_ser (Defs.storage_text a) = text (storage_answer a)
  convert_ser (Defs.strings ss) = array (elements text ss)
  convert_ser (Defs.addresses as_) = array (elements (λ a. text (t.address_text a)) as_)
  convert_ser (Defs.peers ps) = array (elements ser_peer_id ps)
  convert_ser (Defs.path p) = text (t.path_text p)
  convert_ser (Defs.info i) = ser_peer_block_info i
  convert_ser (Defs.block b) = ser_block b
  convert_ser (Defs.node p label) = pair (ser_peer_id p) (text label)
  convert_ser (Defs.network i) = ser_network_info i
  convert_ser (Defs.hashes f out) = pair (text f) (text out)
  convert_ser (Defs.distribution ids) = array (elements ser_send_id ids)
  convert_ser (Defs.sent b id) = pair (boolean b) (ser_send_id id)
