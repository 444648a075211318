-- ===== src/Download/Tests.antt =====
-- A file of two blocks, listed by two peers.
use dragoonfly.Base.{
  Listed, ◌++◌, ℕ, ◌≤◌, ◌≡◌, ◌≢◌, refl, String, true, none, some, List, [], ◌∷◌, map, length, arith,
  string_eq, ◌==◌, subst, ◌⊎◌, Bool-cases, inl, inr,
}
use dragoonfly.Base.Sets.{contains}
use dragoonfly.SendList.Vectors.{count}
use dragoonfly.Download.Loop.{
  Codec, Received, info, block, Download, start, downloads, waits, download_first_k_blocks,
}
use dragoonfly.Download.Enough.{download-ne-waits}
use dragoonfly.Download.Requests.{sent, download-asks_once}
use dragoonfly.Base.Result.{ok, err}
use dragoonfly.Paths.{push, get_block_dir, get_file_dir}
use dragoonfly.Network.Defs.{NodeError, created_dir, wrote}
use dragoonfly.Network.Outside.{Outside}
use dragoonfly.Network.Files.{decode_blocks}
use dragoonfly.Network.Tests.{calm}
use dragoonfly.Download.GetFile.{Replies, get_file}
use dragoonfly.Download.Output.{Decodes, get_file-output}
use dragoonfly.Download.Verified.{IsVerified, get_file-IsVerified}

-- Other crates that take every answer for a correct block of a file of two.
abbrev two_needed : Codec
two_needed = record {
  Block = List ℕ;
  deserialize = λ bytes. some bytes;
  k = λ b. 2;
  verify = λ b. some true;
  dump = λ b. some tt;
  from_base_58 = λ id. some 1;
}

abbrev listed : Received
listed = info (
    some (record {
      peer_id_base_58 = "peer";
      file_hash = "f";
      block_hashes = "a" ∷ "b" ∷ [];
      block_sizes = none;
    }))

abbrev answered : String → Received
answered h = block (some (some (record { block_hash = h; block_data = [] })))

abbrev received : List Received
received = listed ∷ listed ∷ answered "a" ∷ answered "b" ∷ []

abbrev done : Download
done = record {
  already_request_block = "a" ∷ "b" ∷ [];
  requests = (1, "a") ∷ (1, "b") ∷ [];
  number_of_blocks_written = 2;
  block_hashes_on_disk = "a" ∷ "b" ∷ [];
}

run : download_first_k_blocks two_needed true received start ≡ downloads done
unfolding download_first_k_blocks contains
run = refl

download-ne-waits_example : download_first_k_blocks two_needed true received start ≢ waits start
download-ne-waits_example =
    download-ne-waits two_needed 2 (λ b. refl) (omega arith) (omega arith) true received start
      (omega arith)

distinct : (h : String) → count h ("a" ∷ "b" ∷ []) ≤ 1
distinct h = elim (Bool-cases ("a" == h)) [
  | inl e ↦ subst (λ x. count x ("a" ∷ "b" ∷ []) ≤ 1) ((string_eq.eq_iff "a" h).0 e) (omega arith)
  | inr e ↦ ground arith
]

download-asks_once_example :
    count "a"
      (map (λ r. r.1) (sent two_needed (download_first_k_blocks two_needed true received start)))
    ≤ 1
download-asks_once_example =
    download-asks_once two_needed true received "a" (distinct, (distinct, (tt, (tt, tt))))

-- A node that has everything, below `files`.
abbrev below_files : Outside
below_files = record calm { parent = λ p. some (get_file_dir ("files" ∷ []) "f") }

abbrev replies : Replies
replies = record {
  sends_providers = true;
  providers = some (ok (1 ∷ []));
  sends_block_dir = true;
  block_dir = some (ok (get_block_dir ("files" ∷ []) "f"));
  sends_file_dir = true;
  file_dir = some (ok (get_file_dir ("files" ∷ []) "f"));
  sends_info = λ p. true;
  powers = true;
}

got_file :
    (get_file below_files two_needed true received replies "f" "out").0
    ≡ some (ok ("files" ∷ "f" ∷ "out" ∷ []))
unfolding get_file download_first_k_blocks contains get_file_dir
got_file = refl

get_file-output_example :
    (l : Download) × (download_first_k_blocks two_needed true received start ≡ downloads l)
    × (((bytes : List ℕ) × Decodes below_files
            (get_block_dir ("files" ∷ []) "f")
            l.block_hashes_on_disk
            bytes
          × ((get_file below_files two_needed true received replies "f" "out").1.actions
              ≡ wrote ("files" ∷ "f" ∷ "out" ∷ []) bytes
                ∷ created_dir (get_block_dir ("files" ∷ []) "f")
                ∷ []))
        ⊎ ((x : NodeError) × ((decode_blocks below_files
                (get_block_dir ("files" ∷ []) "f")
                l.block_hashes_on_disk
                "out").0
              ≡ err x)))
get_file-output_example =
    get_file-output below_files two_needed true received replies ("files" ∷ []) "f" "out"
      ("files" ∷ "f" ∷ "out" ∷ []) refl refl refl got_file

get_file-IsVerified_example :
    (hashes : List String) × ("files" ∷ "f" ∷ "out" ∷ []
      ≡ push (get_file_dir ("files" ∷ []) "f") "out")
    × ((get_file below_files two_needed true received replies "f" "out").1.actions
        ≡ (decode_blocks below_files (get_block_dir ("files" ∷ []) "f") hashes "out").1
          ++ created_dir (get_block_dir ("files" ∷ []) "f") ∷ [])
    × (length hashes ≡ 2)
    × ((h : String) → Listed hashes h → IsVerified two_needed received h)
get_file-IsVerified_example =
    get_file-IsVerified below_files two_needed 2 true received replies
      (get_block_dir ("files" ∷ []) "f") (get_file_dir ("files" ∷ []) "f") "f" "out"
      ("files" ∷ "f" ∷ "out" ∷ []) (λ b. refl) (omega arith) (omega arith) refl refl got_file
