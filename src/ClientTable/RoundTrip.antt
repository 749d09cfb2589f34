-- ===== src/ClientTable/RoundTrip.antt =====
-- The codecs of client_dedup.go read back what they wrote.
use raft.Prelude.{
  All, ℕ, ◌<◌, ◌^◌, ◌≡◌, refl, some, List, [], ◌∷◌, ◌++◌, length, NodeId, le32, le64,
  read_le16-le16, read_le32-le32, read_le64-le64, read_bytes-append, true,
}
use raft.ClientTable.Defs.{ClientRecord}
use raft.ClientTable.Codec.{
  dedup_body, is_dedup_cmd, encode_dedup_cmd, decode_dedup_cmd, encode_records, encode_client_table,
  decode_records, decode_client_table,
}

-- A command that is proposed once is recognised, and read back as the client, the number and the
-- payload that it was written with, when the name's length and the number fit in their fields.
pub decode-encode_dedup_cmd :
    (client_id : NodeId) (seq_num : ℕ) (payload : List ℕ)
    → length client_id < 2 ^ 16
    → seq_num < 2 ^ 64
    → (is_dedup_cmd (encode_dedup_cmd client_id seq_num payload) ≡ true)
      × (decode_dedup_cmd (encode_dedup_cmd client_id seq_num payload)
          ≡ some (client_id, seq_num, payload))
unfolding is_dedup_cmd dedup_body encode_dedup_cmd decode_dedup_cmd
decode-encode_dedup_cmd client_id seq_num payload h k = (
  refl,
  rw
      (
        read_le16-le16 (length client_id) (client_id ++ (le64 seq_num ++ payload)) h,
        read_bytes-append client_id (le64 seq_num ++ payload),
        read_le64-le64 seq_num payload k,
      )
      refl,
)

-- A record whose lengths and number fit in their fields.
abbrev pub FitsRecord : ClientRecord → Type 0
FitsRecord r =
    (length r.id < 2 ^ 16) × (r.entry.seq_num < 2 ^ 64) × (length r.entry.result < 2 ^ 32)

decode-encode_records :
    (rs : List ClientRecord)
    → All FitsRecord rs
    → decode_records (length rs) (encode_records rs) ≡ some rs
unfolding decode_records encode_records
decode-encode_records [] h = refl
decode-encode_records (r ∷ rs) h =
    let rest = encode_records rs in
    let resulted = r.entry.result ++ rest in
    let sized = le32 (length r.entry.result) ++ resulted in
    let numbered = le64 r.entry.seq_num ++ sized in
    rw
      (
        read_le16-le16 (length r.id) (r.id ++ numbered) h.0.0,
        read_bytes-append r.id numbered,
        read_le64-le64 r.entry.seq_num sized h.0.1,
        read_le32-le32 (length r.entry.result) resulted h.0.2,
        read_bytes-append r.entry.result rest,
        decode-encode_records rs h.1,
      )
      refl

-- A table in a snapshot is read back in its order, when the lengths and numbers fit in their fields.
pub decode-encode_client_table :
    (rs : List ClientRecord)
    → length rs < 2 ^ 32
    → All FitsRecord rs
    → decode_client_table (encode_client_table rs) ≡ some rs
unfolding decode_client_table encode_client_table
decode-encode_client_table rs h k =
    rw (read_le32-le32 (length rs) (encode_records rs) h, decode-encode_records rs k) refl
