-- ===== src/ClientTable/Codec.antt =====
-- client_dedup.go: the bytes of a command that is proposed once, of the table in a snapshot, and of the
-- frame around a snapshot's data. A failed decoding is `none`; which read failed is not modelled.
use raft.Prelude.{
  ℕ, zero, suc, ◌==◌, not, ◌&&◌, ◌||◌, if◌then◌else◌, Bool, true, false, ℤ, Option, none, some,
  List, [], ◌∷◌, ◌++◌, length, NodeId, le16, le32, le64, read_le16, read_le32, read_le64,
  read_bytes, ◌>>=◌,
}
use raft.ConfigEntry.Defs.{MembershipState, encode_membership, decode_membership, to_u64, to_int}
use raft.ClientTable.Defs.{ClientRecord}

-- `dedupMagic`
abbrev pub dedup_magic : List ℕ → List ℕ
dedup_magic rest = 0x00 ∷ 0x52 ∷ 0x61 ∷ 0x44 ∷ rest

-- What follows the magic of a command; `isDedupCmd` asks whether there is such.
unfoldable pub dedup_body : List ℕ → Option (List ℕ)
dedup_body (a ∷ b ∷ c ∷ d ∷ rest) =
    if a == 0x00 && b == 0x52 && c == 0x61 && d == 0x44 then some rest else none
dedup_body _ = none

-- `isDedupCmd`
unfoldable pub is_dedup_cmd : List ℕ → Bool
unfolding dedup_body
is_dedup_cmd cmd = elim (dedup_body cmd) [ none ↦ false | some body ↦ true ]

-- `encodeDedupCmd`
unfoldable pub encode_dedup_cmd : NodeId → (seq_num : ℕ) → List ℕ → List ℕ
encode_dedup_cmd client_id seq_num payload =
    dedup_magic (le16 (length client_id) ++ (client_id ++ (le64 seq_num ++ payload)))

-- `decodeDedupCmd`, which skips the magic: the client, its number, and the payload.
unfoldable pub decode_dedup_cmd : List ℕ → Option (NodeId × ℕ × List ℕ)
decode_dedup_cmd (_ ∷ _ ∷ _ ∷ _ ∷ buf) = do
  (id_len, named) ← read_le16 buf
  (client_id, numbered) ← read_bytes id_len named
  (seq_num, payload) ← read_le64 numbered
  some (client_id, seq_num, payload)
decode_dedup_cmd _ = none

-- The records of `encodeClientTable`, without their number in front of them.
unfoldable pub encode_records : List ClientRecord → List ℕ
encode_records [] = []
encode_records (r ∷ rs) =
    le16 (length r.id)
    ++ (r.id
        ++ (le64 r.entry.seq_num
            ++ (le32 (length r.entry.result) ++ (r.entry.result ++ encode_records rs))))

-- `encodeClientTable`
unfoldable pub encode_client_table : List ClientRecord → List ℕ
unfolding encode_records
encode_client_table table = le32 (length table) ++ encode_records table

-- The loop of `decodeClientTable`, over the number of records that are left.
unfoldable pub decode_records : ℕ → List ℕ → Option (List ClientRecord)
decode_records zero buf = some []
decode_records (suc n) buf = do
  (id_len, named) ← read_le16 buf
  (id, numbered) ← read_bytes id_len named
  (seq_num, sized) ← read_le64 numbered
  (res_len, resulted) ← read_le32 sized
  (result, rest) ← read_bytes res_len resulted
  records ← decode_records n rest
  some (record { id = id; entry = record { seq_num = seq_num; result = result } } ∷ records)

-- `decodeClientTable`
unfoldable pub decode_client_table : List ℕ → Option (List ClientRecord)
unfolding decode_records
decode_client_table buf = do (n, rest) ← read_le32 buf; decode_records n rest

-- `snapshotFrame`; without a section the membership, or the bound, is `none`.
pub record SnapshotFrame : Type 0 where
  pub table : List ClientRecord
  pub membership : Option MembershipState
  pub client_table_cap : Option ℤ

-- `snapFrameMagicV1` to `snapFrameMagicV3`
abbrev pub magic_v1 : ℕ
magic_v1 = 0xCAFEDEADBEEFD00D

abbrev pub magic_v2 : ℕ
magic_v2 = 0xCAFEDEADBEEFD00E

abbrev pub magic_v3 : ℕ
magic_v3 = 0xCAFEDEADBEEFD00F

abbrev pub limits_bytes : Option ℤ → List ℕ
limits_bytes none = []
limits_bytes (some cap) = le64 (to_u64 cap)

-- `writeSnapshotFrame` for a writer that takes everything: a membership is always written.
unfoldable pub write_snapshot_frame :
    List ClientRecord → MembershipState → Option ℤ → List ℕ → List ℕ
unfolding encode_client_table encode_membership to_u64
write_snapshot_frame table membership cap sm_data =
    let table_bytes = encode_client_table table in
    let membership_bytes = encode_membership membership in
    le64 magic_v3
    ++ (le32 (length table_bytes)
        ++ (le32 (length membership_bytes)
            ++ (le32 (length (limits_bytes cap))
                ++ (table_bytes ++ (membership_bytes ++ (limits_bytes cap ++ sm_data))))))

-- A number that a later layout of the header has, and an earlier one does not.
unfoldable pub optional_length : Bool → List ℕ → Option (ℕ × List ℕ)
optional_length present buf = if present then read_le32 buf else some (0, buf)

-- The sections behind the header.
unfoldable pub read_membership : ℕ → List ℕ → Option (Option MembershipState × List ℕ)
unfolding decode_membership
read_membership len buf = if len == 0 then some (none, buf) else (do
  (bytes, rest) ← read_bytes len buf
  membership ← decode_membership bytes
  some (some membership, rest))

unfoldable pub read_limits : ℕ → List ℕ → Option (Option ℤ × List ℕ)
unfolding to_int
read_limits len buf = if len == 0 then some (none, buf) else (do
  (bytes, rest) ← read_bytes len buf
  (v, _) ← read_le64 bytes
  cap ← to_int v
  some (some cap, rest))

unfoldable pub read_sections :
    (table_len membership_len limits_len : ℕ) → List ℕ → Option (SnapshotFrame × List ℕ)
unfolding decode_client_table read_membership read_limits
read_sections table_len membership_len limits_len buf = do
  (table_bytes, after_table) ← read_bytes table_len buf
  table ← decode_client_table table_bytes
  (membership, after_membership) ← read_membership membership_len after_table
  (cap, sm_data) ← read_limits limits_len after_membership
  some (record { table = table; membership = membership; client_table_cap = cap }, sm_data)

-- `readSnapshotFrame`: the frame and the state machine's data. What another producer wrote is all
-- data of the state machine.
unfoldable pub read_snapshot_frame : List ℕ → Option (SnapshotFrame × List ℕ)
unfolding optional_length read_sections
read_snapshot_frame buf = do
  (magic, sized) ← read_le64 buf
  (table_len, rest) ← read_le32 sized
  if not (magic == magic_v1 || magic == magic_v2 || magic == magic_v3)
      then some (record { table = []; membership = none; client_table_cap = none }, buf)
      else (do
        (membership_len, rest) ← optional_length (magic == magic_v2 || magic == magic_v3) rest
        (limits_len, rest) ← optional_length (magic == magic_v3) rest
        read_sections table_len membership_len limits_len rest)
