-- ===== src/ClientTable/Frames.antt =====
-- The frame around a snapshot's data is read back with what was framed.
use raft.Prelude.{
  All, ℕ, ◌≤◌, ◌<◌, ◌^◌, ◌==◌, ◌≡◌, ◌⊎◌, inl, inr, refl, ◌∙◌, ℤ, pos, Option, none, some, List, [],
  ◌∷◌, ◌++◌, length, be64, length-append, if◌then◌else◌, le32, le64, read_le32-le32, read_le64-le64,
  read_bytes-append, arith, false, max_int, if_false,
}
use raft.ConfigEntry.Defs.{MembershipState, append_peer_list, encode_membership, to_u64, to_int}
use raft.ConfigEntry.RoundTrip.{Canonical, decode-encode_membership}
use raft.ClientTable.Defs.{ClientRecord}
use raft.ClientTable.Codec.{
  encode_client_table, magic_v3, limits_bytes, write_snapshot_frame, optional_length,
  read_membership, read_limits, read_sections, read_snapshot_frame,
}
use raft.ClientTable.RoundTrip.{FitsRecord, decode-encode_client_table}

-- A bound that an `int` holds, or none.
abbrev pub FitsCap : Option ℤ → Type 0
FitsCap cap = (cap ≡ none) ⊎ ((v : ℕ) × (cap ≡ some (pos v)) × (v ≤ max_int))

encode_membership-length : (ms : MembershipState) → (length (encode_membership ms) == 0) ≡ false
unfolding encode_membership
encode_membership-length ms =
    let body =
      if ms.joint
      then append_peer_list (append_peer_list (1 ∷ []) ms.old) ms.new
      else append_peer_list (0 ∷ []) ms.members in
    ground (arith, length-append body (be64 (to_u64 ms.commit_quorum)))

read-encode_membership :
    (ms : MembershipState) (rest : List ℕ)
    → Canonical ms
    → read_membership (length (encode_membership ms)) (encode_membership ms ++ rest)
      ≡ some (some ms, rest)
unfolding read_membership
read-encode_membership ms rest h =
    if_false (length (encode_membership ms) == 0) _ _ (encode_membership-length ms)
    ∙ rw (read_bytes-append (encode_membership ms) rest, decode-encode_membership ms h) refl

to_int-to_u64 : (v : ℕ) → v ≤ max_int → to_int (to_u64 (pos v)) ≡ some (pos v)
unfolding to_int to_u64
to_int-to_u64 v h = ground arith

to_u64-fits : (v : ℕ) → to_u64 (pos v) < 2 ^ 64
unfolding to_u64
to_u64-fits v = omega arith

limits_bytes-fits : (cap : Option ℤ) → length (limits_bytes cap) < 2 ^ 32
limits_bytes-fits none = omega arith
limits_bytes-fits (some cap) = omega arith

read-limits_bytes :
    (cap : Option ℤ) (rest : List ℕ)
    → FitsCap cap
    → read_limits (length (limits_bytes cap)) (limits_bytes cap ++ rest) ≡ some (cap, rest)
unfolding read_limits
read-limits_bytes cap rest (inl e) = rw e refl
read-limits_bytes cap rest (inr (v, e, h)) =
    let value = to_u64 (pos v) in
    rw
      (
        e,
        read_bytes-append (le64 value) rest,
        read_le64-le64 value [] (to_u64-fits v),
        to_int-to_u64 v h,
      )
      refl

-- A frame is read back with its table, its membership and its bound, and the data behind it, when the
-- lengths and numbers fit in their fields.
pub read-write_snapshot_frame :
    (table : List ClientRecord) (ms : MembershipState) (cap : Option ℤ) (sm_data : List ℕ)
    → length table < 2 ^ 32
    → All FitsRecord table
    → length (encode_client_table table) < 2 ^ 32
    → Canonical ms
    → length (encode_membership ms) < 2 ^ 32
    → FitsCap cap
    → read_snapshot_frame (write_snapshot_frame table ms cap sm_data)
      ≡ some (record { table = table; membership = some ms; client_table_cap = cap }, sm_data)
unfolding read_snapshot_frame write_snapshot_frame optional_length read_sections
read-write_snapshot_frame table ms cap sm_data count fits table_fits canonical ms_fits cap_fits =
    let limits = limits_bytes cap ++ sm_data in
    let memberships = encode_membership ms ++ limits in
    let tables = encode_client_table table ++ memberships in
    let third = le32 (length (limits_bytes cap)) ++ tables in
    let second = le32 (length (encode_membership ms)) ++ third in
    let first = le32 (length (encode_client_table table)) ++ second in
    rw
      (
        read_le64-le64 magic_v3 first (omega arith),
        read_le32-le32 (length (encode_client_table table)) second table_fits,
        read_le32-le32 (length (encode_membership ms)) third ms_fits,
        read_le32-le32 (length (limits_bytes cap)) tables (limits_bytes-fits cap),
        read_bytes-append (encode_client_table table) memberships,
        decode-encode_client_table table count fits,
        read-encode_membership ms limits canonical,
        read-limits_bytes cap sm_data cap_fits,
      )
      refl
