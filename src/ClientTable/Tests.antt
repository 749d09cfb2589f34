-- ===== src/ClientTable/Tests.antt =====
-- A table of two clients that is full, and a third one that drops the second.
use raft.Prelude.{
  true, inl, pos, length, ◌<◌, ◌^◌, ℕ, ◌≡◌, refl, false, none, some, [], ◌∷◌, NodeId, id_eq, arith,
  ◌⊎◌, inr,
}
use raft.ClientTable.Defs.{set_cap, ClientEntry, ClientTable, get, put, has, records, load_from}
use raft.ClientTable.Lru.{IsValid, put-IsValid, load_from-records, get-put}
use raft.ConfigEntry.Defs.{MembershipState, encode_membership, append_peer_list, encode_peers}
use raft.ClientTable.Codec.{
  encode_client_table, encode_records, write_snapshot_frame, read_snapshot_frame,
}
use raft.ClientTable.Frames.{read-write_snapshot_frame}
use raft.ClientTable.SetCap.{Shrunk, set_cap-Shrunk}
use raft.ClientTable.Others.{get-put_other}

abbrev client : ℕ → NodeId
client n = n ∷ []

abbrev answer : ClientEntry
answer = record { seq_num = 7; result = 1 ∷ [] }

abbrev table : ClientTable
table = record {
  items = record { id = client 1; entry = answer } ∷ record { id = client 2; entry = answer } ∷ [];
  cap = 2;
}

abbrev blank : ClientTable
blank = record { items = []; cap = 2 }

table-IsValid : IsValid table
unfolding has id_eq
table-IsValid = ((refl, (refl, tt)), inr (omega arith))

apart : id_eq (client 3) (client 2) ≡ false
unfolding id_eq
apart = refl

put-IsValid_example : IsValid (put (client 3) answer table).1
put-IsValid_example = put-IsValid (client 3) answer table table-IsValid

get-put_example : get (client 3) (put (client 3) answer table).1 ≡ some answer
get-put_example = get-put (client 3) answer table

get-put_other_example :
    (get (client 2) (put (client 3) answer table).1 ≡ get (client 2) table)
    ⊎ (((put (client 3) answer table).0 ≡ some (client 2))
        × (get (client 2) (put (client 3) answer table).1 ≡ none))
get-put_other_example = get-put_other (client 3) (client 2) answer table table-IsValid apart

load_from-records_example : load_from (records table) blank ≡ table
load_from-records_example = load_from-records table blank table-IsValid refl

set_cap-Shrunk_example :
    ((set_cap 1 table).1.cap ≡ 1)
    × Shrunk 1 table.items [] ((set_cap 1 table).1.items, (set_cap 1 table).0)
set_cap-Shrunk_example = set_cap-Shrunk 1 table

-- A frame with the table, a group of one voter, and the table's bound.
abbrev group : MembershipState
group = record {
  joint = false;
  members = record { id = client 1; voter = true; witness = false } ∷ [];
  old = [];
  new = [];
  commit_quorum = pos 0;
}

table_fits : length (encode_client_table table.items) < 2 ^ 32
unfolding encode_client_table encode_records
table_fits = omega arith

group_fits : length (encode_membership group) < 2 ^ 32
unfolding encode_membership append_peer_list encode_peers
group_fits = omega arith

read-write_snapshot_frame_example :
    read_snapshot_frame (write_snapshot_frame table.items group (some (pos 2)) (9 ∷ []))
    ≡ some (
      record { table = table.items; membership = some group; client_table_cap = some (pos 2) },
      9 ∷ [],
    )
read-write_snapshot_frame_example =
    read-write_snapshot_frame table.items group (some (pos 2)) (9 ∷ []) (omega arith)
      ((omega arith, omega arith, omega arith), ((omega arith, omega arith, omega arith), tt))
      table_fits (inl (refl, refl, refl, ((omega arith, tt), omega arith)), (0, refl, omega arith))
      group_fits (inr (2, refl, omega arith))
