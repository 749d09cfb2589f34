-- ===== src/ConfigEntry/Defs.antt =====
-- config_change.go: the log entries by which the group changes its membership and its policies, and
-- the membership that a snapshot carries. A failed decoding is `none`.
use raft.Prelude.{
  ℕ, ◌+◌, ◌-◌, ◌/◌, ◌%◌, zero, suc, ltb, ◌==◌, ◌&&◌, if◌then◌else◌, Bool, true, false, ℤ, pos,
  negsuc, u64_mod, max_int, Option, none, some, List, [], ◌∷◌, ◌++◌, length, be16, be32, be64,
  read16, read32, read64, read_bytes, ◌>>=◌,
}
use raft.Types.{PeerConfig}

-- The opcodes: `configOpAdd` to `configOpCommitQuorum`.
abbrev pub op_add : ℕ
op_add = 1

abbrev pub op_remove : ℕ
op_remove = 2

abbrev pub op_joint : ℕ
op_joint = 3

abbrev pub op_finalise : ℕ
op_finalise = 4

abbrev pub op_client_table_cap : ℕ
op_client_table_cap = 5

abbrev pub op_commit_quorum : ℕ
op_commit_quorum = 6

-- `configMagic`, and a command that begins with it.
abbrev pub config_magic : List ℕ → List ℕ
config_magic rest = 0x00 ∷ 0x52 ∷ 0x61 ∷ 0x43 ∷ rest

-- What follows the magic of a config entry; `isConfigEntry` asks whether there is such.
unfoldable pub config_body : List ℕ → Option (ℕ × List ℕ)
config_body (a ∷ b ∷ c ∷ d ∷ op ∷ rest) =
    if a == 0x00 && b == 0x52 && c == 0x61 && d == 0x43 then some (op, rest) else none
config_body _ = none

-- `isConfigEntry`
unfoldable pub is_config_entry : List ℕ → Bool
unfolding config_body
is_config_entry cmd = elim (config_body cmd) [ none ↦ false | some body ↦ true ]

-- `peerFlags` and `peerRoles`
unfoldable pub peer_flags : PeerConfig → ℕ
peer_flags p = (if p.voter then 1 else 0) + (if p.witness then 2 else 0)

unfoldable pub peer_roles : ℕ → Bool × Bool
peer_roles b = (b % 2 == 1, b / 2 % 2 == 1)

-- `encodeConfigEntry`
unfoldable pub encode_config_entry : ℕ → PeerConfig → List ℕ
unfolding peer_flags
encode_config_entry op peer = config_magic (op ∷ peer_flags peer ∷ peer.id)

-- `decodeConfigEntry`
unfoldable pub decode_config_entry : List ℕ → Option (ℕ × PeerConfig)
unfolding config_body peer_roles
decode_config_entry cmd = do
  (op, body) ← config_body cmd
  elim body [
    | [] ↦ none
    | flags ∷ id ↦
        some (op, record { id = id; voter = (peer_roles flags).0; witness = (peer_roles flags).1 })
  ]

-- The peers of `appendPeerList`, without the count in front of them.
unfoldable pub encode_peers : List PeerConfig → List ℕ
unfolding peer_flags
encode_peers [] = []
encode_peers (p ∷ ps) = be16 (length p.id) ++ (peer_flags p ∷ p.id ++ encode_peers ps)

-- `appendPeerList`
unfoldable pub append_peer_list : List ℕ → List PeerConfig → List ℕ
unfolding encode_peers
append_peer_list b list = b ++ (be32 (length list) ++ encode_peers list)

-- The loop of `decodePeerList`, over the number of peers that are left.
unfoldable pub decode_peers : ℕ → List ℕ → Option (List PeerConfig × List ℕ)
unfolding peer_roles
decode_peers zero buf = some ([], buf)
decode_peers (suc n) buf = do
  (id_len, flagged) ← read16 buf
  elim flagged [
    | [] ↦ none
    | flags ∷ named ↦ read_bytes id_len named >>= λ read. decode_peers n read.1 >>= λ rest. some (
      record { id = read.0; voter = (peer_roles flags).0; witness = (peer_roles flags).1 } ∷ rest.0,
      rest.1,
    )
  ]

-- `decodePeerList`
unfoldable pub decode_peer_list : List ℕ → Option (List PeerConfig × List ℕ)
unfolding decode_peers
decode_peer_list buf = do (n, rest) ← read32 buf; decode_peers n rest

-- `encodeJointConfigEntry` and `decodeJointConfigEntry`
unfoldable pub encode_joint_config_entry : List PeerConfig → List PeerConfig → List ℕ
unfolding append_peer_list
encode_joint_config_entry old new =
    append_peer_list (append_peer_list (config_magic (op_joint ∷ [])) old) new

unfoldable pub decode_joint_config_entry : List ℕ → Option (List PeerConfig × List PeerConfig)
unfolding config_body decode_peer_list
decode_joint_config_entry cmd = do
  (op, body) ← config_body cmd
  if op == op_joint
      then (do
        (old, rest) ← decode_peer_list body
        (new, _) ← decode_peer_list rest
        some (old, new))
      else none

-- `encodeFinaliseConfigEntry` and `decodeFinaliseConfigEntry`
unfoldable pub encode_finalise_config_entry : List PeerConfig → List ℕ
unfolding append_peer_list
encode_finalise_config_entry members = append_peer_list (config_magic (op_finalise ∷ [])) members

unfoldable pub decode_finalise_config_entry : List ℕ → Option (List PeerConfig)
unfolding config_body decode_peer_list
decode_finalise_config_entry cmd = do
  (op, body) ← config_body cmd
  if op == op_finalise then (do (members, _) ← decode_peer_list body; some members) else none

-- `uint64` of an `int`, in two's complement.
unfoldable pub to_u64 : ℤ → ℕ
to_u64 (pos n) = n % u64_mod
to_u64 (negsuc n) = (u64_mod - 1 - n % u64_mod) % u64_mod

-- A `uint64` that must be an `int`.
unfoldable pub to_int : ℕ → Option ℤ
to_int v = if ltb max_int v then none else some (pos v)

-- A policy entry: an opcode and 64 bits. `encodeCommitQuorumEntry` and `encodeClientTableCapEntry`
-- differ in the opcode, and so do the functions that decode them.
unfoldable pub encode_policy : ℕ → ℤ → List ℕ
unfolding to_u64
encode_policy op value = config_magic (op ∷ be64 (to_u64 value))

unfoldable pub decode_policy : ℕ → List ℕ → Option ℤ
unfolding config_body to_int
decode_policy op cmd = do
  (found, body) ← config_body cmd
  if found == op then (do (v, _) ← read64 body; to_int v) else none

unfoldable pub encode_commit_quorum_entry : ℤ → List ℕ
unfolding encode_policy
encode_commit_quorum_entry = encode_policy op_commit_quorum

unfoldable pub decode_commit_quorum_entry : List ℕ → Option ℤ
unfolding decode_policy
decode_commit_quorum_entry = decode_policy op_commit_quorum

unfoldable pub encode_client_table_cap_entry : ℤ → List ℕ
unfolding encode_policy
encode_client_table_cap_entry = encode_policy op_client_table_cap

unfoldable pub decode_client_table_cap_entry : List ℕ → Option ℤ
unfolding decode_policy
decode_client_table_cap_entry = decode_policy op_client_table_cap

-- `membershipState`
pub record MembershipState : Type 0 where
  pub joint : Bool
  pub members : List PeerConfig
  pub old : List PeerConfig
  pub new : List PeerConfig
  pub commit_quorum : ℤ

-- `encodeMembership`
unfoldable pub encode_membership : MembershipState → List ℕ
unfolding append_peer_list to_u64
encode_membership ms =
    (if ms.joint
      then append_peer_list (append_peer_list (1 ∷ []) ms.old) ms.new
      else append_peer_list (0 ∷ []) ms.members)
    ++ be64 (to_u64 ms.commit_quorum)

-- The trailing commit quorum of `decodeMembership`: absent, it is 0.
unfoldable pub with_commit_quorum : MembershipState → List ℕ → Option MembershipState
unfolding to_int
with_commit_quorum ms rest = elim (read64 rest) [
  | none ↦ some ms
  | some (v, _) ↦ to_int v >>= λ q. some (record ms { commit_quorum = q })
]

-- `decodeMembership`
unfoldable pub decode_membership : List ℕ → Option MembershipState
unfolding decode_peer_list with_commit_quorum
decode_membership [] = none
decode_membership (kind ∷ buf) =
    if kind == 0
    then (do
      (members, rest) ← decode_peer_list buf
      with_commit_quorum
          (record { joint = false; members = members; old = []; new = []; commit_quorum = pos 0 })
          rest)
    else if kind == 1
    then (do
      (old, between) ← decode_peer_list buf
      (new, rest) ← decode_peer_list between
      with_commit_quorum
          (record { joint = true; members = []; old = old; new = new; commit_quorum = pos 0 }) rest)
    else none
