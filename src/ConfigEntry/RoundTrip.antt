-- ===== src/ConfigEntry/RoundTrip.antt =====
-- Every encoding of config_change.go is read back by its decoding.
use raft.Prelude.{
  ℕ, ◌^◌, ◌≤◌, ◌<◌, ◌≡◌, refl, ap, ◌∙◌, sym, true, false, pos, u64_mod, max_int, some, List, [],
  ◌∷◌, ◌++◌, length, All, be32, be64, word16, word32, word64, ◌⊎◌, inl, inr, ◌/◌, ◌%◌,
  read_bytes-append, arith,
}
use mathlib.Core.List.{append_assoc, append-nil}
use raft.Types.{PeerConfig}
use raft.ConfigEntry.Defs.{
  config_body, peer_flags, peer_roles, encode_config_entry, decode_config_entry, encode_peers,
  decode_peers, encode_joint_config_entry, decode_joint_config_entry, encode_finalise_config_entry,
  decode_finalise_config_entry, to_u64, encode_policy, decode_policy, MembershipState,
  encode_membership, with_commit_quorum, decode_membership,
}

-- The names fit in the 16 bits that carry their length, and the list in its 32 bits.
abbrev pub Fits : List PeerConfig → Type 0
Fits ps = All (λ p. length p.id < 2 ^ 16) ps × (length ps < 2 ^ 32)

decoded_peer :
    (p : PeerConfig)
    → ◌≡◌ {A = PeerConfig}
        (record {
          id = p.id;
          voter = (peer_roles (peer_flags p)).0;
          witness = (peer_roles (peer_flags p)).1;
        })
        p
unfolding peer_roles peer_flags
decoded_peer p = ground arith

-- A peer entry is read back with the roles and the name that it was written with.
pub decode-encode_config_entry :
    (op : ℕ) (p : PeerConfig) → decode_config_entry (encode_config_entry op p) ≡ some (op, p)
unfolding decode_config_entry encode_config_entry peer_flags
decode-encode_config_entry op p = ground arith

decode-encode_peers :
    (ps : List PeerConfig) (rest : List ℕ)
    → All (λ p. length p.id < 2 ^ 16) ps
    → decode_peers (length ps) (encode_peers ps ++ rest) ≡ some (ps, rest)
unfolding decode_peers encode_peers
decode-encode_peers [] rest h = refl
decode-encode_peers (p ∷ ps) rest h =
    let len : word16 (length p.id / 2 ^ 8 % 256) (length p.id % 256) ≡ length p.id =
      omega (arith, h.0) in
    rw
      (
        len,
        append_assoc p.id (encode_peers ps) rest,
        read_bytes-append p.id (encode_peers ps ++ rest),
        decode-encode_peers ps rest h.1,
      )
      (ap (λ q. some (q ∷ ps, rest)) (decoded_peer p))

decode-encode_peers_end :
    (ps : List PeerConfig)
    → All (λ p. length p.id < 2 ^ 16) ps
    → decode_peers (length ps) (encode_peers ps) ≡ some (ps, [])
decode-encode_peers_end ps h =
    ap (decode_peers (length ps)) (sym (append-nil (encode_peers ps))) ∙ decode-encode_peers ps [] h

word32_length :
    (n : ℕ)
    → n < 2 ^ 32
    → word32 (n / 2 ^ 24 % 256) (n / 2 ^ 16 % 256) (n / 2 ^ 8 % 256) (n % 256) ≡ n
word32_length n h = omega arith

word64_value :
    (n : ℕ)
    → n < 2 ^ 64
    → word64
        (n / 2 ^ 56 % 256)
        (n / 2 ^ 48 % 256)
        (n / 2 ^ 40 % 256)
        (n / 2 ^ 32 % 256)
        (n / 2 ^ 24 % 256)
        (n / 2 ^ 16 % 256)
        (n / 2 ^ 8 % 256)
        (n % 256)
      ≡ n
word64_value n h = omega arith

-- A finalise entry is read back as the membership that it was written with, within the same bounds.
pub decode-encode_finalise :
    (ps : List PeerConfig)
    → Fits ps
    → decode_finalise_config_entry (encode_finalise_config_entry ps) ≡ some ps
unfolding decode_finalise_config_entry encode_finalise_config_entry config_body
decode-encode_finalise ps h = rw (word32_length (length ps) h.1, decode-encode_peers_end ps h.0)

-- A joint entry is read back as the two memberships that it was written with, when each name has
-- fewer than 2^16 bytes and each list fewer than 2^32 members, as the lengths that are written.
pub decode-encode_joint :
    (old new : List PeerConfig)
    → Fits old
    → Fits new
    → decode_joint_config_entry (encode_joint_config_entry old new) ≡ some (old, new)
unfolding decode_joint_config_entry encode_joint_config_entry config_body
decode-encode_joint old new h k = rw (
  word32_length (length old) h.1,
  decode-encode_peers old (be32 (length new) ++ encode_peers new) h.0,
  word32_length (length new) k.1,
  decode-encode_peers_end new k.0,
)

-- A policy up to the largest `int` is read back, from an entry of its own kind.
pub decode-encode_policy :
    (op v : ℕ) → v ≤ max_int → decode_policy op (encode_policy op (pos v)) ≡ some (pos v)
unfolding decode_policy encode_policy config_body
decode-encode_policy op v h = ground (arith, word64_value v, word64_value (v % u64_mod))

-- What a snapshot's membership carries, in the form that `encodeMembership` writes: no member lists
-- but those of its kind, and a commit quorum that is no negative number.
abbrev pub Canonical : MembershipState → Type 0
Canonical ms =
    ((ms.joint ≡ false) × (ms.old ≡ []) × (ms.new ≡ []) × Fits ms.members
      ⊎ (ms.joint ≡ true) × (ms.members ≡ []) × Fits ms.old × Fits ms.new)
    × ((q : ℕ) × (ms.commit_quorum ≡ pos q) × (q ≤ max_int))

with_commit_quorum-be64 :
    (ms : MembershipState) (q : ℕ)
    → q ≤ max_int
    → with_commit_quorum ms (be64 (to_u64 (pos q))) ≡ some (record ms { commit_quorum = pos q })
unfolding with_commit_quorum to_u64
with_commit_quorum-be64 ms q h = ground (arith, word64_value q, word64_value (q % u64_mod))

simple_round_trip :
    (members : List PeerConfig) (q : ℕ) (ms : MembershipState)
    → ms ≡ record { joint = false; members = members; old = []; new = []; commit_quorum = pos q }
    → Fits members
    → q ≤ max_int
    → decode_membership (encode_membership ms) ≡ some ms
unfolding decode_membership encode_membership
simple_round_trip members q ms e h k = rw e (
    rw (word32_length (length members) h.1, decode-encode_peers members (be64 (to_u64 (pos q))) h.0)
      (with_commit_quorum-be64
        (record { joint = false; members = members; old = []; new = []; commit_quorum = pos 0 }) q
        k))

joint_round_trip :
    (old new : List PeerConfig) (q : ℕ) (ms : MembershipState)
    → ms ≡ record { joint = true; members = []; old = old; new = new; commit_quorum = pos q }
    → Fits old
    → Fits new
    → q ≤ max_int
    → decode_membership (encode_membership ms) ≡ some ms
unfolding decode_membership encode_membership
joint_round_trip old new q ms e h k l = rw e (
    rw
      (
        append_assoc (encode_peers old) (be32 (length new) ++ encode_peers new)
            (be64 (to_u64 (pos q))),
        word32_length (length old) h.1,
        decode-encode_peers old (be32 (length new) ++ (encode_peers new ++ be64 (to_u64 (pos q))))
            h.0,
        word32_length (length new) k.1,
        decode-encode_peers new (be64 (to_u64 (pos q))) k.0,
      )
      (with_commit_quorum-be64
        (record { joint = true; members = []; old = old; new = new; commit_quorum = pos 0 }) q l))

-- The membership in a snapshot, simple or joint, is read back whole, its commit quorum included, when
-- its names have fewer than 2^16 bytes and its lists fewer than 2^32 members, the commit quorum lies
-- between 0 and the largest int, and a simple one has no lists but its members, and a joint one none
-- but the old and the new.
pub decode-encode_membership :
    (ms : MembershipState) → Canonical ms → decode_membership (encode_membership ms) ≡ some ms
decode-encode_membership ms (inl (j, o, n, f), (q, e, b)) =
    simple_round_trip ms.members q ms (cc) f b
decode-encode_membership ms (inr (j, m, f, g), (q, e, b)) =
    joint_round_trip ms.old ms.new q ms (cc) f g b
