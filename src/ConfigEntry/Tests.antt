-- ===== src/ConfigEntry/Tests.antt =====
-- Concrete memberships for the round trips of config_change.go.
use raft.Prelude.{◌≡◌, refl, true, false, inr, pos, some, List, [], ◌∷◌, arith}
use raft.Types.{PeerConfig}
use raft.ConfigEntry.Defs.{
  encode_joint_config_entry, decode_joint_config_entry, MembershipState, encode_membership,
  decode_membership,
}
use raft.ConfigEntry.RoundTrip.{Fits, Canonical, decode-encode_joint, decode-encode_membership}

abbrev voter : PeerConfig
voter = record { id = 98 ∷ 50 ∷ []; voter = true; witness = false }

abbrev witness : PeerConfig
witness = record { id = 99 ∷ []; voter = true; witness = true }

abbrev old_members : List PeerConfig
old_members = voter ∷ witness ∷ []

abbrev new_members : List PeerConfig
new_members = voter ∷ []

old-Fits : Fits old_members
old-Fits = ((omega arith, (omega arith, tt)), omega arith)

new-Fits : Fits new_members
new-Fits = ((omega arith, tt), omega arith)

decode-encode_joint_example :
    decode_joint_config_entry (encode_joint_config_entry old_members new_members)
    ≡ some (old_members, new_members)
decode-encode_joint_example = decode-encode_joint old_members new_members old-Fits new-Fits

abbrev joint : MembershipState
joint = record {
  joint = true;
  members = [];
  old = old_members;
  new = new_members;
  commit_quorum = pos 2;
}

joint-Canonical : Canonical joint
joint-Canonical = (inr (refl, refl, old-Fits, new-Fits), (2, refl, omega arith))

decode-encode_membership_example : decode_membership (encode_membership joint) ≡ some joint
decode-encode_membership_example = decode-encode_membership joint joint-Canonical
