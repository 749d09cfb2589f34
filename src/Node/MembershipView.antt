-- ===== src/Node/MembershipView.antt =====
-- The membership that `currentMembership` writes into a snapshot and `restoreMembership` takes from it.
use raft.Prelude.{
  ◌&&◌, Bool, true, false, ◌≡◌, refl, ap, ◌∙◌, Option, none, some, List, [], ◌∷◌, NodeId,
  id_eq_refl, arith,
}
use raft.Types.{PeerConfig}
use raft.ConfigEntry.Defs.{MembershipState}
use raft.Node.State.{Node}
use raft.Node.Follower.{with_self, is_peer}
use raft.Node.Membership.{
  others, self_votes, split_self, note_witness, peer_union, current_membership, restore_simple,
  restore_joint, restore_membership,
}

-- The membership that a node counts by.
pub record View : Type 0 where
  pub peers : List PeerConfig
  pub voter : Bool
  pub joint_old : Option (List PeerConfig)
  pub joint_new : List PeerConfig
  pub joint_include_self : Bool
  pub joint_self_voter_old : Bool
  pub joint_self_voter : Bool

abbrev pub view : Node → View
view n = record {
  peers = n.cfg.peers;
  voter = n.cfg.voter;
  joint_old = n.joint_old;
  joint_new = n.joint_new;
  joint_include_self = n.joint_include_self;
  joint_self_voter_old = n.joint_self_voter_old;
  joint_self_voter = n.joint_self_voter;
}

-- No list of peers names the node itself. Outside a change there is nothing of one; during it the
-- node has its old role, counts the peers of both memberships, and votes in the new one only as a
-- member of it.
abbrev pub Settled : View → NodeId → Option (List PeerConfig) → Type 0
Settled v self none =
    (is_peer self v.peers ≡ false)
    × (v.joint_old ≡ none)
    × (v.joint_new ≡ [])
    × (v.joint_include_self ≡ false)
    × (v.joint_self_voter_old ≡ false)
    × (v.joint_self_voter ≡ false)
Settled v self (some old) =
    (is_peer self old ≡ false)
    × (is_peer self v.joint_new ≡ false)
    × (v.joint_old ≡ some old)
    × (v.voter ≡ v.joint_self_voter_old)
    × (v.peers ≡ peer_union old v.joint_new self)
    × (v.joint_include_self ≡ false → v.joint_self_voter ≡ false)

others-absent :
    (ps : List PeerConfig) (self : NodeId) → is_peer self ps ≡ false → others ps self ≡ ps
unfolding others is_peer
others-absent [] self h = refl
others-absent (p ∷ ps) self h = ground (arith, h, others-absent ps self)

self_votes-absent :
    (ps : List PeerConfig) (self : NodeId) (v : Bool)
    → is_peer self ps ≡ false
    → self_votes ps self v ≡ v
unfolding self_votes is_peer
self_votes-absent [] self v h = refl
self_votes-absent (p ∷ ps) self v h = ground (arith, h, self_votes-absent ps self v)

-- The node, put among its peers, is found there again with its role.
split_self-with_self :
    (ps : List PeerConfig) (self : NodeId) (present voter witness : Bool)
    → is_peer self ps ≡ false
    → (present ≡ false → voter ≡ false)
    → split_self (with_self ps self present voter witness) self ≡ (ps, present, voter)
unfolding split_self with_self others self_votes is_peer
split_self-with_self ps self true voter witness h k =
    ground (arith, id_eq_refl self, others-absent ps self h, self_votes-absent ps self voter h)
split_self-with_self ps self false voter witness h k =
    ground (arith, others-absent ps self h, self_votes-absent ps self false h, h, k refl)

note_witness-view : (ms : List PeerConfig) (n : Node) → view (note_witness ms n) ≡ view n
unfolding note_witness
note_witness-view ms n = ground arith

-- What a membership restores, in the order of its lists: from its members, or from both lists.
abbrev simple_view : List PeerConfig × Bool × Bool → View
simple_view split = record {
  peers = split.0;
  voter = split.1 && split.2;
  joint_old = none;
  joint_new = [];
  joint_include_self = false;
  joint_self_voter_old = false;
  joint_self_voter = false;
}

abbrev joint_view : NodeId → List PeerConfig × Bool × Bool → List PeerConfig × Bool × Bool → View
joint_view self old new = record {
  peers = peer_union old.0 new.0 self;
  voter = old.2;
  joint_old = some old.0;
  joint_new = new.0;
  joint_include_self = new.1;
  joint_self_voter_old = old.2;
  joint_self_voter = new.2;
}

restore_simple-view :
    (ms : MembershipState) (m : Node)
    → view (restore_simple ms m) ≡ simple_view (split_self ms.members m.cfg.id)
unfolding restore_simple
restore_simple-view ms m = refl

restore_joint-view :
    (ms : MembershipState) (m : Node)
    → view (restore_joint ms m)
      ≡ joint_view m.cfg.id (split_self ms.old m.cfg.id) (split_self ms.new m.cfg.id)
unfolding restore_joint
restore_joint-view ms m = refl

-- What `currentMembership` writes, outside a change and during one.
abbrev simple_state : Node → MembershipState
simple_state n = record {
  joint = false;
  members = with_self n.cfg.peers n.cfg.id true n.cfg.voter n.cfg.witness;
  old = [];
  new = [];
  commit_quorum = n.policy.applied;
}

abbrev joint_state : List PeerConfig → Node → MembershipState
joint_state old n = record {
  joint = true;
  members = [];
  old = with_self old n.cfg.id true n.joint_self_voter_old n.cfg.witness;
  new = with_self n.joint_new n.cfg.id n.joint_include_self n.joint_self_voter n.cfg.witness;
  commit_quorum = n.policy.applied;
}

written_simple : (n : Node) → n.joint_old ≡ none → current_membership n ≡ simple_state n
unfolding current_membership
written_simple n e = rw (e, current_membership) refl

written_joint :
    (n : Node) (old : List PeerConfig)
    → n.joint_old ≡ some old
    → current_membership n ≡ joint_state old n
unfolding current_membership
written_joint n old e = rw (e, current_membership) refl

viewed_simple :
    (v : View) (self : NodeId) → Settled v self none → simple_view (v.peers, true, v.voter) ≡ v
viewed_simple v self (absent, a, b, c, d, e) = rw (a, b, c, d, e) refl

viewed_joint :
    (v : View) (self : NodeId) (old : List PeerConfig)
    → Settled v self (some old)
    → joint_view self
        (old, true, v.joint_self_voter_old)
        (v.joint_new, v.joint_include_self, v.joint_self_voter)
      ≡ v
viewed_joint v self old (absent, absent', a, b, c, d) = rw (a, b, c) refl

-- A node that restores the membership that it wrote, after a restart with whatever settings and
-- whatever membership, counts by the membership it had, outside a change of membership and during one.
pub restore-current_membership :
    (n m : Node)
    → Settled (view n) n.cfg.id n.joint_old
    → m.cfg.id ≡ n.cfg.id
    → view (restore_membership (current_membership n) m) ≡ view n
unfolding restore_membership
restore-current_membership n m h same = go n.joint_old refl h
  where
    self : NodeId
    self = n.cfg.id

    go :
        (o : Option (List PeerConfig))
        → n.joint_old ≡ o
        → Settled (view n) self o
        → view (restore_membership (current_membership n) m) ≡ view n
    go none e s =
        let ms = simple_state n in
        ap (λ k. view (restore_membership k m)) (written_simple n e)
        ∙ restore_simple-view ms m
        ∙ ap (λ i. simple_view (split_self ms.members i)) same
        ∙ ap simple_view
            (split_self-with_self n.cfg.peers self true n.cfg.voter n.cfg.witness s.0 (λ k. cc))
        ∙ viewed_simple (view n) self s
    go (some old) e s =
        let ms = joint_state old n in
        ap (λ k. view (restore_membership k m)) (written_joint n old e)
        ∙ restore_joint-view ms m
        ∙ ap (λ i. joint_view i (split_self ms.old i) (split_self ms.new i)) same
        ∙ ap (λ k. joint_view self k (split_self ms.new self))
            (split_self-with_self old self true n.joint_self_voter_old n.cfg.witness s.0 (λ k. cc))
        ∙ ap (joint_view self (old, true, n.joint_self_voter_old)) (
            split_self-with_self n.joint_new self n.joint_include_self n.joint_self_voter
              n.cfg.witness s.1 s.5)
        ∙ viewed_joint (view n) self old s
