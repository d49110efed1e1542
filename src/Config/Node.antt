-- ===== src/Config/Node.antt =====
-- packages/raft-core/src/core/Config.ts: the configuration of a node.
use compaction.Prelude.{
  ℕ, ◌*◌, ◌<◌, ◌≤◌, ◌≡◌, ◌↔◌, Option, none, some, Bool, true, false, List, [], ◌∷◌, any, str_eq,
  leb, ltb, ◌==◌, String, arith, All, refl,
}
use compaction.Prelude.Exec.{Result, ok, err, invalid}
use compaction.Storage.Meta.{NodeId}
use compaction.Config.{ClusterMember}

pub record RaftConfig : Type 0 where
  pub node_id : NodeId
  pub address : String
  pub peers : List ClusterMember
  pub election_timeout_min_ms : ℕ
  pub election_timeout_max_ms : ℕ
  pub heartbeat_interval_ms : ℕ
  pub snapshot_threshold : Option ℕ

-- `!Number.isInteger(n) || n <= 0`
abbrev not_positive : ℕ → Bool
not_positive n = n == 0

abbrev is_bad_threshold : Option ℕ → Bool
is_bad_threshold none = false
is_bad_threshold (some n) = not_positive n

abbrev reject_if : Bool → Result (Unit {0}) → Result (Unit {0})
reject_if true rest = err invalid
reject_if false rest = rest

unfoldable pub validate_config : RaftConfig → Result (Unit {0})
validate_config c = reject_if (str_eq c.node_id "") (
    reject_if (str_eq c.address "") (
      reject_if (any (λ p. str_eq p.id c.node_id) c.peers) (
        reject_if (not_positive c.election_timeout_min_ms) (
          reject_if (not_positive c.election_timeout_max_ms) (
            reject_if (leb c.election_timeout_max_ms c.election_timeout_min_ms) (
              reject_if (not_positive c.heartbeat_interval_ms) (
                reject_if (ltb c.election_timeout_min_ms (c.heartbeat_interval_ms * 3))
                  (reject_if (is_bad_threshold c.snapshot_threshold) (ok tt)))))))))

abbrev validated : RaftConfig → Result (Unit {0}) → Result RaftConfig
validated c (ok u) = ok c
validated c (err e) = err e

unfoldable pub create_config :
    NodeId → String → List ClusterMember → ℕ → ℕ → ℕ → Option ℕ → Result RaftConfig
unfolding validate_config
create_config node_id address peers min_ms max_ms heartbeat_ms threshold =
    let c : RaftConfig = record {
      node_id = node_id;
      address = address;
      peers = peers;
      election_timeout_min_ms = min_ms;
      election_timeout_max_ms = max_ms;
      heartbeat_interval_ms = heartbeat_ms;
      snapshot_threshold = threshold;
    } in
    validated c (validate_config c)

abbrev pub IsPositive : Option ℕ → Type 0
IsPositive none = Unit
IsPositive (some n) = 0 < n

-- A named node with an address, not its own peer, that beats at least three times in an election
-- timeout.
pub record IsValidConfig (c : RaftConfig) : Type 0 where
  pub named : str_eq c.node_id "" ≡ false
  pub addressed : str_eq c.address "" ≡ false
  pub apart : All (λ (p : ClusterMember). str_eq p.id c.node_id ≡ false) c.peers
  pub ranged : c.election_timeout_min_ms < c.election_timeout_max_ms
  pub beating : 0 < c.heartbeat_interval_ms
  pub patient : c.heartbeat_interval_ms * 3 ≤ c.election_timeout_min_ms
  pub threshold : IsPositive c.snapshot_threshold

any-All :
    (i : NodeId) (ps : List ClusterMember)
    → any (λ p. str_eq p.id i) ps ≡ false
    → All (λ (p : ClusterMember). str_eq p.id i ≡ false) ps
any-All i [] h = tt
any-All i (p ∷ ps) h = (ground arith, any-All i ps (ground arith))

All-any :
    (i : NodeId) (ps : List ClusterMember)
    → All (λ (p : ClusterMember). str_eq p.id i ≡ false) ps
    → any (λ p. str_eq p.id i) ps ≡ false
All-any i [] h = refl
All-any i (p ∷ ps) h = ground (arith, h.0, All-any i ps h.1)

bad_threshold : (o : Option ℕ) → is_bad_threshold o ≡ false → IsPositive o
bad_threshold none h = tt
bad_threshold (some n) h = ground arith

good_threshold : (o : Option ℕ) → IsPositive o → is_bad_threshold o ≡ false
good_threshold none h = refl
good_threshold (some n) h = ground arith

validate_config-IsValid : (c : RaftConfig) → validate_config c ≡ ok tt → IsValidConfig c
unfolding validate_config
validate_config-IsValid c h = record {
  named = ground arith;
  addressed = ground arith;
  apart = any-All c.node_id c.peers (ground arith);
  ranged = ground arith;
  beating = ground arith;
  patient = ground arith;
  threshold = bad_threshold c.snapshot_threshold (ground arith);
}

IsValid-validate_config : (c : RaftConfig) → IsValidConfig c → validate_config c ≡ ok tt
unfolding validate_config
IsValid-validate_config c h =
    rw
      (
        h.named,
        h.addressed,
        All-any c.node_id c.peers h.apart,
        good_threshold c.snapshot_threshold h.threshold,
      )
      (ground (arith, h.ranged, h.beating, h.patient))

-- The validation of a node's configuration accepts exactly those with a name and an address, no
-- peer with the own name, a minimal election timeout below the maximal one and of at least three
-- positive heartbeat intervals, and no snapshot threshold or a positive one.
pub validate_config_iff : (c : RaftConfig) → (validate_config c ≡ ok tt) ↔ IsValidConfig c
validate_config_iff c = (validate_config-IsValid c, IsValid-validate_config c)
