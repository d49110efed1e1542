-- ===== src/Cluster/Standing.antt =====
-- What a candidate or leader of StateMachine.ts has in a cluster of one configuration: distinct
-- voters behind it, whose votes were cast for it in its term.
use compaction.Prelude.{
  ℕ, some, true, List, [], ◌∷◌, ◌++◌, ◌≡◌, ◌≤◌, inl, inr, refl, ◌∙◌, arith, All, Distinct, length,
  add_to_set, add_to_set-Distinct, includes, Bool-cases,
}
use compaction.Storage.Meta.{NodeId}
use compaction.State.Persistent.{PersistentState}
use compaction.Config.{ClusterConfig, is_voter, get_quorum_size}
use compaction.Machine.{Node, follower, candidate, leader}
use compaction.Machine.Voting.{Later, newer, first_vote, unchanged}
use compaction.Machine.Campaigns.{Course, kept, rests, stood, kept_own}
use compaction.Machine.Campaigns.Answers.{IsCounted}
use compaction.Cluster.{Ballot, Cast}

pub record IsBacked (config : ClusterConfig) (cast : List Ballot) (i : NodeId) (n : Node)
    : Type 0 where
  pub distinct : Distinct n.votes_received
  pub backed : All (λ v. Cast v n.persistent_state.current_term i cast) n.votes_received
  pub needed : n.votes_needed ≡ get_quorum_size config

pub data Standing (config : ClusterConfig) (cast : List Ballot) (i : NodeId) (n : Node)
    : Type 0 where
  idle : n.current_state ≡ follower → Standing config cast i n
  campaigning :
      n.current_state ≡ candidate
      → n.persistent_state.voted_for ≡ some i
      → is_voter config i ≡ true
      → IsBacked config cast i n
      → Standing config cast i n
  leading :
      n.current_state ≡ leader
      → IsBacked config cast i n
      → get_quorum_size config ≤ length n.votes_received
      → Standing config cast i n

module _ (P : NodeId → Type 0) where
  All-map :
      (Q : NodeId → Type 0) (xs : List NodeId) → ((x : NodeId) → P x → Q x) → All P xs → All Q xs
  All-map Q [] f h = tt
  All-map Q (x ∷ xs) f h = (f x h.0, All-map Q xs f h.1)

  All-append : (xs : List NodeId) (a : NodeId) → All P xs → P a → All P (xs ++ a ∷ [])
  All-append [] a h p = (p, tt)
  All-append (x ∷ xs) a h p = (h.0, All-append xs a h.1 p)

  All-add_to_set : (a : NodeId) (xs : List NodeId) → All P xs → P a → All P (add_to_set a xs)
  All-add_to_set a xs h p = elim (Bool-cases (includes xs a)) [
    | inl old ↦ rw old h
    | inr new ↦ rw new (All-append xs a h p)
  ]

own_vote_kept :
    {i : NodeId} {p q : PersistentState}
    → Later p q
    → q.current_term ≡ p.current_term
    → p.voted_for ≡ some i
    → q.voted_for ≡ some i
own_vote_kept (newer a) e v = absurd (omega arith)
own_vote_kept (first_vote a b) e v = cc
own_vote_kept (unchanged a b) e v = b ∙ v

module _ (config : ClusterConfig) (cast cast' : List Ballot) (i : NodeId) (n n' : Node)
    (grows : (v : NodeId) (t : ℕ) (c : NodeId) → Cast v t c cast → Cast v t c cast') where
  abbrev VotesNow : NodeId → Type 0
  VotesNow v = Cast v n.persistent_state.current_term i cast

  abbrev VotesThen : NodeId → Type 0
  VotesThen v = Cast v n.persistent_state.current_term i cast'

  backed_then : All VotesNow n.votes_received → All VotesThen n.votes_received
  backed_then h =
      All-map VotesNow VotesThen n.votes_received (λ v. grows v n.persistent_state.current_term i) h

  IsBacked-kept :
      n'.persistent_state.current_term ≡ n.persistent_state.current_term
      → n'.votes_received ≡ n.votes_received
      → n'.votes_needed ≡ n.votes_needed
      → IsBacked config cast i n
      → IsBacked config cast' i n'
  IsBacked-kept t w q h = record {
    distinct = rw w h.distinct;
    backed = rw (w, t) (backed_then h.backed);
    needed = q ∙ h.needed;
  }

  pub Standing-kept :
      n.node_id ≡ i
      → n'.config_manager.active_config ≡ config
      → (n'.current_state ≡ candidate → Cast i n'.persistent_state.current_term i cast')
      → Course n n'
      → Standing config cast i n
      → Standing config cast' i n'
  Standing-kept e a own (kept k t v c s w q) (idle f) = idle (s ∙ f)
  Standing-kept e a own (kept k t v c s w q) (campaigning r u m b) =
      campaigning (s ∙ r) (kept_own u v) m (IsBacked-kept t w q b)
  Standing-kept e a own (kept k t v c s w q) (leading r b l) =
      leading (s ∙ r) (IsBacked-kept t w q b) (rw w l)
  Standing-kept e a own (rests k s) h = idle s
  Standing-kept e a own (stood k s w v m q) h =
      campaigning s (v ∙ rw e refl) (rw (← e, ← a) m) (record {
        distinct = rw w (refl, tt);
        backed = rw (w, e) (own s, tt);
        needed = q ∙ rw a refl;
      })

  IsBacked-counted :
      (from : NodeId)
      → Cast from n.persistent_state.current_term i cast
      → IsCounted from n n'
      → IsBacked config cast i n
      → IsBacked config cast' i n'
  IsBacked-counted from d h b = record {
    distinct = rw h.votes (add_to_set-Distinct from n.votes_received b.distinct);
    backed =
        rw (h.votes, h.term)
          (All-add_to_set VotesThen from n.votes_received (backed_then b.backed)
            (grows from n.persistent_state.current_term i d));
    needed = h.needed ∙ b.needed;
  }

  pub Standing-counted :
      (from : NodeId)
      → Later n.persistent_state n'.persistent_state
      → n.current_state ≡ candidate
      → Cast from n.persistent_state.current_term i cast
      → IsCounted from n n'
      → Standing config cast i n
      → Standing config cast' i n'
  Standing-counted from l c d h (idle f) = absurd (ground arith)
  Standing-counted from l c d h (leading r b k) = absurd (ground arith)
  Standing-counted from l c d h (campaigning r u m b) = elim h.role [
    | inl still ↦ campaigning still (own_vote_kept l h.term u) m (IsBacked-counted from d h b)
    | inr (leads, enough) ↦
        leading leads (IsBacked-counted from d h b) (rw (← b.needed, ← h.needed) enough)
  ]

-- Votes for other nodes change nothing.
pub Standing-more :
    (config : ClusterConfig) (cast cast' : List Ballot) (i : NodeId) (n : Node)
    → ((v : NodeId) (t : ℕ) (c : NodeId) → Cast v t c cast → Cast v t c cast')
    → Standing config cast i n
    → Standing config cast' i n
Standing-more config cast cast' i n grows (idle f) = idle f
Standing-more config cast cast' i n grows (campaigning r u m b) =
    campaigning r u m (IsBacked-kept config cast cast' i n n grows refl refl refl b)
Standing-more config cast cast' i n grows (leading r b k) =
    leading r (IsBacked-kept config cast cast' i n n grows refl refl refl b) k
