-- ===== src/Peers/Bans.antt =====
-- Which operations of network/peer_manager.rs ban a peer: the scores of the rate limits and of
-- `report_bad_behavior` are clamped above the threshold.
use blockhain_core.Prelude.{
  ℕ, ◌<◌, String, ◌≡◌, refl, ap, ◌∙◌, inl, inr, false, Option, none, some, arith, if◌then◌else◌,
  Bool-cases, ◌==◌, ℕ-Eq, String-Eq, Bytes-Eq, Option-Eq,
}
use blockhain_core.Map.{Map, get, insert}
use blockhain_core.Map.Laws.{get-insert, get-insert_self, get_of_eq}
use blockhain_core.Peers.{
  i32_size, i32_neg, add32, signed_leb, max32, oversized_message_penalty, ban_threshold, min_score,
  Floats, PeerScore, before, new_score, refill_tokens, consume_token, peer_at, check_rate_limit,
  check_vote_rate_limit, check_blob_rate_limit, ban_peer, ban_low, report_bad_behavior,
  banned_entry, is_banned,
}

-- A clamped score is above the threshold.
clamped_high : (x : ℕ) → x < i32_size → signed_leb (max32 x min_score) ban_threshold ≡ false
clamped_high x h = ground arith

penalty_high : (a b : ℕ) → signed_leb (max32 (add32 a b) min_score) ban_threshold ≡ false
penalty_high a b = clamped_high (add32 a b) (omega arith)

module _ {F : Type 0} (fl : Floats F) where
  abbrev Bans : Type 0
  Bans = Map String (PeerScore F)

  abbrev stored : ℕ → Option (PeerScore F) → PeerScore F
  stored now o = elim o [ none ↦ new_score fl now | some v ↦ v ]

  entry_bans :
      (t now : ℕ) (o : Option (PeerScore F)) (s : PeerScore F)
      → s.banned_until ≡ (stored now o).banned_until
      → banned_entry fl t (some s) ≡ banned_entry fl t o
  entry_bans t now none s h = ap (before t) h
  entry_bans t now (some v) s h = ap (before t) h

  -- A score that bans as the one stored leaves every peer as it was.
  insert-bans :
      (t now : ℕ) (q p : String) (s : PeerScore F) (peers : Bans)
      → s.banned_until ≡ (peer_at fl now p peers).banned_until
      → is_banned fl t q (insert p s peers) ≡ is_banned fl t q peers
  unfolding is_banned
  insert-bans t now q p s peers h = elim (Bool-cases (p == q)) [
    | inl e ↦
        rw (get-insert p q s peers, e)
          (entry_bans t now (get p peers) s h ∙ ap (banned_entry fl t) (get_of_eq p q peers e))
    | inr e ↦ rw (get-insert p q s peers, e) refl
  ]

  rate_limit_bans :
      (t now : ℕ) (q p : String) (peers : Bans)
      → is_banned fl t q (check_rate_limit fl now p peers).0 ≡ is_banned fl t q peers
  unfolding check_rate_limit consume_token refill_tokens
  rate_limit_bans t now q p peers =
      elim (Bool-cases
        (fl.at_least (refill_tokens fl now (peer_at fl now p peers)).rate_tokens (fl.tokens 1))) [
          | inl e ↦ rw e (insert-bans t now q p _ peers refl)
          | inr e ↦
              rw (e, penalty_high (peer_at fl now p peers).score oversized_message_penalty)
                (insert-bans t now q p _ peers refl)
        ]

  vote_limit_bans :
      (t now : ℕ) (q p : String) (peers : Bans)
      → is_banned fl t q (check_vote_rate_limit fl now p peers).0 ≡ is_banned fl t q peers
  unfolding check_vote_rate_limit refill_tokens
  vote_limit_bans t now q p peers =
      elim (Bool-cases
        (fl.at_least (refill_tokens fl now (peer_at fl now p peers)).vote_tokens (fl.tokens 1))) [
          | inl e ↦ rw e (insert-bans t now q p _ peers refl)
          | inr e ↦ rw e (insert-bans t now q p _ peers refl)
        ]

  blob_limit_bans :
      (t now : ℕ) (q p : String) (peers : Bans)
      → is_banned fl t q (check_blob_rate_limit fl now p peers).0 ≡ is_banned fl t q peers
  unfolding check_blob_rate_limit refill_tokens
  blob_limit_bans t now q p peers =
      elim (Bool-cases
        (fl.at_least (refill_tokens fl now (peer_at fl now p peers)).blob_tokens (fl.tokens 1))) [
          | inl e ↦ rw e (insert-bans t now q p _ peers refl)
          | inr e ↦ rw e (insert-bans t now q p _ peers refl)
        ]

  -- A score above the threshold is not banned at the end of a report.
  ban_low_skip :
      (now : ℕ) (p : String) (s : PeerScore F) (peers : Bans)
      → signed_leb s.score ban_threshold ≡ false
      → ban_low fl now p (insert p s peers) ≡ insert p s peers
  ban_low_skip now p s peers h =
      ap
        (λ o.
          if signed_leb (stored now o).score ban_threshold
          then ban_peer fl now p (insert p s peers)
          else insert p s peers)
        (get-insert_self p s peers)
      ∙ rw h refl

  behavior_bans :
      (t now : ℕ) (q p : String) (peers : Bans)
      → is_banned fl t q (report_bad_behavior fl now p peers) ≡ is_banned fl t q peers
  unfolding report_bad_behavior
  behavior_bans t now q p peers =
      let s = peer_at fl now p peers in
      ap (is_banned fl t q) (ban_low_skip now p _ peers (penalty_high s.score (i32_neg 10)))
      ∙ insert-bans t now q p _ peers refl

  -- Whatever the stored score of a peer, its rate limits, also if they are exceeded, and a report of bad
  -- behaviour leave the bans of all peers at all times as they were.
  pub limits_never_ban :
      (t now : ℕ) (q p : String) (peers : Map String (PeerScore F))
      → (is_banned fl t q (check_rate_limit fl now p peers).0 ≡ is_banned fl t q peers)
        × (is_banned fl t q (check_vote_rate_limit fl now p peers).0 ≡ is_banned fl t q peers)
        × (is_banned fl t q (check_blob_rate_limit fl now p peers).0 ≡ is_banned fl t q peers)
        × (is_banned fl t q (report_bad_behavior fl now p peers) ≡ is_banned fl t q peers)
  limits_never_ban t now q p peers = (
    rate_limit_bans t now q p peers,
    vote_limit_bans t now q p peers,
    blob_limit_bans t now q p peers,
    behavior_bans t now q p peers,
  )
