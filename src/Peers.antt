-- ===== src/Peers.antt =====
-- network/peer_manager.rs: scores of peers, rate limits and bans. Instants are nanoseconds, `now` is the
-- clock's; the f64 arithmetic of the token buckets is a parameter. A peer id is a string.
pub mod Bans
mod Tests
use blockhain_core.Prelude.{
  ℕ, ◌+◌, ◌-◌, ◌*◌, ◌%◌, ◌^◌, String, Bool, true, false, Option, none, some, List, [], ◌∷◌, ltb,
  leb, if◌then◌else◌, ℕ-Eq, String-Eq, Bytes-Eq, Option-Eq,
}
use blockhain_core.Map.{Map, get, insert, get_or, map_values}

-- An i32 as its 32 bits, with the order of signed numbers.
abbrev pub i32_size : ℕ
i32_size = 2 ^ 32

abbrev pub i32_neg : ℕ → ℕ
i32_neg n = i32_size - n

abbrev pub add32 : ℕ → ℕ → ℕ
add32 a b = (a + b) % i32_size

abbrev pub biased : ℕ → ℕ
biased a = (a + 2 ^ 31) % i32_size

abbrev pub signed_leb : ℕ → ℕ → Bool
signed_leb a b = leb (biased a) (biased b)

abbrev pub max32 : ℕ → ℕ → ℕ
max32 a b = if signed_leb a b then b else a

abbrev pub min32 : ℕ → ℕ → ℕ
min32 a b = if signed_leb a b then a else b

abbrev pub invalid_block_penalty : ℕ
invalid_block_penalty = i32_neg 10

abbrev pub invalid_tx_penalty : ℕ
invalid_tx_penalty = i32_neg 5

abbrev pub oversized_message_penalty : ℕ
oversized_message_penalty = i32_neg 3

abbrev pub good_behavior_reward : ℕ
good_behavior_reward = 1

abbrev pub ban_threshold : ℕ
ban_threshold = i32_neg 100

abbrev pub ban_duration : ℕ
ban_duration = 3600 * 1_000_000_000

abbrev pub max_score : ℕ
max_score = 100

abbrev pub min_score : ℕ
min_score = i32_neg 99

-- The operations on f64 that the source uses: `tokens n` is the literal `n.0`, `half` is `0.5`, `seconds` is
-- `as_secs_f64` of a duration.
pub record Floats (F : Type 0) : Type 0 where
  pub tokens : ℕ → F
  pub half : F
  pub seconds : ℕ → F
  pub plus : F → F → F
  pub minus : F → F → F
  pub times : F → F → F
  pub min_of : F → F → F
  pub at_least : F → F → Bool

pub record PeerScore (F : Type 0) : Type 0 where
  pub score : ℕ
  pub banned_until : Option ℕ
  pub invalid_blocks : ℕ
  pub invalid_txs : ℕ
  pub valid_contributions : ℕ
  pub last_seen : Option ℕ
  pub rate_tokens : F
  pub rate_last_refill : ℕ
  pub vote_tokens : F
  pub blob_tokens : F
  pub handshaked : Bool

abbrev pub before : ℕ → Option ℕ → Bool
before now none = false
before now (some until) = ltb now until

abbrev pub over : ℕ → Option ℕ → Bool
over now none = false
over now (some until) = leb until now

module _ {F : Type 0} (fl : Floats F) where
  abbrev pub Peers : Type 0
  Peers = Map String (PeerScore F)

  -- `PeerScore::default`
  abbrev pub new_score : ℕ → PeerScore F
  new_score now = record {
    score = 0;
    banned_until = none;
    invalid_blocks = 0;
    invalid_txs = 0;
    valid_contributions = 0;
    last_seen = none;
    rate_tokens = fl.tokens 20;
    rate_last_refill = now;
    vote_tokens = fl.tokens 10;
    blob_tokens = fl.tokens 5;
    handshaked = false;
  }

  abbrev pub is_banned_score : ℕ → PeerScore F → Bool
  is_banned_score now s = before now s.banned_until

  unfoldable pub refill_tokens : ℕ → PeerScore F → PeerScore F
  refill_tokens now s =
      let elapsed = fl.seconds (now - s.rate_last_refill) in
      record s {
        rate_tokens =
            fl.min_of (fl.plus s.rate_tokens (fl.times elapsed (fl.tokens 5))) (fl.tokens 20);
        vote_tokens =
            fl.min_of (fl.plus s.vote_tokens (fl.times elapsed (fl.tokens 2))) (fl.tokens 20);
        blob_tokens = fl.min_of (fl.plus s.blob_tokens (fl.times elapsed fl.half)) (fl.tokens 10);
        rate_last_refill = now;
      }

  unfoldable pub consume_token : ℕ → PeerScore F → PeerScore F × Bool
  consume_token now s =
      let filled = refill_tokens now s in
      if fl.at_least filled.rate_tokens (fl.tokens 1)
      then (record filled { rate_tokens = fl.minus filled.rate_tokens (fl.tokens 1) }, true)
      else (filled, false)

  abbrev pub ban_remaining : ℕ → PeerScore F → Option ℕ
  ban_remaining now s = elim s.banned_until [
    | none ↦ none
    | some until ↦ if ltb now until then some (until - now) else none
  ]

  abbrev pub peer_at : ℕ → String → Peers → PeerScore F
  peer_at now p peers = get_or p (new_score now) peers

  abbrev pub update : ℕ → String → (PeerScore F → PeerScore F) → Peers → Peers
  update now p f peers = insert p (f (peer_at now p peers)) peers

  abbrev pub limit_penalty : ℕ → PeerScore F → PeerScore F
  limit_penalty now s =
      let lowered = max32 (add32 s.score oversized_message_penalty) min_score in
      record s {
        score = lowered;
        banned_until =
            if signed_leb lowered ban_threshold then some (now + ban_duration) else s.banned_until;
      }

  unfoldable pub check_rate_limit : ℕ → String → Peers → Peers × Bool
  check_rate_limit now p peers =
      let (s, granted) = consume_token now (peer_at now p peers) in
      if granted then (insert p s peers, true) else (insert p (limit_penalty now s) peers, false)

  unfoldable pub check_vote_rate_limit : ℕ → String → Peers → Peers × Bool
  check_vote_rate_limit now p peers =
      let s = refill_tokens now (peer_at now p peers) in
      if fl.at_least s.vote_tokens (fl.tokens 1)
      then (insert p (record s { vote_tokens = fl.minus s.vote_tokens (fl.tokens 1) }) peers, true)
      else (
        insert p (record s { score = max32 (add32 s.score (i32_neg 1)) min_score }) peers,
        false,
      )

  unfoldable pub check_blob_rate_limit : ℕ → String → Peers → Peers × Bool
  check_blob_rate_limit now p peers =
      let s = refill_tokens now (peer_at now p peers) in
      if fl.at_least s.blob_tokens (fl.tokens 1)
      then (insert p (record s { blob_tokens = fl.minus s.blob_tokens (fl.tokens 1) }) peers, true)
      else (
        insert p (record s { score = max32 (add32 s.score (i32_neg 5)) min_score }) peers,
        false,
      )

  unfoldable pub ban_peer : ℕ → String → Peers → Peers
  ban_peer now p = update now p (λ s. record s { banned_until = some (now + ban_duration) })

  -- The end of the reports: a score at the threshold is banned.
  abbrev pub ban_low : ℕ → String → Peers → Peers
  ban_low now p peers =
      if signed_leb (peer_at now p peers).score ban_threshold then ban_peer now p peers else peers

  unfoldable pub report_invalid_block : ℕ → String → Peers → Peers
  report_invalid_block now p peers = ban_low now p (
      update now p
        (λ s. record s {
          invalid_blocks = add32 s.invalid_blocks 1;
          score = add32 s.score invalid_block_penalty;
          last_seen = some now;
        })
        peers)

  unfoldable pub report_invalid_tx : ℕ → String → Peers → Peers
  report_invalid_tx now p peers = ban_low now p (
      update now p
        (λ s. record s {
          invalid_txs = add32 s.invalid_txs 1;
          score = add32 s.score invalid_tx_penalty;
          last_seen = some now;
        })
        peers)

  unfoldable pub report_oversized_message : ℕ → String → Peers → Peers
  report_oversized_message now p peers = ban_low now p (
      update now p
        (λ s. record s { score = add32 s.score oversized_message_penalty; last_seen = some now })
        peers)

  unfoldable pub report_bad_behavior : ℕ → String → Peers → Peers
  report_bad_behavior now p peers = ban_low now p (
      update now p
        (λ s. record s {
          score = max32 (add32 s.score (i32_neg 10)) min_score;
          last_seen = some now;
        })
        peers)

  unfoldable pub report_good_behavior : ℕ → String → Peers → Peers
  report_good_behavior now p = update now p (λ s. record s {
    valid_contributions = add32 s.valid_contributions 1;
    score = min32 (add32 s.score good_behavior_reward) max_score;
    last_seen = some now;
  })

  abbrev pub banned_entry : ℕ → Option (PeerScore F) → Bool
  banned_entry now none = false
  banned_entry now (some s) = is_banned_score now s

  unfoldable pub is_banned : ℕ → String → Peers → Bool
  is_banned now p peers = banned_entry now (get p peers)

  abbrev pub score_entry : Option (PeerScore F) → ℕ
  score_entry none = 0
  score_entry (some s) = s.score

  unfoldable pub get_score : String → Peers → ℕ
  get_score p peers = score_entry (get p peers)

  abbrev pub handshaked_entry : Option (PeerScore F) → Bool
  handshaked_entry none = false
  handshaked_entry (some s) = s.handshaked

  unfoldable pub is_handshaked : String → Peers → Bool
  is_handshaked p peers = handshaked_entry (get p peers)

  unfoldable pub set_handshaked : ℕ → String → Bool → Peers → Peers
  set_handshaked now p status = update now p (λ s. record s { handshaked = status })

  abbrev pub forgiven : PeerScore F → PeerScore F
  forgiven s = record s { banned_until = none; score = 0 }

  abbrev pub unban_entry : String → Option (PeerScore F) → Peers → Peers
  unban_entry p none peers = peers
  unban_entry p (some s) peers = insert p (forgiven s) peers

  unfoldable pub unban_peer : String → Peers → Peers
  unban_peer p peers = unban_entry p (get p peers) peers

  abbrev pub expire_ban : ℕ → PeerScore F → PeerScore F
  expire_ban now s = if over now s.banned_until then forgiven s else s

  unfoldable pub cleanup_expired_bans : ℕ → Peers → Peers
  cleanup_expired_bans now peers = map_values (expire_ban now) peers

  unfoldable pub get_banned_peers : ℕ → Peers → List String
  get_banned_peers now [] = []
  get_banned_peers now ((p, s) ∷ peers) =
      let rest = get_banned_peers now peers in if is_banned_score now s then p ∷ rest else rest
