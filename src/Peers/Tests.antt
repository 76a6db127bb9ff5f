-- ===== src/Peers/Tests.antt =====
-- A peer over its limits. The fractions are whole numbers, and no time gives a token.
use blockhain_core.Prelude.{
  ℕ, ◌+◌, ◌-◌, ◌*◌, String, ◌≡◌, refl, [], ◌∷◌, leb, if◌then◌else◌, ℕ-Eq, String-Eq, Bytes-Eq,
  Option-Eq,
}
use blockhain_core.Map.{Map, get, insert}
use blockhain_core.Peers.{
  i32_neg, Floats, PeerScore, new_score, refill_tokens, consume_token, check_rate_limit,
  check_vote_rate_limit, check_blob_rate_limit, report_bad_behavior, is_banned, get_score,
}
use blockhain_core.Peers.Bans.{limits_never_ban}

abbrev whole : Floats ℕ
whole = record {
  tokens = λ n. n;
  half = 0;
  seconds = λ n. 0;
  plus = λ a b. a + b;
  minus = λ a b. a - b;
  times = λ a b. a * b;
  min_of = λ a b. if leb a b then a else b;
  at_least = λ a b. leb b a;
}

abbrev empty_handed : Map String (PeerScore ℕ)
empty_handed =
    (
      "p",
      record (new_score whole 5) {
        score = i32_neg 97;
        rate_tokens = 0;
        vote_tokens = 0;
        blob_tokens = 0;
      },
    )
    ∷ []

clamped_score : get_score whole "p" (check_rate_limit whole 9 "p" empty_handed).0 ≡ i32_neg 99
unfolding get_score check_rate_limit consume_token refill_tokens insert get
clamped_score = refl

limits_never_ban_example :
    (is_banned whole 9 "p" (check_rate_limit whole 9 "p" empty_handed).0
      ≡ is_banned whole 9 "p" empty_handed)
    × (is_banned whole 9 "p" (check_vote_rate_limit whole 9 "p" empty_handed).0
        ≡ is_banned whole 9 "p" empty_handed)
    × (is_banned whole 9 "p" (check_blob_rate_limit whole 9 "p" empty_handed).0
        ≡ is_banned whole 9 "p" empty_handed)
    × (is_banned whole 9 "p" (report_bad_behavior whole 9 "p" empty_handed)
        ≡ is_banned whole 9 "p" empty_handed)
limits_never_ban_example = limits_never_ban whole 9 9 "p" "p" empty_handed
