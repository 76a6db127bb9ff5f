-- ===== src/Consensus/DoubleSign.antt =====
-- What `record_block` of consensus/pos.rs finds is evidence that verifies.
use blockhain_core.Prelude.{
  ℕ, String, ◌≡◌, refl, sym, ap, ◌∙◌, inl, inr, true, false, Option, none, some, List, [], ◌∷◌,
  Bool-cases, ◌==◌, path→eq, ℕ-Eq, String-Eq, Bytes-Eq, Option-Eq, All,
}
use mathlib.Core.Path.{subst}
use blockhain_core.Map.{get}
use blockhain_core.Crypto.{Crypto}
use blockhain_core.Block.{
  BlockHeader, SlashingEvidence, evidence, Evidences, no_more, more, fields_of, Block, Codec,
  from_block, header_hash, block_hash, check_key, verify_block_at, verify_block_signature,
  check_header, verify_header_at, verify_header_signature,
}
use blockhain_core.Consensus.Stake.{
  PosConfig, SeenKey, SeenKey-Eq, PosEngine, new_engine, push_evidence, verify_evidence,
  sig_or_empty, record_block,
}
use blockhain_core.Consensus.Recorded.{
  header_producer, header_text, header_hash-from_block, accused, IsRecorded, nameless, first_seen,
  seen_before, SeenAll, record-SeenAll, IsIndexed, from_block-IsIndexed, record_block-IsRecorded,
  record_all,
}

module _ (c : Crypto) (k : Codec) (cfg : PosConfig) where
  abbrev IsVerified : SeenKey → BlockHeader × List ℕ → Type 0
  IsVerified key v = verify_header_signature c k v.0 v.1 ≡ true

  -- The block has the hash of its fields, signed by its producer.
  abbrev pub IsSigned : Block → Type 0
  IsSigned b = (b.hash ≡ block_hash c k b) × (verify_block_signature c b ≡ true)

  key_verifies :
      (key : Option (List ℕ)) (h : BlockHeader) (s : List ℕ)
      → check_key c key (fields_of h).hash s ≡ true
      → header_hash c k h ≡ (fields_of h).hash
      → check_header c k key h s ≡ true
  key_verifies none h s v e = v
  key_verifies (some key) h s v e = rw (path→eq (header_hash c k h) (fields_of h).hash e) v

  header_verifies :
      (producer : Option String) (h : BlockHeader) (signature : Option (List ℕ))
      → verify_block_at c producer signature (fields_of h).hash ≡ true
      → header_hash c k h ≡ (fields_of h).hash
      → verify_header_at c k producer h (sig_or_empty signature) ≡ true
  header_verifies none h signature v e = v
  header_verifies (some p) h none v e = cc v
  header_verifies (some p) h (some s) v e = key_verifies (c.hex_decode p) h s v e

  from_block-IsVerified :
      (p : String) (b : Block)
      → IsSigned b
      → IsVerified (p, b.index) (from_block b, sig_or_empty b.signature)
  unfolding verify_header_signature verify_block_signature
  from_block-IsVerified p b (h, v) =
      ap (λ o. verify_header_at c k o (from_block b) (sig_or_empty b.signature)) (header_producer b)
      ∙ header_verifies b.producer (from_block b) b.signature
          (ap (verify_block_at c b.producer b.signature) (header_text b) ∙ v)
          (header_hash-from_block c k b ∙ sym h ∙ sym (header_text b))

  evidence_holds :
      (h1 h2 : BlockHeader) (s1 s2 : List ℕ) (key : SeenKey)
      → IsIndexed key (h1, s1)
      → IsIndexed key (h2, s2)
      → IsVerified key (h1, s1)
      → IsVerified key (h2, s2)
      → ((fields_of h1).hash == (fields_of h2).hash) ≡ false
      → verify_evidence c k (evidence h1 h2 s1 s2) ≡ true
  unfolding verify_evidence
  evidence_holds h1 h2 s1 s2 key (p1, i1) (p2, i2) v1 v2 d =
      rw
        (
          path→eq (fields_of h1).index (fields_of h2).index (i1 ∙ sym i2),
          path→eq (fields_of h1).producer (fields_of h2).producer (p1 ∙ sym p2),
          p1,
          v1,
          v2,
          d,
        )
        refl

  -- All evidence verifies.
  unfoldable pub AllVerify : Evidences → Type 0
  AllVerify no_more = Unit
  AllVerify (more x es) = (verify_evidence c k x ≡ true) × AllVerify es

  AllVerify-push :
      (x : SlashingEvidence) (es : Evidences)
      → verify_evidence c k x ≡ true
      → AllVerify es
      → AllVerify (push_evidence x es)
  unfolding AllVerify push_evidence
  AllVerify-push x no_more h all = (h, all)
  AllVerify-push x (more y es) h (v, all) = (v, AllVerify-push x es h all)

  AllVerify-accused :
      (h : BlockHeader) (s : List ℕ) (b : Block) (pool : Evidences)
      → (((fields_of h).hash == b.hash) ≡ false
          → verify_evidence c k (evidence h (from_block b) s (sig_or_empty b.signature)) ≡ true)
      → AllVerify pool
      → AllVerify (accused (h, s) b pool)
  AllVerify-accused h s b pool v all = elim (Bool-cases ((fields_of h).hash == b.hash)) [
    | inl t ↦ rw t all
    | inr t ↦ rw t (AllVerify-push _ pool (v t) all)
  ]

  -- The blocks seen are under their keys and verify, and so does the evidence.
  abbrev IsWatching : PosEngine → Type 0
  IsWatching e = SeenAll IsIndexed e × SeenAll IsVerified e × AllVerify e.evidence_pool

  recorded-AllVerify :
      (b : Block) (e e' : PosEngine)
      → IsSigned b
      → IsRecorded b e e'
      → IsWatching e
      → AllVerify e'.evidence_pool
  recorded-AllVerify b e e' h (nameless _ _ q) (_, _, all) = subst AllVerify (sym q) all
  recorded-AllVerify b e e' h (first_seen _ _ _ q _) (_, _, all) = subst AllVerify (sym q) all
  recorded-AllVerify b e e' h (seen_before p (a, s) n g _ q) (seen, ver, all) =
      subst AllVerify (sym q) (
        AllVerify-accused a s b e.evidence_pool
          (λ d.
            evidence_holds a (from_block b) s (sig_or_empty b.signature) (p, b.index)
              (seen (p, b.index) (a, s) g) (from_block-IsIndexed p b n) (ver (p, b.index) (a, s) g)
              (from_block-IsVerified p b h) (ap (λ x. (fields_of a).hash == x) (header_text b) ∙ d))
          all)

  record_block-IsWatching :
      (b : Block) (e : PosEngine)
      → IsSigned b
      → IsWatching e
      → IsWatching (record_block c cfg b e).0
  record_block-IsWatching b e h (seen, ver, all) =
      let r = record_block-IsRecorded c cfg b e in
      let e' = (record_block c cfg b e).0 in
      (
        record-SeenAll IsIndexed b e e' (λ p. from_block-IsIndexed p b) r seen,
        record-SeenAll IsVerified b e e' (λ p _. from_block-IsVerified p b h) r ver,
        recorded-AllVerify b e e' h r (seen, ver, all),
      )

  record_all-IsWatching :
      (bs : List Block) (e : PosEngine)
      → All IsSigned bs
      → IsWatching e
      → IsWatching (record_all c cfg bs e)
  unfolding record_all
  record_all-IsWatching [] e h w = w
  record_all-IsWatching (b ∷ bs) e (h, hs) w =
      record_all-IsWatching bs (record_block c cfg b e).0 hs (record_block-IsWatching b e h w)

  -- Whatever blocks with the hash of their fields and the signature of their producer are recorded from a
  -- fresh engine on, all evidence of the pool verifies.
  pub recorded_evidence_verifies :
      (blocks : List Block)
      → All IsSigned blocks
      → AllVerify (record_all c cfg blocks new_engine).evidence_pool
  unfolding AllVerify get
  recorded_evidence_verifies blocks h =
      (record_all-IsWatching blocks new_engine h (λ key v g. cc g, λ key v g. cc g, tt)).2
