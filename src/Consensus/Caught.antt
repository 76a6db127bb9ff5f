-- ===== src/Consensus/Caught.antt =====
-- A double signature that `record_block` of consensus/pos.rs sees leaves evidence.
use blockhain_core.Prelude.{
  ℕ, String, ◌≡◌, refl, sym, ap, ◌∙◌, ◌≢◌, ◌⊎◌, inl, inr, some, List, [], ◌∷◌, ◌++◌, Bool-cases,
  ◌==◌, eq→path, ne→false, ℕ-Eq, String-Eq, Bytes-Eq, Option-Eq,
}
use mathlib.Core.Option.{some-injective}
use mathlib.Core.Path.{subst}
use blockhain_core.Map.{get, insert}
use blockhain_core.Map.Laws.{get-insert_self, get-insert_ne}
use blockhain_core.Crypto.{Crypto}
use blockhain_core.Block.{
  BlockHeader, SlashingEvidence, Evidences, no_more, more, fields_of, header1, Block, from_block,
}
use blockhain_core.Consensus.Stake.{
  PosConfig, SeenKey, SeenKey-Eq, PosEngine, new_engine, push_evidence, sig_or_empty, record_block,
}
use blockhain_core.Consensus.Recorded.{
  header_text, accused, IsRecorded, nameless, first_seen, seen_before, SeenAll, record-SeenAll,
  IsIndexed, from_block-IsIndexed, record_block-IsRecorded, record_all,
}

-- There is evidence against a producer at an index.
unfoldable pub Accuses : String → ℕ → Evidences → Type 0
Accuses p i no_more = ⊥
Accuses p i (more x es) =
    (((fields_of (header1 x)).producer ≡ some p) × ((fields_of (header1 x)).index ≡ i))
    ⊎ Accuses p i es

Accuses-push :
    (p : String) (i : ℕ) (x : SlashingEvidence) (es : Evidences)
    → Accuses p i es
    → Accuses p i (push_evidence x es)
unfolding Accuses push_evidence
Accuses-push p i x no_more h = absurd h
Accuses-push p i x (more y es) (inl h) = inl h
Accuses-push p i x (more y es) (inr h) = inr (Accuses-push p i x es h)

Accuses-pushed :
    (p : String) (i : ℕ) (x : SlashingEvidence) (es : Evidences)
    → (fields_of (header1 x)).producer ≡ some p
    → (fields_of (header1 x)).index ≡ i
    → Accuses p i (push_evidence x es)
unfolding Accuses push_evidence
Accuses-pushed p i x no_more h q = inl (h, q)
Accuses-pushed p i x (more y es) h q = inr (Accuses-pushed p i x es h q)

Accuses-accused :
    (p : String) (i : ℕ) (v : BlockHeader × List ℕ) (b : Block) (pool : Evidences)
    → Accuses p i pool
    → Accuses p i (accused v b pool)
Accuses-accused p i (h, s) b pool a = elim (Bool-cases ((fields_of h).hash == b.hash)) [
  | inl t ↦ rw t a
  | inr t ↦ rw t (Accuses-push p i _ pool a)
]

-- Evidence stays.
recorded-Accuses :
    (p : String) (i : ℕ) (b : Block) (e e' : PosEngine)
    → IsRecorded b e e'
    → Accuses p i e.evidence_pool
    → Accuses p i e'.evidence_pool
recorded-Accuses p i b e e' (nameless _ _ q) a = subst (Accuses p i) (sym q) a
recorded-Accuses p i b e e' (first_seen _ _ _ q _) a = subst (Accuses p i) (sym q) a
recorded-Accuses p i b e e' (seen_before _ v _ _ _ q) a =
    subst (Accuses p i) (sym q) (Accuses-accused p i v b e.evidence_pool a)

-- The producer has signed the hash at the index, or is accused there: the state in which a block with another
-- hash is caught.
abbrev Watches : String → ℕ → String → PosEngine → Type 0
Watches p i hash e =
    ((v : BlockHeader × List ℕ) × ((get (p, i) e.seen_blocks ≡ some v)
        × (((fields_of v.0).hash ≡ hash) ⊎ Accuses p i e.evidence_pool)))

seen_stays :
    (key : SeenKey) (v : BlockHeader × List ℕ) (b : Block) (e e' : PosEngine)
    → IsRecorded b e e'
    → get key e.seen_blocks ≡ some v
    → get key e'.seen_blocks ≡ some v
seen_stays key v b e e' (nameless _ s _) g = ap (get key) s ∙ g
seen_stays key v b e e' (first_seen p _ s _ n) g =
    ap (get key) s
    ∙ get-insert_ne (p, b.index) key _ e.seen_blocks
        (λ q. cc (sym n ∙ ap (λ j. get j e.seen_blocks) q ∙ g))
    ∙ g
seen_stays key v b e e' (seen_before _ _ _ _ s _) g = ap (get key) s ∙ g

Watches-recorded :
    (p : String) (i : ℕ) (hash : String) (b : Block) (e e' : PosEngine)
    → IsRecorded b e e'
    → Watches p i hash e
    → Watches p i hash e'
Watches-recorded p i hash b e e' r (v, (g, inl h)) = (v, (seen_stays (p, i) v b e e' r g, inl h))
Watches-recorded p i hash b e e' r (v, (g, inr a)) =
    (v, (seen_stays (p, i) v b e e' r g, inr (recorded-Accuses p i b e e' r a)))

-- The key of a named block.
producer_key : (p p' : String) (b : Block) → b.producer ≡ some p → b.producer ≡ some p' → p' ≡ p
producer_key p p' b h n = some-injective p' p (sym n ∙ h)

Watches-record :
    (p : String) (a : Block) (e e' : PosEngine)
    → a.producer ≡ some p
    → SeenAll IsIndexed e
    → IsRecorded a e e'
    → Watches p a.index a.hash e'
Watches-record p a e e' h seen (nameless n _ _) = cc (sym n ∙ h)
Watches-record p a e e' h seen (first_seen p' n s _ _) = (
  (from_block a, sig_or_empty a.signature),
  (
    ap (get (p, a.index)) s
        ∙ ap
            (λ x.
              get (x, a.index)
                (insert (p', a.index) (from_block a, sig_or_empty a.signature) e.seen_blocks))
            (sym (producer_key p p' a h n))
        ∙ get-insert_self (p', a.index) _ e.seen_blocks,
    inl (header_text a),
  ),
)
Watches-record p a e e' h seen (seen_before p' (v, t) n g s q) =
    let at : get (p, a.index) e.seen_blocks ≡ some (v, t) =
      ap (λ x. get (x, a.index) e.seen_blocks) (sym (producer_key p p' a h n)) ∙ g in
    let (named, indexed) = seen (p, a.index) (v, t) at in
    (
      (v, t),
      (
        ap (get (p, a.index)) s ∙ at,
        elim (Bool-cases ((fields_of v).hash == a.hash)) [
          | inl y ↦ inl (eq→path (fields_of v).hash a.hash y)
          | inr y ↦ inr (
              subst (Accuses p a.index) (sym q)
                (rw y (Accuses-pushed p a.index _ e.evidence_pool named indexed)))
        ],
      ),
    )

Accuses-record :
    (p hash : String) (b : Block) (e e' : PosEngine)
    → b.producer ≡ some p
    → hash ≢ b.hash
    → SeenAll IsIndexed e
    → Watches p b.index hash e
    → IsRecorded b e e'
    → Accuses p b.index e'.evidence_pool
Accuses-record p hash b e e' h d seen (v, (g, inr a)) r = recorded-Accuses p b.index b e e' r a
Accuses-record p hash b e e' h d seen (v, (g, inl y)) (nameless n _ _) = cc (sym n ∙ h)
Accuses-record p hash b e e' h d seen (v, (g, inl y)) (first_seen p' n _ _ g') =
    cc (sym g' ∙ ap (λ x. get (x, b.index) e.seen_blocks) (producer_key p p' b h n) ∙ g)
Accuses-record p hash b e e' h d seen ((v, t), (g, inl y)) (seen_before p' (w, u) n g' s q) =
    let same : (v, t) ≡ (w, u) =
      some-injective (v, t) (w, u)
        (sym g ∙ ap (λ x. get (x, b.index) e.seen_blocks) (sym (producer_key p p' b h n)) ∙ g') in
    let other : (fields_of w).hash ≢ b.hash =
      λ z. d (sym y ∙ ap (λ (x : BlockHeader × List ℕ). (fields_of x.0).hash) same ∙ z) in
    let (named, indexed) =
      seen (p, b.index) (w, u)
        (ap (λ x. get (x, b.index) e.seen_blocks) (sym (producer_key p p' b h n)) ∙ g') in
    subst (Accuses p b.index) (sym q) (
      rw (ne→false (fields_of w).hash b.hash other)
        (Accuses-pushed p b.index _ e.evidence_pool named indexed))

module _ (c : Crypto) (cfg : PosConfig) where
  record_all-append :
      (xs ys : List Block) (e : PosEngine)
      → record_all c cfg (xs ++ ys) e ≡ record_all c cfg ys (record_all c cfg xs e)
  unfolding record_all
  record_all-append [] ys e = refl
  record_all-append (x ∷ xs) ys e = record_all-append xs ys (record_block c cfg x e).0

  -- What each recorded block keeps is kept by all.
  record_all-keeps :
      (P : PosEngine → Type 0)
      → ((b : Block) (e : PosEngine) → P e → P (record_block c cfg b e).0)
      → (bs : List Block) (e : PosEngine) → P e
      → P (record_all c cfg bs e)
  unfolding record_all
  record_all-keeps P step [] e h = h
  record_all-keeps P step (b ∷ bs) e h =
      record_all-keeps P step bs (record_block c cfg b e).0 (step b e h)

  record_all-IsIndexed :
      (bs : List Block) (e : PosEngine)
      → SeenAll IsIndexed e
      → SeenAll IsIndexed (record_all c cfg bs e)
  record_all-IsIndexed = record_all-keeps (SeenAll IsIndexed) (λ b e.
      record-SeenAll IsIndexed b e (record_block c cfg b e).0 (λ p. from_block-IsIndexed p b)
        (record_block-IsRecorded c cfg b e))

  -- Two recorded blocks of one producer at one index with different hashes, whatever blocks are recorded
  -- before, between and after them: the pool of a fresh engine has evidence against the producer at the
  -- index then.
  pub double_sign_caught :
      (before between after : List Block) (a b : Block) (p : String)
      → a.producer ≡ some p
      → b.producer ≡ some p
      → a.index ≡ b.index
      → a.hash ≢ b.hash
      → Accuses p b.index
          (record_all c cfg (before ++ a ∷ (between ++ b ∷ after)) new_engine).evidence_pool
  unfolding record_all get
  double_sign_caught before between after a b p ha hb i d =
      let e0 = record_all c cfg before new_engine in
      let e1 = (record_block c cfg a e0).0 in
      let e2 = record_all c cfg between e1 in
      let e3 = (record_block c cfg b e2).0 in
      let seen0 = record_all-IsIndexed before new_engine (λ key v g. cc g) in
      let watched1 : Watches p a.index a.hash e1 =
        Watches-record p a e0 e1 ha seen0 (record_block-IsRecorded c cfg a e0) in
      let watched2 : Watches p a.index a.hash e2 =
        record_all-keeps (Watches p a.index a.hash)
          (λ x e.
            Watches-recorded p a.index a.hash x e (record_block c cfg x e).0
              (record_block-IsRecorded c cfg x e))
          between e1 watched1 in
      let seen2 = record_all-IsIndexed between e1 (record_all-IsIndexed (a ∷ []) e0 seen0) in
      let caught : Accuses p b.index e3.evidence_pool =
        Accuses-record p a.hash b e2 e3 hb d seen2 (subst (λ j. Watches p j a.hash e2) i watched2)
          (record_block-IsRecorded c cfg b e2) in
      let all : record_all c cfg (before ++ a ∷ (between ++ b ∷ after)) new_engine
          ≡ record_all c cfg after e3 =
        record_all-append before (a ∷ (between ++ b ∷ after)) new_engine
        ∙ record_all-append between (b ∷ after) e1 in
      subst (λ (e : PosEngine). Accuses p b.index e.evidence_pool) (sym all)
        (record_all-keeps (λ e. Accuses p b.index e.evidence_pool)
          (λ x e.
            recorded-Accuses p b.index x e (record_block c cfg x e).0
              (record_block-IsRecorded c cfg x e))
          after e3 caught)
