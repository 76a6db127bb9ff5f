-- ===== src/Qc/Inclusion.antt =====
-- Each entry of a blob (consensus/qc.rs) has a proof that `verify_inclusion` accepts. The source does not
-- make proofs; `siblings` is the reference: the sibling of the node at each level.
use blockhain_core.Prelude.{
  ℕ, zero, suc, ◌/◌, ◌%◌, ◌<◌, String, ◌≡◌, refl, sym, ap, ◌∙◌, Option, none, some, List, [], ◌∷◌,
  map, arith, if◌then◌else◌, ◌==◌, path→eq, ℕ-Eq, String-Eq, Bytes-Eq, Option-Eq, length, get_elem?,
  get_elem?-lt-length, ok,
}
use blockhain_core.Crypto.{Crypto}
use blockhain_core.Merkle.{pair_level, merkle_loop, merkle_root}
use blockhain_core.Merkle.Laws.{loop_total}
use blockhain_core.Qc.{
  PqSignatureEntry, PqFraudProof, leaf_hash, entry_hash, node_hash, hex_root, compute_merkle_root,
  new_blob, climb, verify_inclusion,
}

-- The other child of the parent of position `i`; a last odd node is its own sibling.
abbrev pub sibling {ℓ} : {A : Type ℓ} → List A → ℕ → Option A
sibling [] i = none
sibling (x ∷ []) zero = some x
sibling (x ∷ []) (suc i) = none
sibling (x ∷ y ∷ rest) zero = some y
sibling (x ∷ y ∷ rest) (suc zero) = some x
sibling (x ∷ y ∷ rest) (suc (suc i)) = sibling rest i

abbrev pub put_first {ℓ} : {A : Type ℓ} → Option A → List A → List A
put_first none xs = xs
put_first (some x) xs = x ∷ xs

module _ {A : Type 0} (combine : A → A → A) where
  unfoldable pub siblings : ℕ → List A → ℕ → List A
  siblings zero xs i = []
  siblings (suc fuel) [] i = []
  siblings (suc fuel) (x ∷ []) i = []
  siblings (suc fuel) (x ∷ y ∷ rest) i =
      put_first (sibling (x ∷ y ∷ rest) i)
        (siblings fuel (pair_level combine (x ∷ y ∷ rest)) (i / 2))

  abbrev parent : ℕ → A → A → A
  parent i x s = if i % 2 == 0 then combine x s else combine s x

  -- The parent of a node stands at half its position in the next level.
  parent_at :
      (xs : List A) (i : ℕ) (x : A)
      → get_elem? xs i ≡ some x
      → (s : A) × ((sibling xs i ≡ some s)
          × (get_elem? (pair_level combine xs) (i / 2) ≡ some (parent i x s)))
  unfolding pair_level
  parent_at [] i x h = cc
  parent_at (y ∷ []) zero x h = (y, (refl, cc h))
  parent_at (y ∷ []) (suc i) x h = cc
  parent_at (y ∷ z ∷ rest) zero x h = (z, (refl, cc h))
  parent_at (y ∷ z ∷ rest) (suc zero) x h = (y, (refl, cc h))
  parent_at (y ∷ z ∷ rest) (suc (suc i)) x h =
      let (s, (p, q)) = parent_at rest i x h in
      let half : suc (suc i) / 2 ≡ suc (i / 2) = omega arith in
      let parity : suc (suc i) % 2 ≡ i % 2 = omega arith in (s, (p, rw (half, parity) q))

  climb-siblings :
      (f : ℕ) (xs : List A) (i : ℕ) (x r : A)
      → get_elem? xs i ≡ some x
      → merkle_loop combine f xs ≡ some r
      → climb combine i x (siblings f xs i) ≡ r
  unfolding siblings merkle_loop climb
  climb-siblings zero xs i x r h m = cc
  climb-siblings (suc f) [] i x r h m = cc
  climb-siblings (suc f) (y ∷ []) zero x r h m = cc
  climb-siblings (suc f) (y ∷ []) (suc i) x r h m = cc
  climb-siblings (suc f) (y ∷ z ∷ rest) i x r h m =
      let (s, (p, q)) = parent_at (y ∷ z ∷ rest) i x h in
      rw p (climb-siblings f (pair_level combine (y ∷ z ∷ rest)) (i / 2) (parent i x s) r q m)

abbrev proof_path : Crypto → List PqSignatureEntry → ℕ → List (List ℕ)
proof_path c entries i =
    siblings (node_hash c) (length (map (entry_hash c) entries)) (map (entry_hash c) entries) i

-- The proof for the entry `e` at position `i`, with the sibling path as the Merkle proof.
unfoldable pub proof_for :
    Crypto → List PqSignatureEntry → ℕ → PqSignatureEntry → ℕ → List ℕ → PqFraudProof
proof_for c entries i e epoch bls = record {
  epoch = epoch;
  validator_index = e.validator_index;
  validator_address = e.validator_address;
  claimed_bls_sig = bls;
  dilithium_signature = e.dilithium_signature;
  merkle_proof = proof_path c entries i;
  leaf_index = i;
}

get_elem?-hashes :
    (c : Crypto) (es : List PqSignatureEntry) (i : ℕ) (e : PqSignatureEntry)
    → get_elem? es i ≡ some e
    → get_elem? (map (entry_hash c) es) i ≡ some (entry_hash c e)
get_elem?-hashes c [] i e h = cc
get_elem?-hashes c (x ∷ es) zero e h = cc h
get_elem?-hashes c (x ∷ es) (suc i) e h = get_elem?-hashes c es i e h

length-hashes :
    (c : Crypto) (es : List PqSignatureEntry) → length (map (entry_hash c) es) ≡ length es
length-hashes c [] = refl
length-hashes c (x ∷ es) = ap suc (length-hashes c es)

some_pos :
    (es : List PqSignatureEntry) (i : ℕ) {e : PqSignatureEntry}
    → get_elem? es i ≡ some e
    → 0 < length es
some_pos es i h = omega (arith, get_elem?-lt-length es i h)

accepted :
    (c : Crypto) (p : PqFraudProof) (root : String)
    → c.hex_encode (
        climb
          (node_hash c)
          p.leaf_index
          (leaf_hash c p.validator_index p.validator_address p.dilithium_signature)
          p.merkle_proof)
      ≡ root
    → verify_inclusion c p root ≡ ok tt
unfolding verify_inclusion
accepted c p root h = rw (path→eq _ root h) refl

-- For each entry of a blob that `QcBlob::new` makes, the proof with its sibling path verifies against the
-- Merkle root of the blob.
pub verify_inclusion-proof_for :
    (c : Crypto) (epoch height : ℕ) (hash : String) (entries : List PqSignatureEntry) (i : ℕ)
    (e : PqSignatureEntry) (bls : List ℕ)
    → get_elem? entries i ≡ some e
    → verify_inclusion c
        (proof_for c entries i e epoch bls)
        (new_blob c epoch height hash entries).merkle_root
      ≡ ok tt
unfolding proof_for new_blob compute_merkle_root merkle_root
verify_inclusion-proof_for c epoch height hash entries i e bls h =
    let hashes = map (entry_hash c) entries in
    let (r, m) =
      loop_total (node_hash c) (length hashes) hashes
        (omega (arith, length-hashes c entries, some_pos entries i h)) (omega arith) in
    accepted c (proof_for c entries i e epoch bls) (compute_merkle_root c entries) (
      ap c.hex_encode (
        climb-siblings (node_hash c) (length hashes) hashes i (entry_hash c e) r
          (get_elem?-hashes c entries i e h) m)
      ∙ sym (ap (hex_root c) m))
