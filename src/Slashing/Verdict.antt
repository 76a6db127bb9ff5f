-- ===== src/Slashing/Verdict.antt =====
-- What the checks of slashing.rs accept.
use blockhain_core.Prelude.{
  ℕ, String, ◌≡◌, refl, ◌≢◌, ◌↔◌, not, ◌&&◌, Option, none, some, List, arith, ◌==◌, eq→path,
  path→eq, ne→false, false→ne, ℕ-Eq, String-Eq, Bytes-Eq, Option-Eq, length, ok, ◌>>=◌, fail_if,
  or_fail, >>-eq-ok, fail_if-eq-ok,
}
use blockhain_core.Crypto.{Crypto}
use blockhain_core.Slashing.{
  double_sign, double_proposal, double_vote, identical_hashes, identical_signatures, invalid_pubkey,
  invalid_pubkey_length, vrf_outputs_differ, invalid_slot, identical_checkpoints, invalid_epoch,
  verify_double_sign, verify_double_proposal, verify_double_vote,
}

-- The hexadecimal address of a 32-byte key.
abbrev pub IsAddress : Crypto → String → Type 0
IsAddress c address = (key : List ℕ) × ((c.hex_decode address ≡ some key) × (length key ≡ 32))

key_checked :
    (key : Option (List ℕ))
    → ((or_fail key invalid_pubkey >>= λ k. fail_if (not (length k == 32)) invalid_pubkey_length)
        ≡ ok tt)
      ↔ ((k : List ℕ) × ((key ≡ some k) × (length k ≡ 32)))
key_checked none = (λ h. cc, λ h. cc (h.1.0))
key_checked (some k) = (
  λ h. (k, (refl, ground (arith, fail_if-eq-ok (not (length k == 32)) invalid_pubkey_length h))),
  λ h. ground (arith, h.1.1, h.1.0),
)

double_sign_iff :
    (c : Crypto) (now : ℕ) (validator reporter h1 h2 : String) (height : ℕ) (s1 s2 : List ℕ)
    → (verify_double_sign c (double_sign now validator height h1 h2 s1 s2 reporter) ≡ ok tt)
      ↔ ((h1 ≢ h2) × (s1 ≢ s2) × IsAddress c validator)
unfolding verify_double_sign double_sign
double_sign_iff c now validator reporter h1 h2 height s1 s2 = (
  λ h.
      let (a, t) = >>-eq-ok _ _ h in
      let (b, t') = >>-eq-ok _ _ t in
      (
        false→ne h1 h2 (fail_if-eq-ok (h1 == h2) identical_hashes a),
        false→ne s1 s2 (fail_if-eq-ok (s1 == s2) identical_signatures b),
        (key_checked (c.hex_decode validator)).0 t',
      ),
  λ h.
      rw (ne→false h1 h2 h.0, ne→false s1 s2 h.1, (key_checked (c.hex_decode validator)).1 h.2)
        refl,
)

double_proposal_iff :
    (now : ℕ) (validator reporter h1 h2 : String) (epoch slot : ℕ) (s1 s2 v1 v2 : List ℕ)
    → (verify_double_proposal (double_proposal now validator epoch slot h1 h2 s1 s2 v1 v2 reporter)
        ≡ ok tt)
      ↔ ((h1 ≢ h2) × (v1 ≡ v2) × ¬ ((epoch ≡ 0) × (slot ≡ 0)))
unfolding verify_double_proposal double_proposal
double_proposal_iff now validator reporter h1 h2 epoch slot s1 s2 v1 v2 = (
  λ h.
      let (a, t) = >>-eq-ok _ _ h in
      let (b, t') = >>-eq-ok _ _ t in
      (
        false→ne h1 h2 (fail_if-eq-ok (h1 == h2) identical_hashes a),
        eq→path v1 v2 (ground (arith, fail_if-eq-ok (not (v1 == v2)) vrf_outputs_differ b)),
        λ z. ground (arith, fail_if-eq-ok (epoch == 0 && slot == 0) invalid_slot t', z.0, z.1),
      ),
  λ h. rw (ne→false h1 h2 h.0, path→eq v1 v2 h.1) (ground (arith, h.2)),
)

double_vote_iff :
    (now : ℕ) (validator reporter h1 h2 : String) (epoch : ℕ) (s1 s2 : List ℕ)
    → (verify_double_vote (double_vote now validator epoch h1 h2 s1 s2 reporter) ≡ ok tt)
      ↔ ((h1 ≢ h2) × (epoch ≢ 0))
unfolding verify_double_vote double_vote
double_vote_iff now validator reporter h1 h2 epoch s1 s2 = (
  λ h.
      let (a, t) = >>-eq-ok _ _ h in
      (
        false→ne h1 h2 (fail_if-eq-ok (h1 == h2) identical_checkpoints a),
        false→ne epoch 0 (fail_if-eq-ok (epoch == 0) invalid_epoch t),
      ),
  λ h. rw (ne→false h1 h2 h.0, ne→false epoch 0 h.1) refl,
)

-- Evidence of a double signature that `double_sign` makes is accepted exactly if the hashes differ, the
-- signatures differ as bytes and the validator is the address of a 32-byte key; evidence of a double proposal
-- exactly if the hashes differ, the VRF outputs are the same and epoch and slot are not both 0; evidence of a
-- double vote exactly if the checkpoints differ and the epoch is not 0. No signature is verified.
pub verdicts :
    (c : Crypto) (now : ℕ) (validator reporter h1 h2 : String) (height epoch slot : ℕ)
    (s1 s2 v1 v2 : List ℕ)
    → ((verify_double_sign c (double_sign now validator height h1 h2 s1 s2 reporter) ≡ ok tt)
        ↔ ((h1 ≢ h2) × (s1 ≢ s2) × IsAddress c validator))
      × ((verify_double_proposal
              (double_proposal now validator epoch slot h1 h2 s1 s2 v1 v2 reporter)
            ≡ ok tt)
          ↔ ((h1 ≢ h2) × (v1 ≡ v2) × ¬ ((epoch ≡ 0) × (slot ≡ 0))))
      × ((verify_double_vote (double_vote now validator epoch h1 h2 s1 s2 reporter) ≡ ok tt)
          ↔ ((h1 ≢ h2) × (epoch ≢ 0)))
verdicts c now validator reporter h1 h2 height epoch slot s1 s2 v1 v2 = (
  double_sign_iff c now validator reporter h1 h2 height s1 s2,
  double_proposal_iff now validator reporter h1 h2 epoch slot s1 s2 v1 v2,
  double_vote_iff now validator reporter h1 h2 epoch s1 s2,
)
