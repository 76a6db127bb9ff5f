-- ===== src/Crypto.antt =====
-- crypto.rs and hash.rs. The hash functions, the signature scheme and the `hex` crate are third-party
-- code: the fields of `Crypto`, a parameter of all that uses them.
use blockhain_core.Prelude.{
  ℕ, String, Bool, false, ◌&&◌, Option, List, [], ◌∷◌, ◌++◌, if◌then◌else◌, ◌==◌, ℕ-Eq, String-Eq,
  Bytes-Eq, Option-Eq, length,
}

pub record Crypto : Type 0 where
  -- `Sha256::digest` and `Sha3_256::digest`, 32 bytes each
  pub sha256 : List ℕ → List ℕ
  pub sha3_256 : List ℕ → List ℕ
  -- `hex::encode` and `hex::decode`
  pub hex_encode : List ℕ → String
  pub hex_decode : String → Option (List ℕ)
  -- `VerifyingKey::from_bytes` succeeds
  pub is_key : List ℕ → Bool
  -- `verifying_key.verify(message, signature)` succeeds: message, signature, public key
  pub ed25519_verify : List ℕ → List ℕ → List ℕ → Bool

-- The two length checks, the parse of the key and the check of the signature. The four error texts
-- are not told apart by any caller.
unfoldable pub verify_signature : Crypto → List ℕ → List ℕ → List ℕ → Bool
verify_signature c message signature public_key =
    if length signature == 64
    then if length public_key == 32
      then c.is_key public_key && c.ed25519_verify message signature public_key
      else false
    else false

-- hash.rs: the digest in hexadecimal.
unfoldable pub calculate_hash : Crypto → List ℕ → String
calculate_hash c bytes = c.hex_encode (c.sha256 bytes)

unfoldable pub concat : List (List ℕ) → List ℕ
concat [] = []
concat (field ∷ fields) = field ++ concat fields

-- The fields are hashed one after another with nothing between them.
unfoldable pub hash_fields : Crypto → List (List ℕ) → String
unfolding concat
hash_fields c fields = c.hex_encode (c.sha256 (concat fields))

-- A key pair: the hexadecimal public key, and Ed25519 signing of bytes.
pub record KeyPair : Type 0 where
  pub public_key_hex : String
  pub sign : List ℕ → List ℕ
