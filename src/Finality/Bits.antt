-- ===== src/Finality/Bits.antt =====
-- The bitmap of a certificate (consensus/finality.rs): a bit that is set reads as set, and setting one
-- clears no other.
use blockhain_core.Prelude.{
  ℕ, zero, suc, ◌/◌, ◌%◌, ◌^◌, ◌<◌, ◌≡◌, refl, sym, ap, ◌∙◌, Bool, true, false, not, ◌&&◌, Option,
  none, some, List, [], ◌∷◌, arith, ltb, if◌then◌else◌, ◌==◌, ℕ-Eq, String-Eq, Bytes-Eq, Option-Eq,
  length, get_elem?, All,
}
use Prim.Native.Nat.{bit_or, bit_and}
use blockhain_core.Finality.Cert.{or_at, set_bit, has_bit}

-- A Boolean law of the numbers under a bound, by evaluation.
holds_under : (ℕ → Bool) → ℕ → Bool
holds_under law zero = true
holds_under law (suc bound) = holds_under law bound && law bound

holds_under_lem :
    (law : ℕ → Bool) (bound i : ℕ) → i < bound → holds_under law bound ≡ true → law i ≡ true
unfolding holds_under
holds_under_lem law zero i lt h = absurd (omega arith)
holds_under_lem law (suc bound) i lt h = ground (arith, holds_under_lem law bound i)

-- Byte by byte: the result is a byte, the bit is set, and the others stay.
byte_law : ℕ → ℕ → ℕ → Bool
byte_law b k j =
    ltb (bit_or b (2 ^ k)) 256
    && (not (bit_and (bit_or b (2 ^ k)) (2 ^ k) == 0)
        && (if bit_and b (2 ^ j) == 0 then true else not (bit_and (bit_or b (2 ^ k)) (2 ^ j) == 0)))

byte_table : holds_under (λ b. holds_under (λ k. holds_under (λ j. byte_law b k j) 8) 8) 256 ≡ true
unfolding holds_under byte_law
byte_table = refl

byte_laws : (b k j : ℕ) → b < 256 → k < 8 → j < 8 → byte_law b k j ≡ true
byte_laws b k j hb hk hj =
    holds_under_lem (λ x. byte_law b k x) 8 j hj
      (holds_under_lem (λ y. holds_under (λ x. byte_law b y x) 8) 8 k hk
        (holds_under_lem (λ z. holds_under (λ y. holds_under (λ x. byte_law z y x) 8) 8) 256 b hb
          byte_table))

abbrev pub IsBytes : List ℕ → Type 0
IsBytes bs = All (λ b. b < 256) bs

abbrev bit_at : Option ℕ → ℕ → Bool
bit_at none k = false
bit_at (some byte) k = not (bit_and byte (2 ^ k) == 0)

or_at-IsBytes : (i k : ℕ) (bs : List ℕ) → k < 8 → IsBytes bs → IsBytes (or_at i k bs)
unfolding or_at byte_law
or_at-IsBytes i k [] hk h = tt
or_at-IsBytes zero k (b ∷ bs) hk h = ground (arith, byte_laws b k 0)
or_at-IsBytes (suc i) k (b ∷ bs) hk h = ground (arith, or_at-IsBytes i k bs hk h.1)

or_at_self :
    (i k : ℕ) (bs : List ℕ)
    → k < 8
    → IsBytes bs
    → i < length bs
    → bit_at (get_elem? (or_at i k bs) i) k ≡ true
unfolding or_at byte_law
or_at_self i k [] hk h lt = absurd (omega arith)
or_at_self zero k (b ∷ bs) hk h lt = ground (arith, byte_laws b k 0)
or_at_self (suc i) k (b ∷ bs) hk h lt = or_at_self i k bs hk h.1 (omega arith)

or_at_keeps :
    (i k m j : ℕ) (bs : List ℕ)
    → k < 8
    → j < 8
    → IsBytes bs
    → bit_at (get_elem? bs m) j ≡ true
    → bit_at (get_elem? (or_at i k bs) m) j ≡ true
unfolding or_at byte_law
or_at_keeps i k m j [] hk hj h e = ground arith
or_at_keeps zero k zero j (b ∷ bs) hk hj h e = ground (arith, byte_laws b k j)
or_at_keeps zero k (suc m) j (b ∷ bs) hk hj h e = e
or_at_keeps (suc i) k zero j (b ∷ bs) hk hj h e = e
or_at_keeps (suc i) k (suc m) j (b ∷ bs) hk hj h e = or_at_keeps i k m j bs hk hj h.1 e

length-or_at : (i k : ℕ) (bs : List ℕ) → length (or_at i k bs) ≡ length bs
unfolding or_at
length-or_at i k [] = refl
length-or_at zero k (b ∷ bs) = refl
length-or_at (suc i) k (b ∷ bs) = ap suc (length-or_at i k bs)

has_bit_lem : (bs : List ℕ) (idx : ℕ) → has_bit bs idx ≡ bit_at (get_elem? bs (idx / 8)) (idx % 8)
unfolding has_bit
has_bit_lem bs idx = ground arith

pub set_bit-IsBytes : (idx : ℕ) (bs : List ℕ) → IsBytes bs → IsBytes (set_bit idx bs)
unfolding set_bit
set_bit-IsBytes idx bs h = or_at-IsBytes (idx / 8) (idx % 8) bs (omega arith) h

pub length-set_bit : (idx : ℕ) (bs : List ℕ) → length (set_bit idx bs) ≡ length bs
unfolding set_bit
length-set_bit idx bs = length-or_at (idx / 8) (idx % 8) bs

pub has_bit-set_self :
    (idx : ℕ) (bs : List ℕ) → IsBytes bs → idx / 8 < length bs → has_bit (set_bit idx bs) idx ≡ true
unfolding set_bit
has_bit-set_self idx bs h lt =
    has_bit_lem (or_at (idx / 8) (idx % 8) bs) idx
    ∙ or_at_self (idx / 8) (idx % 8) bs (omega arith) h lt

pub has_bit-set_keeps :
    (idx j : ℕ) (bs : List ℕ) → IsBytes bs → has_bit bs j ≡ true → has_bit (set_bit idx bs) j ≡ true
unfolding set_bit
has_bit-set_keeps idx j bs h e =
    has_bit_lem (or_at (idx / 8) (idx % 8) bs) j
    ∙ or_at_keeps (idx / 8) (idx % 8) (j / 8) (j % 8) bs (omega arith) (omega arith) h
        (sym (has_bit_lem bs j) ∙ e)
