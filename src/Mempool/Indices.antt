-- ===== src/Mempool/Indices.antt =====
-- The indices of the pool (mempool.rs) under their updates: what each lookup finds afterwards.
use blockhain_core.Prelude.{
  ℕ, String, ◌≡◌, refl, inl, inr, Bool, true, false, none, some, List, [], ◌∷◌, arith,
  if◌then◌else◌, Option-cases, ◌==◌, ℕ-Eq, String-Eq, Bytes-Eq, Option-Eq, is_empty,
}
use blockhain_core.Map.{Map, get, remove, get_or}
use blockhain_core.Map.Laws.{get-insert, get-remove, get_of_eq}
use blockhain_core.Map.Ordered.{
  insert_ordered, get-insert_ordered, contains, set_insert, set_remove, contains-set_insert,
  contains-set_remove,
}
use blockhain_core.Mempool.Pool.{find_nonce, index_sender, index_fee, unindex_sender, unindex_fee}

-- Is the hash listed under the fee?
abbrev pub fee_has : ℕ → String → Map ℕ (List String) → Bool
fee_has fee hash m = contains hash (get_or fee [] m)

get_nil : (n : ℕ) → get {V = String} n [] ≡ none
unfolding get
get_nil n = refl

pub find-index_sender :
    (from : String) (nonce : ℕ) (hash : String) (s : String) (n : ℕ) (m : Map String (Map ℕ String))
    → find_nonce (get s (index_sender from nonce hash m)) n ≡ (
        if from == s
        then if nonce == n then some hash else find_nonce (get s m) n
        else find_nonce (get s m) n)
unfolding index_sender
find-index_sender from nonce hash s n m =
    let inner = get_or from [] m in
    elim (Option-cases (get from m)) [
      | inl e ↦ ground (
        arith,
        get-insert from s (insert_ordered nonce hash inner) m,
        get-insert_ordered nonce n hash inner,
        get_of_eq from s m,
        get_nil n,
      )
      | inr (w, e) ↦ ground (
        arith,
        get-insert from s (insert_ordered nonce hash inner) m,
        get-insert_ordered nonce n hash inner,
        get_of_eq from s m,
      )
    ]

is_empty-get : (n : ℕ) (m : Map ℕ String) → is_empty m ≡ true → get n m ≡ none
unfolding get
is_empty-get n [] h = refl
is_empty-get n (x ∷ m) h = ground arith

pub find-unindex_sender :
    (from : String) (nonce : ℕ) (s : String) (n : ℕ) (m : Map String (Map ℕ String))
    → find_nonce (get s (unindex_sender from nonce m)) n ≡ (
        if from == s
        then if nonce == n then none else find_nonce (get s m) n
        else find_nonce (get s m) n)
unfolding unindex_sender
find-unindex_sender from nonce s n m = elim (Option-cases (get from m)) [
  | inl e ↦ ground (arith, get_of_eq from s m)
  | inr (inner, e) ↦ ground (
    arith,
    get-remove from s m,
    get-insert from s (remove nonce inner) m,
    get-remove nonce n inner,
    is_empty-get n (remove nonce inner),
    get_of_eq from s m,
  )
]

pub fee_has-index_fee :
    (fee : ℕ) (hash : String) (f : ℕ) (h : String) (m : Map ℕ (List String))
    → fee_has f h (index_fee fee hash m)
      ≡ (if fee == f then if hash == h then true else fee_has f h m else fee_has f h m)
unfolding index_fee
fee_has-index_fee fee hash f h m =
    let inner = get_or fee [] m in
    ground (
      arith,
      get-insert_ordered fee f (set_insert hash inner) m,
      contains-set_insert hash h inner,
      get_of_eq fee f m,
    )

is_empty-contains : (h : String) (hs : List String) → is_empty hs ≡ true → contains h hs ≡ false
unfolding contains
is_empty-contains h [] e = refl
is_empty-contains h (x ∷ m) e = ground arith

contains_nil : (h : String) → contains h [] ≡ false
unfolding contains
contains_nil h = refl

pub fee_has-unindex_fee :
    (fee : ℕ) (hash : String) (f : ℕ) (h : String) (m : Map ℕ (List String))
    → fee_has f h (unindex_fee fee hash m)
      ≡ (if fee == f then if hash == h then false else fee_has f h m else fee_has f h m)
unfolding unindex_fee
fee_has-unindex_fee fee hash f h m = elim (Option-cases (get fee m)) [
  | inl e ↦ ground (arith, get_of_eq fee f m, contains_nil h)
  | inr (inner, e) ↦ ground (
    arith,
    get-remove fee f m,
    get-insert_ordered fee f (set_remove hash inner) m,
    contains-set_remove hash h inner,
    is_empty-contains h (set_remove hash inner),
    get_of_eq fee f m,
    contains_nil h,
  )
]
