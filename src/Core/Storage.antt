-- ===== src/Core/Storage.antt =====
-- ExprStorage (src/Core/GazerContextImpl.h, src/Core/GazerContext.cpp): the table of a context's
-- expressions. What is compared is the node: the arguments of a constructor, with operands as addresses.
use gazer.Base.{
  ℕ, zero, suc, ◌+◌, ◌-◌, ◌*◌, ◌%◌, ◌≡◌, ◌↔◌, Bool, true, false, List, [], ◌∷◌, Option, none, some,
  Result, ok, fault, Fault, ◌>>=◌, leb, ◌==◌, if◌then◌else◌,
}
use gazer.Support.Graph.{update}
pub mod Rehash
pub mod Chains
pub mod Interned
pub mod Created
pub mod Nodes
pub mod Trees
pub mod Build

-- expr_hasher: equality of nodes, and their hash codes, which LLVM and boost compute.
pub record Hasher (K : Type 0) : Type 0 where
  pub equals : K → K → Bool
  pub hash_value : K → ℕ
  pub equals_iff : (a b : K) → (equals a b ≡ true) ↔ (a ≡ b)

-- An expression in a bucket's list, with its mHashCode.
pub record Entry (K : Type 0) : Type 0 where
  pub address : ℕ
  pub node : K
  pub hash_code : ℕ

pub record Storage (K : Type 0) : Type 0 where
  pub buckets : ℕ → List (Entry K)
  pub bucket_count : ℕ
  pub entry_count : ℕ

abbrev pub default_bucket_count : ℕ
default_bucket_count = 64

unfoldable pub new_storage : {K : Type 0} → Storage K
new_storage = record { buckets = λ i. []; bucket_count = default_bucket_count; entry_count = 0 }

unfoldable pub needs_rehash : ℕ → ℕ → Bool
needs_rehash bucket_count entries = leb (bucket_count * 3) (entries * 4)

module _ {K : Type 0} where
  -- the inner loop of rehashTable, from an entry on: each goes to the front of its new bucket
  unfoldable pub rehash_chain : ℕ → List (Entry K) → (ℕ → List (Entry K)) → ℕ → List (Entry K)
  unfolding update
  rehash_chain size [] fresh = fresh
  rehash_chain size (e ∷ es) fresh =
      rehash_chain size es (update fresh (e.hash_code % size) (e ∷ fresh (e.hash_code % size)))

  -- the new buckets after the first n old ones
  unfoldable pub rehash_buckets : ℕ → (ℕ → List (Entry K)) → ℕ → ℕ → List (Entry K)
  unfolding rehash_chain
  rehash_buckets size old zero = λ i. []
  rehash_buckets size old (suc n) = rehash_chain size (old n) (rehash_buckets size old n)

  unfoldable pub rehash_table : ℕ → Storage K → Storage K
  unfolding rehash_buckets
  rehash_table size s = record s {
    buckets = rehash_buckets size s.buckets s.bucket_count;
    bucket_count = size;
  }

  -- removeFromList: the entry before `expr` is linked to the one after it; at the end of the list a
  -- null pointer is followed
  unfoldable pub unlink : ℕ → List (Entry K) → Result (List (Entry K))
  unlink expr [] = fault Fault.null_pointer
  unlink expr (e ∷ es) = elim (e.address == expr) [
    | true ↦ ok es
    | false ↦ unlink expr es >>= λ rest. ok (e ∷ rest)
  ]

  -- destroy, for an expression with no operands
  unfoldable pub destroy : Entry K → Storage K → Result (Storage K)
  unfolding unlink update
  destroy expr s = do
    rest ← unlink expr.address (s.buckets (expr.hash_code % s.bucket_count))
    ok (record s {
      buckets = update s.buckets (expr.hash_code % s.bucket_count) rest;
      entry_count = s.entry_count - 1;
    })

module _ {K : Type 0} ⦃hasher : Hasher K⦄ where
  -- the loop of createIfNotExists
  unfoldable pub find_entry : K → List (Entry K) → Option ℕ
  find_entry k [] = none
  find_entry k (e ∷ es) =
      let rest = find_entry k es in if hasher.equals e.node k then some e.address else rest

  unfoldable pub add_entry : ℕ → K → Storage K → Storage K
  unfolding update
  add_entry address k s =
      let bucket = hasher.hash_value k % s.bucket_count in
      record s {
        buckets = update s.buckets bucket (
            record { address = address; node = k; hash_code = hasher.hash_value k }
            ∷ s.buckets bucket);
        entry_count = suc s.entry_count;
      }

  unfoldable pub make_room : Storage K → Storage K
  unfolding rehash_table needs_rehash
  make_room s =
      if needs_rehash s.bucket_count (s.entry_count + 1)
      then rehash_table (s.bucket_count * 2) s
      else s

  -- createIfNotExists, with the address that `new` gives
  unfoldable pub create_if_not_exists : ℕ → K → Storage K → ℕ × Storage K
  unfolding find_entry add_entry make_room
  create_if_not_exists address k s =
      elim (find_entry k (s.buckets (hasher.hash_value k % s.bucket_count))) [
        | some found ↦ (found, s)
        | none ↦ (address, add_entry address k (make_room s))
      ]
