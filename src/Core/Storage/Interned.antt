-- ===== src/Core/Storage/Interned.antt =====
-- The invariant of the table, and what makes room in it and adds an entry to it.
use gazer.Base.{
  ℕ, suc, ◌+◌, ◌*◌, ◌≤◌, ◌<◌, ◌%◌, ◌≡◌, ◌≢◌, refl, sym, ap, ◌∙◌, subst, inl, inr, ◌⊎◌, false,
  Bool-cases, Memᴰ, arith,
}
use gazer.Core.Storage.{Hasher, Entry, Storage, needs_rehash, rehash_table, add_entry, make_room}
use gazer.Core.Storage.Chains.{pushed-mem, mem-pushed, mem-pushed_new, total, total-pushed}
use gazer.Core.Storage.Rehash.{rehash_buckets-mem, mem-rehash_buckets, total-rehash_buckets}

-- The expression is in some bucket.
unfoldable pub Stored : {K : Type 0} → Storage K → Entry K → Type 0
Stored s e = (i : ℕ) × Memᴰ e (s.buckets i)

-- No live expression is at the address.
unfoldable pub IsFresh : {K : Type 0} → Storage K → ℕ → Type 0
IsFresh {K} s address = (e : Entry K) → Stored s e → e.address ≢ address

doubled : (n b : ℕ) → n * 4 < b * 3 → 2 ≤ b → suc n * 4 < b * 2 * 3
doubled n b load two = omega arith

unfilled : (n b : ℕ) → needs_rehash b (n + 1) ≡ false → suc n * 4 < b * 3
unfolding needs_rehash
unfilled n b h = ground arith

module _ {K : Type 0} ⦃hasher : Hasher K⦄ where
  -- Every expression is in the bucket of its hash code, no two have one node or one address, and the
  -- count of entries is right.
  pub record IsTable (s : Storage K) : Type 0 where
    pub hashed :
        (i : ℕ) (e : Entry K)
        → Memᴰ e (s.buckets i)
        → (e.hash_code ≡ hasher.hash_value e.node) × (e.hash_code % s.bucket_count ≡ i)
    pub by_node : (e f : Entry K) → Stored s e → Stored s f → e.node ≡ f.node → e ≡ f
    pub by_address : (e f : Entry K) → Stored s e → Stored s f → e.address ≡ f.address → e ≡ f
    pub counted : total s.bucket_count s.buckets ≡ s.entry_count
    pub two_buckets : 2 ≤ s.bucket_count

  -- A table with less than three entries for four buckets.
  pub record IsInterned (s : Storage K) : Type 0 where
    pub table : IsTable s
    pub load : s.entry_count * 4 < s.bucket_count * 3

  Stored-rehash :
      (s : Storage K) (size : ℕ) (e : Entry K)
      → IsTable s
      → Stored s e
      → Stored (rehash_table size s) e
  unfolding Stored rehash_table
  Stored-rehash s size e t (i, m) =
      let (_, at) = t.hashed i e m in
      let two = t.two_buckets in
      (
        e.hash_code % size,
        mem-rehash_buckets size s.buckets s.bucket_count i e
            (subst (λ j. j < s.bucket_count) at (omega arith)) m,
      )

  Stored-before :
      (s : Storage K) (size : ℕ) (e : Entry K) → Stored (rehash_table size s) e → Stored s e
  unfolding Stored rehash_table
  Stored-before s size e (i, m) = (rehash_buckets-mem size s.buckets s.bucket_count i e m).0

  rehash_table-IsTable :
      (s : Storage K) (size : ℕ) → 2 ≤ size → IsTable s → IsTable (rehash_table size s)
  unfolding rehash_table
  rehash_table-IsTable s size two t = record {
    hashed = λ i e m.
        let ((j, there), at) = rehash_buckets-mem size s.buckets s.bucket_count i e m in
        ((t.hashed j e there).0, at);
    by_node = λ e f a b. t.by_node e f (Stored-before s size e a) (Stored-before s size f b);
    by_address = λ e f a b. t.by_address e f (Stored-before s size e a) (Stored-before s size f b);
    counted = total-rehash_buckets size s.buckets s.bucket_count (omega arith) ∙ t.counted;
    two_buckets = two;
  }

  -- make_room leaves the expressions as they are, and room for one more.
  pub record Roomy (s r : Storage K) : Type 0 where
    pub table : IsTable r
    pub stays : (e : Entry K) → Stored s e → Stored r e
    pub before : (e : Entry K) → Stored r e → Stored s e
    pub room : suc r.entry_count * 4 < r.bucket_count * 3

  pub make_room-Roomy : (s : Storage K) → IsInterned s → Roomy s (make_room s)
  unfolding make_room
  make_room-Roomy s i = elim (Bool-cases (needs_rehash s.bucket_count (s.entry_count + 1))) [
    | inl full ↦ rw full record {
      table =
          rehash_table-IsTable s (s.bucket_count * 2) (omega (arith, i.table.two_buckets)) i.table;
      stays = λ e at. Stored-rehash s (s.bucket_count * 2) e i.table at;
      before = λ e at. Stored-before s (s.bucket_count * 2) e at;
      room = doubled s.entry_count s.bucket_count i.load i.table.two_buckets;
    }
    | inr space ↦ rw space record {
      table = i.table;
      stays = λ e at. at;
      before = λ e at. at;
      room = unfilled s.entry_count s.bucket_count space;
    }
  ]

  abbrev pub new_entry : ℕ → K → Entry K
  new_entry address k = record { address = address; node = k; hash_code = hasher.hash_value k }

  pub added_room :
      (address : ℕ) (k : K) (s : Storage K)
      → suc s.entry_count * 4 < s.bucket_count * 3
      → (add_entry address k s).entry_count * 4 < (add_entry address k s).bucket_count * 3
  unfolding add_entry
  added_room address k s h = h

  pub Stored-add_entry :
      (address : ℕ) (k : K) (s : Storage K) (e : Entry K)
      → Stored s e
      → Stored (add_entry address k s) e
  unfolding Stored add_entry
  Stored-add_entry address k s e (i, m) =
      (i, mem-pushed s.buckets (hasher.hash_value k % s.bucket_count) (new_entry address k) i e m)

  pub Stored-added :
      (address : ℕ) (k : K) (s : Storage K) → Stored (add_entry address k s) (new_entry address k)
  unfolding Stored add_entry
  Stored-added address k s = (
    hasher.hash_value k % s.bucket_count,
    mem-pushed_new s.buckets (hasher.hash_value k % s.bucket_count) (new_entry address k),
  )

  pub added-Stored :
      (address : ℕ) (k : K) (s : Storage K) (e : Entry K)
      → Stored (add_entry address k s) e
      → (e ≡ new_entry address k) ⊎ Stored s e
  unfolding Stored add_entry
  added-Stored address k s e (i, m) =
      elim (pushed-mem s.buckets (hasher.hash_value k % s.bucket_count) (new_entry address k) i e
        m) [ inl (is, at) ↦ inl is | inr there ↦ inr (i, there) ]

  module _ (address : ℕ) (k : K) (s : Storage K) (t : IsTable s) where
    -- A key that tells the new entry from the old ones tells all of them apart.
    keyed :
        {V : Type 0} (key : Entry K → V)
        → ((e f : Entry K) → Stored s e → Stored s f → key e ≡ key f → e ≡ f)
        → ((e : Entry K) → Stored s e → key e ≢ key (new_entry address k))
        → (e f : Entry K) → Stored (add_entry address k s) e
        → Stored (add_entry address k s) f
        → key e ≡ key f
        → e ≡ f
    keyed key old apart e f a b same = elim (added-Stored address k s e a) [
      | inl is ↦ elim (added-Stored address k s f b) [
        | inl is' ↦ is ∙ sym is'
        | inr at ↦ absurd (apart f at (sym same ∙ ap key is))
      ]
      | inr at ↦ elim (added-Stored address k s f b) [
        | inl is' ↦ absurd (apart e at (same ∙ ap key is'))
        | inr at' ↦ old e f at at' same
      ]
    ]

    pub add_entry-IsTable :
        ((e : Entry K) → Stored s e → e.node ≢ k)
        → IsFresh s address
        → IsTable (add_entry address k s)
    unfolding add_entry IsFresh
    add_entry-IsTable new_node fresh = record {
      hashed = λ i e m.
          elim (pushed-mem s.buckets (hasher.hash_value k % s.bucket_count) (new_entry address k) i
            e m) [
              | inl (is, at) ↦ (
                subst (λ (f : Entry K). f.hash_code ≡ hasher.hash_value f.node) (sym is) refl,
                ap (λ (f : Entry K). f.hash_code % s.bucket_count) is ∙ at,
              )
              | inr there ↦ t.hashed i e there
            ];
      by_node = keyed (λ e. e.node) t.by_node new_node;
      by_address = keyed (λ e. e.address) t.by_address fresh;
      counted =
          let two = t.two_buckets in
          total-pushed s.buckets (hasher.hash_value k % s.bucket_count) (new_entry address k)
            s.bucket_count (omega arith)
          ∙ ap suc t.counted;
      two_buckets = t.two_buckets;
    }
