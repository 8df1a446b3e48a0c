-- ===== src/Core/Storage/Created.antt =====
-- createIfNotExists: the table of a context has one expression for each node.
use gazer.Base.{
  ℕ, ◌*◌, ◌<◌, ◌%◌, ◌≡◌, ◌≢◌, ◌↔◌, refl, sym, ap, ◌∙◌, subst, inl, inr, Option-cases, List, [], ◌∷◌,
  none, some, Memᴰ, arith,
}
use gazer.Base.Memᴰ
use gazer.Core.Storage.{
  Hasher, Entry, Storage, find_entry, add_entry, make_room, create_if_not_exists, new_storage,
}
use gazer.Core.Storage.Chains.{find_entry-some, find_entry-none, total, total-empty}
use gazer.Core.Storage.Interned.{
  Stored, IsFresh, IsTable, IsInterned, make_room-Roomy, new_entry, added_room, Stored-add_entry,
  Stored-added, add_entry-IsTable,
}

module _ {K : Type 0} ⦃hasher : Hasher K⦄ where
  -- The invariant, the expression that is created or found, and the ones that were there.
  pub record Made (s : Storage K) (k : K) (made : ℕ × Storage K) : Type 0 where
    pub interned : IsInterned made.1
    pub has_node : (e : Entry K) × Stored made.1 e × (e.node ≡ k) × (e.address ≡ made.0)
    pub stays : (e : Entry K) → Stored s e → Stored made.1 e

  found_lem :
      (address : ℕ) (k : K) (s : Storage K) (found : ℕ)
      → find_entry k (s.buckets (hasher.hash_value k % s.bucket_count)) ≡ some found
      → create_if_not_exists address k s ≡ (found, s)
  unfolding create_if_not_exists
  found_lem address k s found h = rw (h, create_if_not_exists) refl

  not_found_lem :
      (address : ℕ) (k : K) (s : Storage K)
      → find_entry k (s.buckets (hasher.hash_value k % s.bucket_count)) ≡ none
      → create_if_not_exists address k s ≡ (address, add_entry address k (make_room s))
  unfolding create_if_not_exists
  not_found_lem address k s h = rw (h, create_if_not_exists) refl

  -- The search in the bucket of a node's hash code is a search in the table.
  no_node :
      (k : K) (s : Storage K)
      → IsTable s
      → find_entry k (s.buckets (hasher.hash_value k % s.bucket_count)) ≡ none
      → (e : Entry K) → Stored s e
      → e.node ≢ k
  unfolding Stored
  no_node k s t h e (i, m) is =
      let (code, at) = t.hashed i e m in
      let home = ap (λ c. c % s.bucket_count) (sym (code ∙ ap hasher.hash_value is)) ∙ at in
      find_entry-none k (s.buckets (hasher.hash_value k % s.bucket_count)) h e
        (subst (λ j. Memᴰ e (s.buckets j)) (sym home) m) is

  pub create_if_not_exists-Made :
      (address : ℕ) (k : K) (s : Storage K)
      → IsInterned s
      → IsFresh s address
      → Made s k (create_if_not_exists address k s)
  unfolding Stored IsFresh
  create_if_not_exists-Made address k s i fresh =
      elim (Option-cases (find_entry k (s.buckets (hasher.hash_value k % s.bucket_count)))) [
        | inr (found, is) ↦ subst (Made s k) (sym (found_lem address k s found is)) (
            let (e, m, node, at) =
              find_entry-some k (s.buckets (hasher.hash_value k % s.bucket_count)) found is in
            record {
              interned = i;
              has_node = (e, (hasher.hash_value k % s.bucket_count, m), node, at);
              stays = λ e at. at;
            })
        | inl none_there ↦ subst (Made s k) (sym (not_found_lem address k s none_there)) (
            let roomy = make_room-Roomy s i in
            record {
              interned = record {
                table =
                    add_entry-IsTable address k (make_room s) roomy.table
                      (λ e at. no_node k s i.table none_there e (roomy.before e at))
                      (λ e at. fresh e (roomy.before e at));
                load = added_room address k (make_room s) roomy.room;
              };
              has_node = (new_entry address k, Stored-added address k (make_room s), refl, refl);
              stays = λ e at. Stored-add_entry address k (make_room s) e (roomy.stays e at);
            })
      ]

  -- In a table with one expression for each node and one for each address, each in the bucket of its
  -- hash code, with the right count and less than three entries for four buckets, creation at an address
  -- that no expression has keeps this, and returns the address of an expression with the node.
  pub create_if_not_exists-IsInterned :
      (address : ℕ) (k : K) (s : Storage K)
      → IsInterned s
      → IsFresh s address
      → IsInterned (create_if_not_exists address k s).1
        × ((e : Entry K) × Stored (create_if_not_exists address k s).1 e
            × (e.node ≡ k)
            × (e.address ≡ (create_if_not_exists address k s).0))
  create_if_not_exists-IsInterned address k s i fresh =
      let made = create_if_not_exists-Made address k s i fresh in (made.interned, made.has_node)

  -- Creations in order, each with the address of a new expression.
  abbrev pub create_all : List (ℕ × K) → Storage K → Storage K
  create_all [] s = s
  create_all ((address, k) ∷ rest) s = create_all rest (create_if_not_exists address k s).1

  abbrev pub FreshAlong : List (ℕ × K) → Storage K → Type 0
  FreshAlong [] s = Unit
  FreshAlong ((address, k) ∷ rest) s =
      IsFresh s address × FreshAlong rest (create_if_not_exists address k s).1

  create_all-keeps :
      (requests : List (ℕ × K)) (s : Storage K)
      → IsInterned s
      → FreshAlong requests s
      → IsInterned (create_all requests s)
        × ((e : Entry K) → Stored s e → Stored (create_all requests s) e)
  create_all-keeps [] s i fresh = (i, λ e at. at)
  create_all-keeps ((address, k) ∷ rest) s i (fresh, later) =
      let made = create_if_not_exists-Made address k s i fresh in
      let (i', kept) =
        create_all-keeps rest (create_if_not_exists address k s).1 made.interned later in
      (i', λ e at. kept e (made.stays e at))

  -- In a table with one expression for each node and one for each address, each in the bucket of its
  -- hash code, with the right count and less than three entries for four buckets, two creations, with any
  -- others between them, all at addresses that no expression has, give one address exactly where they
  -- are of one node.
  pub create_if_not_exists-same :
      (s : Storage K) (a b : ℕ) (k k' : K) (between : List (ℕ × K))
      → IsInterned s
      → IsFresh s a
      → FreshAlong between (create_if_not_exists a k s).1
      → IsFresh (create_all between (create_if_not_exists a k s).1) b
      → ((create_if_not_exists a k s).0
          ≡ (create_if_not_exists b k' (create_all between (create_if_not_exists a k s).1)).0)
        ↔ (k ≡ k')
  create_if_not_exists-same s a b k k' between i fresh along fresh' =
      let first = create_if_not_exists-Made a k s i fresh in
      let (i', kept) =
        create_all-keeps between (create_if_not_exists a k s).1 first.interned along in
      let second =
        create_if_not_exists-Made b k' (create_all between (create_if_not_exists a k s).1) i'
          fresh' in
      let (e, there, node, at) = first.has_node in
      let (f, there', node', at') = second.has_node in
      let stored = second.stays e (kept e there) in
      let table = second.interned.table in
      (
        λ same.
            sym node
            ∙ ap (λ (x : Entry K). x.node)
                (table.by_address e f stored there' (at ∙ same ∙ sym at'))
            ∙ node',
        λ same.
            sym at
            ∙ ap (λ (x : Entry K). x.address)
                (table.by_node e f stored there' (node ∙ same ∙ sym node'))
            ∙ at',
      )

  pub new_storage-IsInterned : IsInterned (new_storage {K = K})
  unfolding new_storage Stored
  new_storage-IsInterned = record {
    table = record {
      hashed = λ i e m. absurd (Memᴰ.not-nil m);
      by_node = λ e f (i, m) b same. absurd (Memᴰ.not-nil m);
      by_address = λ e f (i, m) b same. absurd (Memᴰ.not-nil m);
      counted = total-empty (Entry K) 64;
      two_buckets = omega arith;
    };
    load = omega arith;
  }

  -- Whatever is created in a new table, at addresses that no expression has, its lists hold less than
  -- three entries for four buckets.
  pub create_all-load :
      (requests : List (ℕ × K))
      → FreshAlong requests new_storage
      → total
            (create_all requests new_storage).bucket_count
            (create_all requests new_storage).buckets
          * 4
        < (create_all requests new_storage).bucket_count * 3
  create_all-load requests fresh =
      let (i, _) = create_all-keeps requests new_storage new_storage-IsInterned fresh in
      let count = i.table.counted in let load = i.load in omega arith
