-- ===== src/Automaton/Build/Numbers.antt =====
-- The invariant of an automaton under construction, and that the operations keep it.
use gazer.Base.{
  ◌+◌, unsigned_size, ℕ, ◌<◌, ◌≡◌, ◌≢◌, ◌↔◌, refl, sym, ap, ◌∙◌, subst, inl, inr, ◌⊎◌, Bool, true,
  false, List, [], ◌∷◌, ◌++◌, some, ℕ_discrete, Memᴰ, arith,
}
use gazer.Base.Memᴰ
use gazer.Support.Graph.{update, create_node}
use gazer.Support.Graph.Remove.{update_same, update_other}
use gazer.Support.Graph.Linked.{Linked}
use gazer.Automaton.Build.{Automaton, add_location, create_location, create_error_location}

pub record IsBuilt (a : Automaton) : Type 0 where
  pub numbered :
      (l : ℕ)
      → Memᴰ l a.graph.nodes
      → (a.location_numbers (a.id_of l) ≡ some l) × (a.id_of l < a.location_idx)
  pub listed : (i l : ℕ) → a.location_numbers i ≡ some l → Memᴰ l a.graph.nodes × (a.id_of l ≡ i)
  pub sources : (e n : ℕ) → a.graph.source_of e ≡ some n → Memᴰ n a.graph.nodes
  pub targets : (e n : ℕ) → a.graph.target_of e ≡ some n → Memᴰ n a.graph.nodes
  pub linked : Linked a.graph

-- The list of error locations has the locations that are errors.
pub record HasErrors (a : Automaton) : Type 0 where
  pub errors : (l : ℕ) → Memᴰ l a.error_locations ↔ (Memᴰ l a.graph.nodes × (a.is_error l ≡ true))

module _ (loc : ℕ) (a : Automaton) (fresh : ¬ Memᴰ loc a.graph.nodes) where
  old_or_new :
      (l : ℕ)
      → Memᴰ l (a.graph.nodes ++ loc ∷ [])
      → ((l ≡ loc) × Unit {0}) ⊎ (Memᴰ l a.graph.nodes × (l ≢ loc))
  old_or_new l m = elim (Memᴰ.append_cases a.graph.nodes m) [
    | inl old ↦ inr (old, λ is. fresh (subst (λ k. Memᴰ k a.graph.nodes) is old))
    | inr new ↦ inl (Memᴰ.eq_of_singleton new, tt)
  ]

  kept : (l : ℕ) → Memᴰ l a.graph.nodes → l ≢ loc
  kept l m is = fresh (subst (λ k. Memᴰ k a.graph.nodes) is m)

  -- The lists of the new location are empty, the others are as before.
  emptied-mem : (lists : ℕ → List ℕ) (n e : ℕ) → Memᴰ e (update lists loc [] n) → Memᴰ e (lists n)
  emptied-mem lists n e m = elim (ℕ_discrete n loc) [
    | yes is ↦ absurd (
        Memᴰ.not-nil
          (subst (λ l. Memᴰ e l) (ap (update lists loc []) is ∙ update_same lists loc []) m))
    | no other ↦ subst (λ l. Memᴰ e l) (update_other lists loc n [] other) m
  ]

  mem-emptied :
      (lists : ℕ → List ℕ) (n e : ℕ) → n ≢ loc → Memᴰ e (lists n) → Memᴰ e (update lists loc [] n)
  mem-emptied lists n e other m = subst (λ l. Memᴰ e l) (sym (update_other lists loc n [] other)) m

  create_node-Linked : IsBuilt a → Linked (create_node loc a.graph)
  unfolding create_node
  create_node-Linked b = record {
    outgoing_ends = λ n e m. b.linked.outgoing_ends n e (emptied-mem a.graph.outgoing n e m);
    outgoing_has = λ n t e h h'.
        mem-emptied a.graph.outgoing n e (kept n (b.sources e n h))
          (b.linked.outgoing_has n t e h h');
    incoming_ends = λ n e m. b.linked.incoming_ends n e (emptied-mem a.graph.incoming n e m);
    incoming_has = λ n s e h h'.
        mem-emptied a.graph.incoming n e (kept n (b.targets e n h'))
          (b.linked.incoming_has n s e h h');
  }

  pub add_location-IsBuilt :
      (error : Bool)
      → a.location_idx + 1 < unsigned_size
      → IsBuilt a
      → IsBuilt (add_location loc error a)
  unfolding add_location create_node
  add_location-IsBuilt error few b = record {
    numbered = λ l m. elim (old_or_new l m) [
      | inl (is, _) ↦
          let id =
            ap (update a.id_of loc a.location_idx) is ∙ update_same a.id_of loc a.location_idx in
          (
            ap (update a.location_numbers a.location_idx (some loc)) id
                ∙ update_same a.location_numbers a.location_idx (some loc)
                ∙ ap (λ k. some k) (sym is),
            omega (arith, id),
          )
      | inr (old, other) ↦
          let (number, below) = b.numbered l old in
          let id = update_other a.id_of loc l a.location_idx other in
          (
            ap (update a.location_numbers a.location_idx (some loc)) id
                ∙ update_other a.location_numbers a.location_idx (a.id_of l) (some loc)
                    (omega arith)
                ∙ number,
            omega (arith, id, below),
          )
    ];
    listed = λ i l h. elim (ℕ_discrete i a.location_idx) [
      | yes is ↦
          let at =
            ap (update a.location_numbers a.location_idx (some loc)) is
            ∙ update_same a.location_numbers a.location_idx (some loc) in
          let same : l ≡ loc = cc in
          (
            subst (λ k. Memᴰ k (a.graph.nodes ++ loc ∷ [])) (sym same)
                (Memᴰ.append_right a.graph.nodes (Memᴰ.head refl)),
            ap (update a.id_of loc a.location_idx) same
                ∙ update_same a.id_of loc a.location_idx
                ∙ sym is,
          )
      | no other ↦
          let (m, id) =
            b.listed i l
              (sym (update_other a.location_numbers a.location_idx i (some loc) other) ∙ h) in
          (Memᴰ.append_left (loc ∷ []) m, update_other a.id_of loc l a.location_idx (kept l m) ∙ id)
    ];
    sources = λ e n h. Memᴰ.append_left (loc ∷ []) (b.sources e n h);
    targets = λ e n h. Memᴰ.append_left (loc ∷ []) (b.targets e n h);
    linked = create_node-Linked b;
  }

  pub create_location-HasErrors : HasErrors a → HasErrors (create_location loc a)
  unfolding create_location add_location create_node
  create_location-HasErrors h = record {
    errors = λ l. (
      (λ m.
          let (there, error) = (h.errors l).0 m in
          (
            Memᴰ.append_left (loc ∷ []) there,
            update_other a.is_error loc l false (kept l there) ∙ error,
          )),
      (λ (m, error). elim (old_or_new l m) [
        | inl (is, _) ↦
            let no_error = ap (update a.is_error loc false) is ∙ update_same a.is_error loc false in
            absurd (cc)
        | inr (old, other) ↦
            (h.errors l).1 (old, sym (update_other a.is_error loc l false other) ∙ error)
      ]),
    );
  }

  pub create_error_location-HasErrors : HasErrors a → HasErrors (create_error_location loc a)
  unfolding create_error_location add_location create_node
  create_error_location-HasErrors h = record {
    errors = λ l. (
      (λ m. elim (Memᴰ.append_cases a.error_locations m) [
        | inl old ↦
            let (there, error) = (h.errors l).0 old in
            (
              Memᴰ.append_left (loc ∷ []) there,
              update_other a.is_error loc l true (kept l there) ∙ error,
            )
        | inr new ↦
            let is = Memᴰ.eq_of_singleton new in
            (
              subst (λ k. Memᴰ k (a.graph.nodes ++ loc ∷ [])) (sym is)
                  (Memᴰ.append_right a.graph.nodes (Memᴰ.head refl)),
              ap (update a.is_error loc true) is ∙ update_same a.is_error loc true,
            )
      ]),
      (λ (m, error). elim (old_or_new l m) [
        | inl (is, _) ↦
            subst (λ k. Memᴰ k (a.error_locations ++ loc ∷ [])) (sym is)
              (Memᴰ.append_right a.error_locations (Memᴰ.head refl))
        | inr (old, other) ↦
            Memᴰ.append_left (loc ∷ [])
              ((h.errors l).1 (old, sym (update_other a.is_error loc l true other) ∙ error))
      ]),
    );
  }
