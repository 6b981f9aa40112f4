-- ===== src/State/Memory/Backend/Fresh.antt =====
-- The operations of crates/flume-state/src/memory.rs that create states.
use Prim.Native.String.{String}
use flume_rs.Base.{
  some_inj, ℕ, ◌≡◌, ◌≢◌, ◌⊎◌, refl, sym, ap, ◌∙◌, [], ◌∷◌, ◌++◌, none, some, true, false, length,
  if◌then◌else◌, Bool-cases, Option-cases, inl, inr, get_elem?-append_left, get_elem?-append_last,
  lt-get_elem?, ◌==◌, arith, subst,
}
use flume_rs.Base.Keys.{string_eq}
use flume_rs.Base.HashMap.{get, get-insert, get-insert_self, insert-IsMap}
use flume_rs.Core.Result.{FlumeResult, ok, err, state, return, ◌>>=◌}
use flume_rs.State.Memory.{
  Heap, Content, value, list, entries, MemoryValueState, MemoryListState, MemoryMapState,
}
use flume_rs.State.Memory.Backend.{
  ErasedState, value_state, list_state, map_state, MemoryStateBackend, create, create_value_state,
  create_list_state, create_map_state, add_state,
}
use flume_rs.State.Memory.Backend.Live.{address, Fits, value_fits, list_fits, map_fits, fresh, Live}
use flume_rs.State.Memory.Backend.Restore.{AllLive, Apart}
use flume_rs.State.Memory.Backend.RoundTrip.{IsValid}

abbrev pub value_handle : ℕ → MemoryValueState
value_handle a = record { inner = a }

abbrev pub list_handle : ℕ → MemoryListState
list_handle a = record { inner = a }

abbrev pub map_handle : ℕ → MemoryMapState
map_handle a = record { inner = a }

module _ {K V : Type 0} (name : String) (b : MemoryStateBackend) (heap : Heap K V) where
  -- What the three functions that create a state do: a name that is taken is refused and nothing
  -- changes; another gets a state of its own, with the initial content.
  abbrev pub Created :
      {H : Type 0}
      → (ℕ → H)
      → (ℕ → ErasedState)
      → Content K V
      → FlumeResult H × (MemoryStateBackend × Heap K V)
      → Type 0
  Created handle erase c (r, (b', heap')) =
      (get name b.states ≢ none → (r ≡ err state) × (b' ≡ b) × (heap' ≡ heap))
      × (get name b.states ≡ none
          → (a : ℕ) × (r ≡ ok (handle a))
            × IsValid b' heap'
            × (get name b'.states ≡ some (erase a))
            × Live heap' (erase a) c
            × ((m : String) (s : ErasedState) (d : Content K V)
                → get m b.states ≡ some s
                → Live heap s d
                → (get m b'.states ≡ some s) × Live heap' s d))

  abbrev grown : Content K V → Heap K V
  grown c = heap ++ fresh c ∷ []

  grown-Live : (c d : Content K V) (s : ErasedState) → Live heap s d → Live (grown c) s d
  grown-Live c d s h = (
    h.0,
    get_elem?-append_left heap (fresh c ∷ []) (address s) (lt-get_elem? heap (address s) h.1) ∙ h.1,
  )

  module _ (erase : ℕ → ErasedState) (c : Content K V) (valid : IsValid b heap)
      (fits : Fits (erase (length heap)) c) (at : address (erase (length heap)) ≡ length heap)
      (absent : get name b.states ≡ none) where
    abbrev extended : MemoryStateBackend
    extended = add_state name (erase (length heap)) b

    new-Live : Live (grown c) (erase (length heap)) c
    new-Live = (fits, get_elem?-append_last heap (fresh c) _ at)

    get-extended :
        (m : String) (s : ErasedState)
        → get m extended.states ≡ some s
        → ((name ≡ m) × (erase (length heap) ≡ s)) ⊎ (get m b.states ≡ some s)
    get-extended m s h =
        let g = sym (get-insert name m (erase (length heap)) b.states) ∙ h in
        elim (Bool-cases (name == m)) [
          | inl q ↦ inl ((string_eq.equals_iff name m).0 q, some_inj (sym (picked_yes q) ∙ g))
          | inr q ↦ inr (sym (picked_no q) ∙ g)
        ]
      where
        picked_yes :
            (name == m) ≡ true
            → (if name == m then some (erase (length heap)) else get m b.states)
              ≡ some (erase (length heap))
        picked_yes q = rw q refl

        picked_no :
            (name == m) ≡ false
            → (if name == m then some (erase (length heap)) else get m b.states) ≡ get m b.states
        picked_no q = rw q refl

    extended-live : AllLive extended (grown c)
    extended-live m s h = elim (get-extended m s h) [
      | inl (e, q) ↦ (c, subst (λ x. Live (grown c) x c) q new-Live)
      | inr k ↦ ((valid.live m s k).0, grown-Live c (valid.live m s k).0 s (valid.live m s k).1)
    ]

    old-ne : (m : String) (s : ErasedState) → get m b.states ≡ some s → address s ≢ length heap
    old-ne m s h e =
        let l = lt-get_elem? heap (address s) (valid.live m s h).1.1 in omega (arith, l, e)

    extended-Apart : Apart extended
    extended-Apart n m s t h k e = elim (get-extended n s h) [
      | inl (p, q) ↦ elim (get-extended m t k) [
        | inl (p', q') ↦ sym p ∙ p'
        | inr k' ↦ absurd (old-ne m t k' (sym e ∙ sym (ap address q) ∙ at))
      ]
      | inr h' ↦ elim (get-extended m t k) [
        | inl (p', q') ↦ absurd (old-ne n s h' (e ∙ sym (ap address q') ∙ at))
        | inr k' ↦ valid.apart n m s t h' k' e
      ]
    ]

    kept : (m : String) (s : ErasedState) → get m b.states ≡ some s → get m extended.states ≡ some s
    kept m s h = get-insert name m (erase (length heap)) b.states ∙ elim (Bool-cases (name == m)) [
      | inl q ↦
          absurd
            (clash (sym absent ∙ ap (λ x. get x b.states) ((string_eq.equals_iff name m).0 q) ∙ h))
      | inr q ↦ rw q h
    ]
      where
        clash : none ≡ some s → ⊥
        clash e = cc

    fresh-Created :
        {H : Type 0} (handle : ℕ → H)
        → Created handle erase c ((create name c erase >>= λ a. return (handle a)) (b, heap))
    fresh-Created handle = rw absent (
      (λ n. absurd (n refl)),
      λ _. (
        length heap,
        refl,
        record {
          is_map = insert-IsMap name (erase (length heap)) b.states valid.is_map;
          live = extended-live;
          apart = extended-Apart;
        },
        get-insert_self name (erase (length heap)) b.states,
        new-Live,
        λ m s d h k. (kept m s h, grown-Live c d s k),
      ),
    )

  create-Created :
      {H : Type 0} (handle : ℕ → H) (erase : ℕ → ErasedState) (c : Content K V)
      → IsValid b heap
      → Fits (erase (length heap)) c
      → address (erase (length heap)) ≡ length heap
      → Created handle erase c ((create name c erase >>= λ a. return (handle a)) (b, heap))
  create-Created handle erase c valid fits at = elim (Option-cases (get name b.states)) [
    | inl absent ↦ fresh-Created erase c valid fits at absent handle
    | inr (s, taken) ↦ rw taken ((λ n. (refl, refl, refl)), λ e. cc)
  ]

  -- In a valid backend, creating a value, list or map state under a name that is taken is refused
  -- with a state error and changes nothing; under another name it succeeds, the backend stays
  -- valid, its new state holds no value, no elements or no entries, and every other state keeps its
  -- name and what it held.
  pub create_lem :
      IsValid b heap
      → Created value_handle (λ a. value_state a) (value none) (create_value_state name (b, heap))
        × Created list_handle (λ a. list_state a) (list []) (create_list_state name (b, heap))
        × Created map_handle (λ a. map_state a) (entries []) (create_map_state name (b, heap))
  unfolding create_value_state create_list_state create_map_state
  create_lem valid = (
    create-Created value_handle (λ a. value_state a) (value none) valid (value_fits _ _) refl,
    create-Created list_handle (λ a. list_state a) (list []) valid (list_fits _ _) refl,
    create-Created map_handle (λ a. map_state a) (entries []) valid (map_fits _ _) refl,
  )
