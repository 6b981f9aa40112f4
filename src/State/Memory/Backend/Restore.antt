-- ===== src/State/Memory/Backend/Restore.antt =====
-- The loop of `restore` of crates/flume-state/src/memory.rs.
use Prim.Native.String.{String}
use flume_rs.Base.{
  ◌≡◌, refl, sym, ap, ◌∙◌, [], ◌∷◌, none, some, true, false, set, get_elem?, Bool-cases,
  Option-cases, inl, inr, get_elem?-set_self, get_elem?-set_ne, lt-get_elem?, ◌==◌, arith, subst,
}
use flume_rs.Base.Keys.{string_eq, beq_refl}
use flume_rs.Base.HashMap.{HashMap, get, IsMap}
use flume_rs.Core.Record.{Bytes}
use flume_rs.Core.Result.{ok, for_each}
use flume_rs.State.Codec.{Bitcode}
use flume_rs.State.Memory.{Heap, Content}
use flume_rs.State.Memory.Backend.{ErasedState, MemoryStateBackend, restore_entry}
use flume_rs.State.Memory.Backend.Live.{address, Fits, fresh, Live, Decodes, restore_bytes-Live}

-- No two states of the backend share a mutex.
abbrev pub Apart : MemoryStateBackend → Type 0
Apart b =
    (n m : String) (s t : ErasedState)
    → get n b.states ≡ some s
    → get m b.states ≡ some t
    → address s ≡ address t
    → n ≡ m

module _ {K V : Type 0} (b : MemoryStateBackend) where
  -- The states of the backend are live.
  abbrev pub AllLive : Heap K V → Type 0
  AllLive heap =
      (name : String) (s : ErasedState)
      → get name b.states ≡ some s
      → (c : Content K V) × Live heap s c

  pub Live-other :
      (heap : Heap K V) (n m : String) (s t : ErasedState) (d : Content K V)
      → Apart b
      → get n b.states ≡ some s
      → get m b.states ≡ some t
      → (n == m) ≡ false
      → get_elem? (set heap (address s) (fresh d)) (address t) ≡ get_elem? heap (address t)
  Live-other heap n m s t d apart h k q =
      get_elem?-set_ne heap (address s) (address t) (fresh d)
        (λ e. ground (arith, apart n m s t h k e, (string_eq.equals_iff n m).1))

  pub Live-self :
      (heap : Heap K V) (n m : String) (s t : ErasedState) (c d : Content K V)
      → get n b.states ≡ some s
      → get m b.states ≡ some t
      → (n == m) ≡ true
      → Live heap s c
      → Fits s d
      → Live (set heap (address s) (fresh d)) t d
  Live-self heap n m s t c d h k q live f =
      let e = (string_eq.equals_iff n m).0 q in
      let same = sym h ∙ ap (λ x. get x b.states) e ∙ k in
      subst (λ x. Live (set heap (address s) (fresh d)) x d) (ground arith)
        (f, get_elem?-set_self heap (address s) (fresh d) (lt-get_elem? heap (address s) live.1))

  pub set-AllLive :
      (heap : Heap K V) (n : String) (s : ErasedState) (d : Content K V)
      → Apart b
      → AllLive heap
      → get n b.states ≡ some s
      → Fits s d
      → AllLive (set heap (address s) (fresh d))
  set-AllLive heap n s d apart live h f m t k = elim (Bool-cases (n == m)) [
    | inl q ↦ (d, Live-self heap n m s t (live n s h).0 d h k q (live n s h).1 f)
    | inr q ↦ (
      (live m t k).0,
      ((live m t k).1.0, Live-other heap n m s t d apart h k q ∙ (live m t k).1.1),
    )
  ]

get-tail :
    (n : String) (bytes : Bytes) (table : HashMap String Bytes) (name : String) (found : Bytes)
    → get n table ≡ none
    → get name table ≡ some found
    → get name ((n, bytes) ∷ table) ≡ some found
unfolding get
get-tail n bytes table name found absent e = elim (Bool-cases (n == name)) [
  | inl q ↦
      let gone = subst (λ x. get x table ≡ none) ((string_eq.equals_iff n name).0 q) absent in cc
  | inr q ↦ rw q e
]

module _ {K V : Type 0} (bitcode : Bitcode K V) (b : MemoryStateBackend)
    (Q : String → Content K V → Type 0) where
  -- The entries of a table decode to contents of the states that they name, and these satisfy `Q`.
  abbrev pub Readable : HashMap String Bytes → Type 0
  Readable table =
      (name : String) (bytes : Bytes) (s : ErasedState)
      → get name table ≡ some bytes
      → get name b.states ≡ some s
      → (d : Content K V) × Decodes bitcode bytes s d × Q name d

  -- A state that the table names holds a content that satisfies `Q`, and another what it held.
  abbrev pub Outcome : HashMap String Bytes → Heap K V → Heap K V → Type 0
  Outcome table heap heap' =
      (name : String) (s : ErasedState)
      → get name b.states ≡ some s
      → (get name table ≡ none → get_elem? heap' (address s) ≡ get_elem? heap (address s))
        × ((bytes : Bytes)
            → get name table ≡ some bytes
            → (d : Content K V) × Live heap' s d × Q name d)

  abbrev pub Restored : HashMap String Bytes → Heap K V → Type 0
  Restored table heap =
      (heap' : Heap K V) × (for_each (restore_entry bitcode b) table heap ≡ (ok tt, heap'))
      × AllLive b heap'
      × Outcome table heap heap'

  found_step :
      (n : String) (bytes : Bytes) (table : HashMap String Bytes) (heap : Heap K V)
      (s : ErasedState) (d : Content K V)
      → Apart b
      → AllLive b heap
      → get n table ≡ none
      → get n b.states ≡ some s
      → Decodes bitcode bytes s d
      → Q n d
      → ((heap1 : Heap K V) → AllLive b heap1 → Restored table heap1)
      → Restored ((n, bytes) ∷ table) heap
  unfolding for_each get
  found_step n bytes table heap s d apart live absent h dec q ih =
      let r = restore_bytes-Live bitcode heap s bytes (live n s h).0 d (live n s h).1 dec in
      let t = ih (set heap (address s) (fresh d)) (set-AllLive b heap n s d apart live h r.0) in
      (
        t.0,
        rw (h, r.1) t.1,
        t.2,
        λ name s' k. elim (Bool-cases (n == name)) [
          | inl e ↦
              let here = (string_eq.equals_iff n name).0 e in
              let self = Live-self b heap n name s s' (live n s h).0 d h k e (live n s h).1 r.0 in
              let kept = (t.3 name s' k).0 (subst (λ x. get x table ≡ none) here absent) in
              rw e (λ x. cc, λ bytes' x. (d, (self.0, kept ∙ self.1), subst (λ x. Q x d) here q))
          | inr e ↦ rw e (
            (λ x. (t.3 name s' k).0 x ∙ Live-other b heap n name s s' d apart h k e),
            (t.3 name s' k).1,
          )
        ],
      )

  skip_step :
      (n : String) (bytes : Bytes) (table : HashMap String Bytes) (heap : Heap K V)
      → get n b.states ≡ none
      → Restored table heap
      → Restored ((n, bytes) ∷ table) heap
  unfolding for_each get
  skip_step n bytes table heap h t = (
    t.0,
    rw h t.1,
    t.2,
    λ name s k. elim (Bool-cases (n == name)) [
      | inl e ↦
          absurd (other (sym h ∙ ap (λ x. get x b.states) ((string_eq.equals_iff n name).0 e) ∙ k))
      | inr e ↦ rw e (t.3 name s k)
    ],
  )
    where
      other : {s : ErasedState} → none ≡ some s → ⊥
      other e = cc

  Readable-tail :
      (n : String) (bytes : Bytes) (table : HashMap String Bytes)
      → get n table ≡ none
      → Readable ((n, bytes) ∷ table)
      → Readable table
  Readable-tail n bytes table absent readable name found s e k =
      readable name found s (get-tail n bytes table name found absent e) k

  -- `restore` ends well on a table that can be read.
  pub restore_loop :
      (table : HashMap String Bytes) (heap : Heap K V)
      → Apart b
      → AllLive b heap
      → IsMap table
      → Readable table
      → Restored table heap
  unfolding for_each get
  restore_loop [] heap apart live m readable =
      (heap, refl, live, λ name s k. (λ _. refl, λ bytes e. cc))
  restore_loop ((n, bytes) ∷ table) heap apart live m readable =
      let tail = Readable-tail n bytes table m.0 readable in
      elim (Option-cases (get n b.states)) [
        | inl h ↦ skip_step n bytes table heap h (restore_loop table heap apart live m.1 tail)
        | inr (s, h) ↦
            let r = readable n bytes s (rw (beq_refl n) refl) h in
            found_step n bytes table heap s r.0 apart live m.0 h r.1 r.2
              (λ heap1 live1. restore_loop table heap1 apart live1 m.1 tail)
      ]
