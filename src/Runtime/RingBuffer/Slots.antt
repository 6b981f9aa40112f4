-- ===== src/Runtime/RingBuffer/Slots.antt =====
-- The slots of ring_buffer.rs, numbered by sequence numbers: which of them hold a value.
use native.Mathlib.Nat.{add-mul-mod_self_left}
use flume_rs.Base.{
  ℕ, zero, suc, ◌+◌, ◌-◌, ◌*◌, ◌%◌, ◌≤◌, ◌<◌, ◌≡◌, ◌≢◌, ◌⊎◌, inl, inr, refl, ap, sym, ◌∙◌, List, [],
  ◌∷◌, ◌++◌, Option, none, some, get_elem?, get_elem?-append_left, get_elem?-append_last, length,
  take, eqb_iff, arith,
}
use flume_rs.Base.Bits.{mod-ne}
use flume_rs.Runtime.RingBuffer.{put}

apart : (n s t : ℕ) → s < t → t < s + n → t % n ≢ s % n
apart n s t h k e = mod-ne n s (t - s) (omega arith) (omega arith) (ap (λ x. x % n) joined ∙ e)
  where
    joined : s + (t - s) ≡ t
    joined = omega arith

wraps : (s n : ℕ) → (s + n) % n ≡ s % n
wraps s n = ap (λ x. x % n) once ∙ add-mul-mod_self_left s n 1
  where
    once : s + n ≡ s + n * 1
    once = omega arith

below_or_last : (s n : ℕ) → s < suc n → (s < n) ⊎ (s ≡ n)
below_or_last s n h = ground arith

module _ {T : Type 0} where
  pub take-append : (xs ys : List T) (i : ℕ) → i ≤ length xs → take i (xs ++ ys) ≡ take i xs
  take-append xs ys zero h = refl
  take-append [] ys (suc i) h = elim h [ ]
  take-append (x ∷ xs) ys (suc i) h = ap (◌∷◌ x) (take-append xs ys i (omega arith))

  pub take-suc :
      (xs : List T) (x : T) (i : ℕ)
      → get_elem? xs i ≡ some x
      → take (suc i) xs ≡ take i xs ++ x ∷ []
  take-suc [] x i h = cc
  take-suc (y ∷ xs) x zero h = ground arith
  take-suc (y ∷ xs) x (suc i) h = ap (◌∷◌ y) (take-suc xs x i h)

  -- With `n` slots, the numbers from `first` to below `last` hold their values, and the others of
  -- the `n` numbers from `first` on are empty.
  pub record Holds (n : ℕ) (slots : ℕ → Option T) (first last : ℕ) (values : List T) : Type 0 where
    pub held : (s : ℕ) → first ≤ s → s < last → slots (s % n) ≡ get_elem? values s
    pub vacant : (s : ℕ) → last ≤ s → s < first + n → slots (s % n) ≡ none

  put_other : (slots : ℕ → Option T) (i j : ℕ) (o : Option T) → i ≢ j → put slots i o j ≡ slots j
  put_other slots i j o h = ground (arith, eqb_iff i j)

  put_self : (slots : ℕ → Option T) (i : ℕ) (o : Option T) → put slots i o i ≡ o
  put_self slots i o = ground (arith, eqb_iff i i)

  pub put-Holds :
      (n : ℕ) (slots : ℕ → Option T) (first last : ℕ) (values : List T) (v : T)
      → Holds n slots first last values
      → length values ≡ last
      → first ≤ last
      → last < first + n
      → Holds n (put slots (last % n) (some v)) first (suc last) (values ++ v ∷ [])
  put-Holds n slots first last values v h l a b = record {
    held = λ s p q. elim (below_or_last s last q) [
      | inl lt ↦
          put_other slots (last % n) (s % n) (some v) (apart n s last lt (omega arith))
          ∙ h.held s p lt
          ∙ sym (get_elem?-append_left values (v ∷ []) s (omega (arith, l)))
      | inr e ↦
          ap (λ x. put slots (last % n) (some v) (x % n)) e
          ∙ put_self slots (last % n) (some v)
          ∙ sym (get_elem?-append_last values v s (omega (arith, l, e)))
    ];
    vacant = λ s p q.
        put_other slots (last % n) (s % n) (some v)
          (λ e. apart n last s (omega arith) (omega arith) (sym e))
        ∙ h.vacant s (omega arith) q;
  }

  pub take-Holds :
      (n : ℕ) (slots : ℕ → Option T) (first last : ℕ) (values : List T)
      → Holds n slots first last values
      → first < last
      → last ≤ first + n
      → Holds n (put slots (first % n) none) (suc first) last values
  take-Holds n slots first last values h a b = record {
    held = λ s p q.
        put_other slots (first % n) (s % n) none
          (λ e. apart n first s (omega arith) (omega arith) (sym e))
        ∙ h.held s (omega arith) q;
    vacant = λ s p q. elim (below_or_last s (first + n) (omega (arith, q))) [
      | inl lt ↦
          put_other slots (first % n) (s % n) none
            (λ e. apart n first s (omega arith) (omega arith) (sym e))
          ∙ h.vacant s p lt
      | inr e ↦
          ap (λ x. put slots (first % n) none (x % n)) e
          ∙ ap (put slots (first % n) none) (wraps first n)
          ∙ put_self slots (first % n) none
    ];
  }
