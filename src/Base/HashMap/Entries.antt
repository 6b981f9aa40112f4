-- ===== src/Base/HashMap/Entries.antt =====
-- A hash map met entry by entry: what a lookup finds at the keys of a selection of the entries.
use mathlib.Core.Path.{◌≡◌, refl, ap, ◌∙◌}
use mathlib.Core.Bool.{Bool, false, not}
use mathlib.Core.List.{List, [], ◌∷◌}
use mathlib.Core.Option.{some, none}
use native.Mathlib.Omega.{arith}
use mathlib.Core.Logic.{inl, inr}
use flume_rs.Base.Tests.{Bool-cases}
use flume_rs.Base.Lists.{All, filter}
use flume_rs.Base.Keys.{Eq, ◌==◌, beq_refl}
use flume_rs.Base.HashMap.{HashMap, keys, get, remove, IsMap}

-- No key of the list is `k`.
abbrev pub Avoids {ℓ} : {K : Type ℓ} ⦃e : Eq K⦄ → K → List K → Type 0
Avoids k = All (λ j. (k == j) ≡ false)

module _ {ℓ κ} {K : Type ℓ} {V : Type κ} ⦃e : Eq K⦄ where
  -- Every entry of `n` is what a lookup in `m` finds.
  abbrev pub Finds : HashMap K V → HashMap K V → Type κ
  Finds m n = All (λ x. get x.0 m ≡ some x.1) n

  Finds-cons :
      (k : K) (v : V) (m n : HashMap K V) → get k m ≡ none → Finds m n → Finds ((k, v) ∷ m) n
  unfolding get
  Finds-cons k v m [] h f = tt
  Finds-cons k v m ((j, w) ∷ n) h f = ground (arith, e.equals_iff k j, Finds-cons k v m n h f.1)

  pub Finds-self : (m : HashMap K V) → IsMap m → Finds m m
  unfolding get
  Finds-self [] h = tt
  Finds-self ((k, v) ∷ m) h = ground (arith, beq_refl k, Finds-cons k v m m h.0 (Finds-self m h.1))

  pub Finds-filter : (p : K × V → Bool) (m n : HashMap K V) → Finds m n → Finds m (filter p n)
  Finds-filter p m [] f = tt
  Finds-filter p m (x ∷ n) f = ground (arith, Finds-filter p m n f.1)

  pub Avoids-filter :
      (k : K) (p : K × V → Bool) (m : HashMap K V) → get k m ≡ none → Avoids k (keys (filter p m))
  unfolding get
  Avoids-filter k p [] h = tt
  Avoids-filter k p ((j, w) ∷ m) h =
      ground (arith, e.equals_iff j k, e.equals_iff k j, Avoids-filter k p m)

  get-filter-none :
      (k : K) (p : K × V → Bool) (m : HashMap K V) → get k m ≡ none → get k (filter p m) ≡ none
  unfolding get
  get-filter-none k p [] h = refl
  get-filter-none k p ((j, w) ∷ m) h = ground (arith, get-filter-none k p m)

  pub filter-IsMap : (p : K × V → Bool) (m : HashMap K V) → IsMap m → IsMap (filter p m)
  filter-IsMap p [] h = tt
  filter-IsMap p ((k, v) ∷ m) h = ground (arith, get-filter-none k p m h.0, filter-IsMap p m h.1)

  -- `for k in ks { map.remove(&k) }`
  unfoldable pub remove_all : List K → HashMap K V → HashMap K V
  remove_all [] m = m
  remove_all (k ∷ ks) m = remove_all ks (remove k m)

  remove_all-cons :
      (k : K) (v : V) (m : HashMap K V) (ks : List K)
      → Avoids k ks
      → remove_all ks ((k, v) ∷ m) ≡ (k, v) ∷ remove_all ks m
  unfolding remove_all remove
  remove_all-cons k v m [] h = refl
  remove_all-cons k v m (j ∷ ks) h = ground (arith, remove_all-cons k v (remove j m) ks h.1)

  remove_self : (k : K) (v : V) (m : HashMap K V) → remove k ((k, v) ∷ m) ≡ m
  unfolding remove
  remove_self k v m = rw (beq_refl k)

  -- Removing the keys of a selection leaves the other entries.
  pub remove_all-filter :
      (p : K × V → Bool) (m : HashMap K V)
      → IsMap m
      → remove_all (keys (filter p m)) m ≡ filter (λ x. not (p x)) m
  unfolding remove_all
  remove_all-filter p [] h = refl
  remove_all-filter p ((k, v) ∷ m) h = elim (Bool-cases (p (k, v))) [
    | inl e ↦
        rw e (ap (remove_all (keys (filter p m))) (remove_self k v m) ∙ remove_all-filter p m h.1)
    | inr e ↦ rw e (
        remove_all-cons k v m (keys (filter p m)) (Avoids-filter k p m h.0)
        ∙ ap (◌∷◌ (k, v)) (remove_all-filter p m h.1))
  ]
