-- ===== src/Base/BTreeSet.antt =====
-- `std::collections::BTreeSet`: its elements in ascending order, none twice.
use mathlib.Core.Path.{◌≡◌, refl, sym, subst}
use mathlib.Core.Logic.{◌≢◌, ◌⊎◌, ◌↔◌, inl, inr}
use mathlib.Core.Bool.{Bool, true, not}
use mathlib.Core.List.{List, [], ◌∷◌}
use native.Mathlib.Omega.{arith}
use flume_rs.Base.Tests.{if◌then◌else◌}
use flume_rs.Base.Lists.{All, In, filter, All-map_of}
use flume_rs.Base.Ord.{Ord}

module _ {A : Type 0} ⦃o : Ord A⦄ where
  unfoldable pub insert : A → List A → List A
  insert x [] = x ∷ []
  insert x (y ∷ ys) = if o.lt x y then x ∷ y ∷ ys else if o.lt y x then y ∷ insert x ys else y ∷ ys

  unfoldable pub remove : A → List A → List A
  remove x [] = []
  remove x (y ∷ ys) = if o.lt x y then y ∷ ys else if o.lt y x then y ∷ remove x ys else ys

  -- `split_off` leaves the elements below `x` and returns the others.
  abbrev pub below : A → List A → List A
  below x = filter (λ y. o.lt y x)

  abbrev pub split_off : A → List A → List A
  split_off x = filter (λ y. not (o.lt y x))

  abbrev pub AllAbove : A → List A → Type 0
  AllAbove x = All (λ y. o.lt x y ≡ true)

  abbrev pub IsAscending : List A → Type 0
  IsAscending [] = Unit
  IsAscending (x ∷ xs) = AllAbove x xs × IsAscending xs

  AllAbove-trans : (x y : A) (xs : List A) → o.lt x y ≡ true → AllAbove y xs → AllAbove x xs
  AllAbove-trans x y xs h = All-map_of _ _ xs (λ z. o.trans x y z h)

  insert-AllAbove :
      (z x : A) (ys : List A) → o.lt z x ≡ true → AllAbove z ys → AllAbove z (insert x ys)
  unfolding insert
  insert-AllAbove z x [] h k = (h, tt)
  insert-AllAbove z x (y ∷ ys) h k = ground (arith, insert-AllAbove z x ys h k.1)

  pub insert-IsAscending : (x : A) (ys : List A) → IsAscending ys → IsAscending (insert x ys)
  unfolding insert
  insert-IsAscending x [] h = (tt, tt)
  insert-IsAscending x (y ∷ ys) h =
      ground (arith, AllAbove-trans x y ys, insert-AllAbove y x ys, insert-IsAscending x ys h.1)

  filter-AllAbove : (x : A) (p : A → Bool) (ys : List A) → AllAbove x ys → AllAbove x (filter p ys)
  filter-AllAbove x p [] h = tt
  filter-AllAbove x p (y ∷ ys) h = ground (arith, filter-AllAbove x p ys h.1)

  pub filter-IsAscending : (p : A → Bool) (ys : List A) → IsAscending ys → IsAscending (filter p ys)
  filter-IsAscending p [] h = tt
  filter-IsAscending p (y ∷ ys) h =
      ground (arith, filter-AllAbove y p ys h.0, filter-IsAscending p ys h.1)

  remove-AllAbove : (z x : A) (ys : List A) → AllAbove z ys → AllAbove z (remove x ys)
  unfolding remove
  remove-AllAbove z x [] h = tt
  remove-AllAbove z x (y ∷ ys) h = ground (arith, remove-AllAbove z x ys h.1)

  pub remove-IsAscending : (x : A) (ys : List A) → IsAscending ys → IsAscending (remove x ys)
  unfolding remove
  remove-IsAscending x [] h = tt
  remove-IsAscending x (y ∷ ys) h =
      ground (arith, remove-AllAbove y x ys h.0, remove-IsAscending x ys h.1)

  -- The set grows by the element that is inserted, and by nothing else.
  In-insert_self : (x : A) (ys : List A) → In x (insert x ys)
  unfolding insert
  In-insert_self x [] = inl refl
  In-insert_self x (y ∷ ys) = ground (arith, o.connex x y, In-insert_self x ys)

  In-insert : (z x : A) (ys : List A) → In z (insert x ys) → (z ≡ x) ⊎ In z ys
  unfolding insert
  In-insert z x [] h = h
  In-insert z x (y ∷ ys) h = ground (arith, In-insert z x ys)

  In-insert_of : (z x : A) (ys : List A) → In z ys → In z (insert x ys)
  unfolding insert
  In-insert_of z x [] h = absurd h
  In-insert_of z x (y ∷ ys) h = ground (arith, o.connex x y, In-insert_of z x ys)

  -- The element that is removed is gone, and every other stays.
  not-In_above : (x : A) (ys : List A) → AllAbove x ys → In x ys → ⊥
  not-In_above x [] h m = m
  not-In_above x (y ∷ ys) h (inl e) = ground (arith, o.irrefl x)
  not-In_above x (y ∷ ys) h (inr m) = not-In_above x ys h.1 m

  not-In-remove : (x : A) (ys : List A) → IsAscending ys → In x (remove x ys) → ⊥
  unfolding remove
  not-In-remove x [] h m = m
  not-In-remove x (y ∷ ys) h m = ground (
    arith,
    o.irrefl x,
    o.connex x y,
    not-In_above x ys,
    AllAbove-trans x y ys,
    not-In-remove x ys h.1,
  )

  In-remove_ne : (z x : A) (ys : List A) → z ≢ x → In z ys → In z (remove x ys)
  unfolding remove
  In-remove_ne z x [] n m = absurd m
  In-remove_ne z x (y ∷ ys) n m = ground (arith, o.connex x y, In-remove_ne z x ys n)

  In_of_In-remove : (z x : A) (ys : List A) → In z (remove x ys) → In z ys
  unfolding remove
  In_of_In-remove z x [] m = m
  In_of_In-remove z x (y ∷ ys) m = ground (arith, In_of_In-remove z x ys)

  In-insert_back : (z x : A) (ys : List A) → (z ≡ x) ⊎ In z ys → In z (insert x ys)
  In-insert_back z x ys (inl e) = subst (λ w. In w (insert x ys)) (sym e) (In-insert_self x ys)
  In-insert_back z x ys (inr m) = In-insert_of z x ys m

  pub In-insert_iff : (z x : A) (ys : List A) → In z (insert x ys) ↔ ((z ≡ x) ⊎ In z ys)
  In-insert_iff z x ys = (In-insert z x ys, In-insert_back z x ys)

  pub In-remove_iff :
      (z x : A) (ys : List A) → IsAscending ys → In z (remove x ys) ↔ ((z ≢ x) × In z ys)
  In-remove_iff z x ys h = (
    λ m. (
      (λ e. not-In-remove x ys h (subst (λ w. In w (remove x ys)) e m)),
      In_of_In-remove z x ys m,
    ),
    λ p. In-remove_ne z x ys p.0 p.1,
  )
