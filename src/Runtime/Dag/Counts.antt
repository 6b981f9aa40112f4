-- ===== src/Runtime/Dag/Counts.antt =====
-- Counting edges, for the degrees of crates/flume-runtime/src/dag.rs.
use mathlib.Core.List.{append_assoc, append-nil}
use flume_rs.Base.{
  ℕ, zero, suc, ◌+◌, ◌≡◌, refl, sym, subst, List, [], ◌∷◌, ◌++◌, some, Bool, true, false, not, ◌&&◌,
  ◌||◌, get_elem?, set, eqb, if◌then◌else◌, All, arith, eqb_iff,
}
use flume_rs.Runtime.Dag.{LogicalEdge}

abbrev pub contains : ℕ → List ℕ → Bool
contains v [] = false
contains v (u ∷ us) = eqb u v || contains v us

abbrev pub Distinct : List ℕ → Type 0
Distinct [] = Unit
Distinct (v ∷ vs) = (contains v vs ≡ false) × Distinct vs

abbrev pub occurrences : ℕ → List ℕ → ℕ
occurrences v [] = 0
occurrences v (u ∷ us) = (if eqb u v then 1 else 0) + occurrences v us

-- The edges to `v` from a node that has not been seen.
abbrev pub pending : List ℕ → ℕ → List LogicalEdge → ℕ
pending seen v [] = 0
pending seen v (e ∷ es) =
    (if eqb e.to v && not (contains e.from seen) then 1 else 0) + pending seen v es

-- The ends of the edges from `u`.
abbrev pub row : ℕ → List LogicalEdge → List ℕ
row u [] = []
row u (e ∷ es) = if eqb e.from u then e.to ∷ row u es else row u es

abbrev pub nonzero : List ℕ → ℕ
nonzero [] = 0
nonzero (d ∷ ds) = if eqb d 0 then nonzero ds else suc (nonzero ds)

pub contains-append_one :
    (v u : ℕ) (us : List ℕ) → contains v (us ++ u ∷ []) ≡ (contains v us || eqb u v)
contains-append_one v u [] = ground arith
contains-append_one v u (w ∷ us) = ground (arith, contains-append_one v u us)

pub contains-append :
    (v : ℕ) (us vs : List ℕ) → contains v (us ++ vs) ≡ (contains v us || contains v vs)
contains-append v [] vs = refl
contains-append v (w ∷ us) vs = ground (arith, contains-append v us vs)

pub Distinct-append_one :
    (v : ℕ) (us : List ℕ) → Distinct us → contains v us ≡ false → Distinct (us ++ v ∷ [])
Distinct-append_one v [] d h = (refl, tt)
Distinct-append_one v (u ∷ us) d h =
    ground
      (arith, contains-append_one u v us, eqb_iff u v, eqb_iff v u, Distinct-append_one v us d.1)

-- A node in the middle of a list without repetition does not stand before.
pub Distinct-middle : (v : ℕ) (us vs : List ℕ) → Distinct (us ++ v ∷ vs) → contains v us ≡ false
Distinct-middle v [] vs d = refl
Distinct-middle v (u ∷ us) vs d =
    ground
      (arith, contains-append u us (v ∷ vs), eqb_iff u v, eqb_iff v u, Distinct-middle v us vs d.1)

-- Once `u` is seen, the edges from it no longer count.
pub pending-seen :
    (u v : ℕ) (seen : List ℕ) (es : List LogicalEdge)
    → contains u seen ≡ false
    → pending seen v es ≡ pending (seen ++ u ∷ []) v es + occurrences v (row u es)
pending-seen u v seen [] h = refl
pending-seen u v seen (e ∷ es) h =
    ground (arith, contains-append_one e.from u seen, eqb_iff e.from u, pending-seen u v seen es h)

pub nonzero-set :
    (ds : List ℕ) (i d : ℕ)
    → get_elem? ds i ≡ some (suc d)
    → nonzero (set ds i d) + (if eqb d 0 then 1 else 0) ≡ nonzero ds
nonzero-set [] i d h = cc
nonzero-set (x ∷ ds) zero d h = ground arith
nonzero-set (x ∷ ds) (suc i) d h = ground (arith, nonzero-set ds i d h)

-- The nodes with an edge to `v` have been seen.
abbrev pub Ready : List LogicalEdge → List ℕ → ℕ → Type 0
Ready es seen v = All (λ e. e.to ≡ v → contains e.from seen ≡ true) es

pub pending-Ready :
    (seen : List ℕ) (v : ℕ) (es : List LogicalEdge) → pending seen v es ≡ 0 → Ready es seen v
pending-Ready seen v [] h = tt
pending-Ready seen v (e ∷ es) h =
    ((λ q. ground (arith, eqb_iff e.to v)), pending-Ready seen v es (ground arith))

-- In the order that `vs` continues, each node comes after the nodes that have an edge to it.
abbrev pub Follows : List LogicalEdge → List ℕ → List ℕ → Type 0
Follows es seen [] = Unit
Follows es seen (v ∷ vs) = Ready es seen v × Follows es (seen ++ v ∷ []) vs

pub Follows-append_one :
    (es : List LogicalEdge) (seen vs : List ℕ) (v : ℕ)
    → Follows es seen vs
    → Ready es (seen ++ vs) v
    → Follows es seen (vs ++ v ∷ [])
Follows-append_one es seen [] v f r = (subst (λ x. Ready es x v) (append-nil seen) r, tt)
Follows-append_one es seen (w ∷ vs) v f r = (
  f.0,
  Follows-append_one es (seen ++ w ∷ []) vs v f.1
      (subst (λ x. Ready es x v) (sym (append_assoc seen (w ∷ []) vs)) r),
)
