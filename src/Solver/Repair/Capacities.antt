-- ===== src/Solver/Repair/Capacities.antt =====
-- The other facts of syncinerary/agents/solver/repair.py: merge_day_capacities, which days hold how
-- many of some places, and learn_incompatible_pairs, which places cannot share a day.
-- The members of a capacity, a frozenset, are the sorted list of their identifiers, so that two equal
-- sets are one list; a dictionary is a list without repeated keys, in the order of first insertion; a
-- set of pairs is a list without repetitions.
use syncinerary.Prelude.{
  ℕ, ◌≡◌, ◌<◌, ◌↔◌, ◌⊎◌, inl, inr, ◌∙◌, ap, arith, Bool-cases, refl, List, [], ◌∷◌, Bool, true,
  false, ◌&&◌, Option, none, some, length, any_by, ltb, leb, ◌==◌, if◌then◌else◌,
}
use syncinerary.Prelude.Sorting.{sorted_by, then_by}

pub record DayCapacity : Type 0 where
  pub day : ℕ
  pub members : List ℕ
  pub limit : ℕ

same_members : List ℕ → List ℕ → Bool
same_members [] [] = true
same_members [] (y ∷ ys) = false
same_members (x ∷ xs) [] = false
same_members (x ∷ xs) (y ∷ ys) = (x == y) && same_members xs ys

-- `a.key() == b.key()`
same_key : DayCapacity → DayCapacity → Bool
unfolding same_members
same_key a b = (a.day == b.day) && same_members a.members b.members

-- `by_key.get(capacity.key())`
known_capacity : DayCapacity → List DayCapacity → Option DayCapacity
unfolding same_key
known_capacity c [] = none
known_capacity c (k ∷ ks) = if same_key k c then some k else known_capacity c ks

-- `by_key[capacity.key()] = capacity`
put_capacity : DayCapacity → List DayCapacity → List DayCapacity
unfolding same_key
put_capacity c [] = c ∷ []
put_capacity c (k ∷ ks) = let rest = put_capacity c ks in if same_key k c then c ∷ ks else k ∷ rest

put_capacities : List DayCapacity → List DayCapacity → List DayCapacity
unfolding put_capacity
put_capacities table [] = table
put_capacities table (c ∷ cs) = put_capacities (put_capacity c table) cs

abbrev is_news : DayCapacity → Option DayCapacity → Bool
is_news c none = true
is_news c (some known) = ltb c.limit known.limit

-- One measured capacity: kept when the key is new or the limit tighter.
merge_capacity : DayCapacity → List DayCapacity × Bool → List DayCapacity × Bool
unfolding known_capacity put_capacity
merge_capacity c (table, learned) =
    if is_news c (known_capacity c table) then (put_capacity c table, true) else (table, learned)

merge_capacities : List DayCapacity → List DayCapacity × Bool → List DayCapacity × Bool
unfolding merge_capacity
merge_capacities [] known = known
merge_capacities (c ∷ cs) known = merge_capacities cs (merge_capacity c known)

members_leb : List ℕ → List ℕ → Bool
members_leb [] ys = true
members_leb (x ∷ xs) [] = false
members_leb (x ∷ xs) (y ∷ ys) = let rest = members_leb xs ys in if x == y then rest else ltb x y

capacity_leb : DayCapacity → DayCapacity → Bool
unfolding members_leb
capacity_leb = then_by (λ s t. leb s.day t.day) (λ s t. members_leb s.members t.members)

unfoldable pub merge_day_capacities : (existing found : List DayCapacity) → List DayCapacity × Bool
unfolding put_capacities merge_capacities capacity_leb sorted_by
merge_day_capacities existing found =
    let (table, learned) = merge_capacities found (put_capacities [] existing, false) in
    (sorted_by capacity_leb table, learned)

pub record IncompatiblePair : Type 0 where
  pub first : ℕ
  pub second : ℕ

add_pair : IncompatiblePair → List IncompatiblePair → List IncompatiblePair
add_pair p ps =
    if any_by (λ q. (q.first == p.first) && (q.second == p.second)) ps then ps else p ∷ ps

add_pairs : List IncompatiblePair → List IncompatiblePair → List IncompatiblePair
unfolding add_pair
add_pairs known [] = known
add_pairs known (p ∷ ps) = add_pairs (add_pair p known) ps

update_pairs : List (List IncompatiblePair) → List IncompatiblePair → List IncompatiblePair
unfolding add_pairs
update_pairs [] known = known
update_pairs (day_pairs ∷ days) known = update_pairs days (add_pairs known day_pairs)

unfoldable pub learn_incompatible_pairs :
    (routes_pairs : List (List IncompatiblePair)) (existing : List IncompatiblePair)
    → List IncompatiblePair × Bool
unfolding update_pairs
learn_incompatible_pairs routes_pairs existing =
    let pairs = update_pairs routes_pairs existing in (pairs, ltb (length existing) (length pairs))

-- What adding pairs does: nothing, or there are more of them.
abbrev PairsGrow : List IncompatiblePair → List IncompatiblePair → Type 0
PairsGrow known after = (after ≡ known) ⊎ (length known < length after)

PairsGrow-trans : (a b c : List IncompatiblePair) → PairsGrow a b → PairsGrow b c → PairsGrow a c
PairsGrow-trans a b c (inl e) (inl e') = inl (e' ∙ e)
PairsGrow-trans a b c (inl e) (inr g) = rw (← e) (inr g)
PairsGrow-trans a b c (inr g) (inl e) = rw e (inr g)
PairsGrow-trans a b c (inr g) (inr g') = inr (omega (arith, g, g'))

add_pair-PairsGrow :
    (p : IncompatiblePair) (known : List IncompatiblePair) → PairsGrow known (add_pair p known)
unfolding add_pair
add_pair-PairsGrow p known =
    elim (Bool-cases (any_by (λ q. (q.first == p.first) && (q.second == p.second)) known)) [
      | inl old ↦ rw old (inl refl)
      | inr new ↦ rw new (inr (omega arith))
    ]

add_pairs-PairsGrow : (known ps : List IncompatiblePair) → PairsGrow known (add_pairs known ps)
unfolding add_pairs
add_pairs-PairsGrow known [] = inl refl
add_pairs-PairsGrow known (p ∷ ps) =
    PairsGrow-trans known (add_pair p known) (add_pairs (add_pair p known) ps)
      (add_pair-PairsGrow p known) (add_pairs-PairsGrow (add_pair p known) ps)

update_pairs-PairsGrow :
    (days : List (List IncompatiblePair)) (known : List IncompatiblePair)
    → PairsGrow known (update_pairs days known)
unfolding update_pairs
update_pairs-PairsGrow [] known = inl refl
update_pairs-PairsGrow (day ∷ days) known =
    PairsGrow-trans known (add_pairs known day) (update_pairs days (add_pairs known day))
      (add_pairs-PairsGrow known day) (update_pairs-PairsGrow days (add_pairs known day))

-- The comparison of the two sizes is exact: no new pair is reported exactly when the pairs are those
-- from before.
learn_incompatible_pairs-learned_iff :
    (routes_pairs : List (List IncompatiblePair)) (existing : List IncompatiblePair)
    → let after = learn_incompatible_pairs routes_pairs existing in
      (after.1 ≡ false) ↔ (after.0 ≡ existing)
unfolding learn_incompatible_pairs
learn_incompatible_pairs-learned_iff routes_pairs existing =
    exact (update_pairs routes_pairs existing) (update_pairs-PairsGrow routes_pairs existing)
  where
    exact :
        (after : List IncompatiblePair)
        → PairsGrow existing after
        → (ltb (length existing) (length after) ≡ false) ↔ (after ≡ existing)
    exact after (inl e) = (λ _. e, λ _. rw e (ground arith))
    exact after (inr more) = (
      λ same_size. absurd (ground (arith, more, same_size)),
      λ e. absurd (omega (arith, more, ap (λ x. length x) e)),
    )
