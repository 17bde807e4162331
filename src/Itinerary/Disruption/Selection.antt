-- ===== src/Itinerary/Disruption/Selection.antt =====
-- What a disruption selects, and from when on the day is planned again.
use syncinerary.Prelude.{
  ℕ, ◌+◌, ◌*◌, ◌/◌, ◌%◌, ◌<◌, ◌≡◌, ◌↔◌, ◌++◌, not, Outcome, ap, ◌∙◌, refl, inl, inr, List, [], ◌∷◌,
  subst, length, Bool, true, false, Option, return, raise, filter_by, any_by, leb, arith,
  Bool-cases,
}
use mathlib.Core.Logic.{◌≢◌}
use mathlib.Core.List.Perm
use mathlib.Core.List.{Perm}
use native.Mathlib.Nat.{div-add-mod, mod-lt}
use syncinerary.Prelude.Sorting.{
  All, IsSorted, sorted_by, sorted_by-perm, sorted_by-All, length-perm, split_by-perm,
  filter_by-All, IsOrder, sorted_by-IsSorted, then_by-IsOrder, IsOrder-on, leb-IsOrder,
}
use syncinerary.Itinerary.Diff.{ItineraryNode}
use syncinerary.Itinerary.Disruption.{
  ReplanTrigger, transit_delay, InputError, no_match, several_days, not_comparable, Payload, is_hit,
  fails_on, node_leb, ordered_or_raise, select_affected_nodes, all_on, affected_day, first_start,
  minute_length, clamped_time, cutoff,
}
use syncinerary.Itinerary.Disruption.Triggers.{
  Disrupts, Confuses, is_hit-Disrupts, Disrupts-is_hit, clear-All, confused-All,
}

node_leb-IsOrder : IsOrder node_leb
node_leb-IsOrder =
    then_by-IsOrder (λ s t. leb s.day t.day) _
      (IsOrder-on (λ (n : ItineraryNode). n.day) leb-IsOrder)
      (then_by-IsOrder (λ s t. leb s.start_time t.start_time) (λ s t. leb s.id t.id)
        (IsOrder-on (λ (n : ItineraryNode). n.start_time) leb-IsOrder)
        (IsOrder-on (λ (n : ItineraryNode). n.id) leb-IsOrder))

filter_empty-All :
    (hit : ItineraryNode → Bool) (P : ItineraryNode → Type 0) (ns : List ItineraryNode)
    → filter_by hit ns ≡ []
    → ((n : ItineraryNode) → hit n ≡ false → P n)
    → All P ns
filter_empty-All hit P [] e h = tt
filter_empty-All hit P (n ∷ ns) e h = elim (Bool-cases (hit n)) [
  | inl b ↦ absurd (omega (arith, ap length (rw b at e)))
  | inr b ↦ (h n b, filter_empty-All hit P ns (rw b at e) h)
]

module _ (trigger : ReplanTrigger) (payload : Payload) (nodes : List ItineraryNode)
    (w : ℕ → Option Bool) where
  abbrev spared : List ItineraryNode
  spared = filter_by (λ n. not (is_hit trigger payload w n)) nodes

  -- What a selection has to be, for each outcome.
  abbrev pub IsSelection : Outcome InputError (List ItineraryNode) → Type 0
  IsSelection (return result) =
      (rest : List ItineraryNode) × Perm (rest ++ result) nodes
      × All (Disrupts trigger payload w) result
      × All (λ n. ¬ Disrupts trigger payload w n) rest
      × IsSorted node_leb result
      × (result ≢ [])
      × All (λ n. ¬ Confuses trigger payload n) nodes
  IsSelection (raise no_match) =
      All (λ n. ¬ Disrupts trigger payload w n) nodes
      × All (λ n. ¬ Confuses trigger payload n) nodes
  IsSelection (raise not_comparable) = ¬ All (λ n. ¬ Confuses trigger payload n) nodes
  IsSelection (raise several_days) = true ≡ false

  spared-undisrupted : All (λ n. ¬ Disrupts trigger payload w n) spared
  spared-undisrupted =
      filter_by-All (λ n. not (is_hit trigger payload w n)) (λ n. ¬ Disrupts trigger payload w n)
        nodes (λ n h d. absurd (ground (arith, h, Disrupts-is_hit payload w n trigger d)))

  hits-disrupted : All (Disrupts trigger payload w) (filter_by (is_hit trigger payload w) nodes)
  hits-disrupted =
      filter_by-All (is_hit trigger payload w) (Disrupts trigger payload w) nodes
        (λ n h. is_hit-Disrupts payload w n trigger h)

  ordered-IsSelection :
      (hits : List ItineraryNode)
      → filter_by (is_hit trigger payload w) nodes ≡ hits
      → All (λ n. ¬ Confuses trigger payload n) nodes
      → IsSelection (ordered_or_raise hits)
  ordered-IsSelection [] e f = (
    filter_empty-All (is_hit trigger payload w) (λ n. ¬ Disrupts trigger payload w n) nodes e
        (λ n h d. absurd (ground (arith, h, Disrupts-is_hit payload w n trigger d))),
    f,
  )
  ordered-IsSelection (n ∷ hits) e f =
      let sorted = sorted_by node_leb (n ∷ hits) in
      let split = split_by-perm (is_hit trigger payload w) nodes in
      (
        spared,
        Perm.trans (Perm.append_left spared (sorted_by-perm node_leb (n ∷ hits)))
            (subst (λ l. Perm (spared ++ l) nodes) e split),
        sorted_by-All node_leb (Disrupts trigger payload w) (n ∷ hits)
            (subst (All (Disrupts trigger payload w)) e hits-disrupted),
        spared-undisrupted,
        sorted_by-IsSorted node_leb-IsOrder (n ∷ hits),
        λ h. absurd (omega (arith, length-perm (sorted_by-perm node_leb (n ∷ hits)), ap length h)),
        f,
      )

-- A selection splits the nodes into those that the disruption concerns, each as often as the
-- itinerary has it and in the order of day, start and identifier, and the rest, which it does not
-- concern. It is refused exactly when it would be empty, and raises instead exactly for an overslept
-- day with a node on it and a time with a zone. What a disruption concerns is the node that a
-- cancelled reservation, a late transit or a closed place names; the nodes of the day that start
-- before the time of waking up; the weather-dependent places of the day; the whole day of a request;
-- and else the listed nodes.
pub select_affected_nodes-IsSelection :
    (trigger : ReplanTrigger) (payload : Payload) (nodes : List ItineraryNode) (w : ℕ → Option Bool)
    → IsSelection trigger payload nodes w (select_affected_nodes trigger payload nodes w)
unfolding select_affected_nodes
select_affected_nodes-IsSelection trigger payload nodes w =
    elim (Bool-cases (any_by (fails_on trigger payload) nodes)) [
      | inl e ↦ rw e (confused-All trigger payload nodes e)
      | inr e ↦ rw e (
          ordered-IsSelection trigger payload nodes w (filter_by (is_hit trigger payload w) nodes)
            refl (clear-All trigger payload nodes e))
    ]

clamped_time-bounds :
    (m : ℕ)
    → (clamped_time m < 24 * 60 * minute_length)
      × (m < 24 * 60 → clamped_time m ≡ m * minute_length)
unfolding clamped_time
clamped_time-bounds m =
    let q = div-add-mod m 60 in
    let r : m % 60 < 60 = mod-lt m (omega arith) in (omega arith, λ h. omega arith)

-- The cutoff after a delay is a time of day, and while the delay ends before midnight it is the
-- minute of the first start with the delay added.
cutoff-transit_delay :
    (p : Payload) (n : ItineraryNode) (ns : List ItineraryNode)
    → let minute = first_start n ns / minute_length + p.delay_minutes in
      (cutoff transit_delay p n ns < 24 * 60 * minute_length)
      × (minute < 24 * 60 → cutoff transit_delay p n ns ≡ minute * minute_length)
unfolding cutoff
cutoff-transit_delay p n ns =
    clamped_time-bounds (first_start n ns / minute_length + p.delay_minutes)

all_on-eq : (d : ℕ) (ns : List ItineraryNode) → all_on d ns ≡ true → All (λ n. n.day ≡ d) ns
all_on-eq d [] h = tt
all_on-eq d (n ∷ ns) h = (ground (arith, h), all_on-eq d ns (ground (arith, h)))

eq-all_on : (d : ℕ) (ns : List ItineraryNode) → All (λ n. n.day ≡ d) ns → all_on d ns ≡ true
eq-all_on d [] h = refl
eq-all_on d (n ∷ ns) h = ground (arith, h.0, eq-all_on d ns h.1)

-- A selection has the affected day `d` exactly when it has a node and all its nodes are on day `d`.
affected_day-return_iff :
    (n : ItineraryNode) (ns : List ItineraryNode) (d : ℕ)
    → (affected_day (n ∷ ns) ≡ return d) ↔ All (λ m. m.day ≡ d) (n ∷ ns)
unfolding affected_day
affected_day-return_iff n ns d = elim (Bool-cases (all_on n.day ns)) [
  | inl one ↦ (
    λ h. let e : n.day ≡ d = ground (arith, h, one) in (e, all_on-eq d ns (rw e at one)),
    λ all. rw one (ap (λ x. return x) all.0),
  )
  | inr more ↦ (
    λ h. absurd (ground (arith, h, more)),
    λ all. absurd (ground (arith, more, ap (λ k. all_on k ns) all.0 ∙ eq-all_on d ns all.1)),
  )
]
