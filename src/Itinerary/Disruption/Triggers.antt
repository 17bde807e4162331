-- ===== src/Itinerary/Disruption/Triggers.antt =====
-- Which nodes a disruption of syncinerary/agents/rescue.py concerns.
use syncinerary.Prelude.{
  ℕ, ◌<◌, ◌≡◌, ◌&&◌, none, some, elem, ap, refl, inl, inr, List, [], ◌∷◌, Bool, true, false, Option,
  any_by, arith, Bool-cases,
}
use syncinerary.Prelude.Sorting.{All}
use syncinerary.Itinerary.Diff.{ItineraryNode}
use syncinerary.Itinerary.Disruption.{
  ReplanTrigger, reservation_cancelled, transit_delay, overslept, place_closed, weather, other,
  user_request, PayloadTime, Payload, is_value, is_before, is_exposed, is_aware, is_hit, fails_on,
}

-- What each trigger disrupts: the node that it names, what starts on its day before the time of
-- waking up, the places of its day that depend on the weather, all of its day, or the listed nodes.
abbrev pub Disrupts :
    ReplanTrigger → Payload → (weather_dependent : ℕ → Option Bool) → ItineraryNode → Type 0
Disrupts reservation_cancelled p w n = p.node_id ≡ some n.id
Disrupts transit_delay p w n = p.node_id ≡ some n.id
Disrupts place_closed p w n = p.node_id ≡ some n.id
Disrupts overslept p w n =
    (p.day ≡ some n.day) × (t : PayloadTime) × (p.at ≡ some t) × (n.start_time < t.time_of_day)
Disrupts weather p w n = (p.day ≡ some n.day) × (w n.candidate_id ≡ some true)
Disrupts user_request p w n = p.day ≡ some n.day
Disrupts other p w n = elem n.id p.affected_node_ids ≡ true

-- What it cannot be compared with: a time with a zone, given for the day of the node.
abbrev pub Confuses : ReplanTrigger → Payload → ItineraryNode → Type 0
Confuses overslept p n =
    (p.day ≡ some n.day) × (t : PayloadTime) × (p.at ≡ some t) × (t.has_zone ≡ true)
Confuses _ p n = true ≡ false

is_value-eq : (n : ℕ) (o : Option ℕ) → is_value n o ≡ true → o ≡ some n
is_value-eq n none h = cc
is_value-eq n (some m) h = ap (λ k. some k) (ground (arith, h))

is_exposed-eq : (o : Option Bool) → is_exposed o ≡ true → o ≡ some true
is_exposed-eq none h = cc
is_exposed-eq (some b) h = ap (λ x. some x) h

is_before-lt :
    (n : ℕ) (o : Option PayloadTime)
    → is_before n o ≡ true
    → (t : PayloadTime) × (o ≡ some t) × (n < t.time_of_day)
is_before-lt n none h = absurd (ground (arith, h))
is_before-lt n (some t) h = (t, refl, ground (arith, h))

is_aware-eq :
    (o : Option PayloadTime)
    → is_aware o ≡ true
    → (t : PayloadTime) × (o ≡ some t) × (t.has_zone ≡ true)
is_aware-eq none h = absurd (ground (arith, h))
is_aware-eq (some t) h = (t, refl, h)

and_left : (a b : Bool) → (a && b) ≡ true → a ≡ true
and_left a b h = ground (arith, h)

and_right : (a b : Bool) → (a && b) ≡ true → b ≡ true
and_right a b h = ground (arith, h)

module _ (p : Payload) (w : ℕ → Option Bool) (n : ItineraryNode) where
  pub is_hit-Disrupts : (t : ReplanTrigger) → is_hit t p w n ≡ true → Disrupts t p w n
  is_hit-Disrupts reservation_cancelled h = is_value-eq n.id p.node_id h
  is_hit-Disrupts transit_delay h = is_value-eq n.id p.node_id h
  is_hit-Disrupts place_closed h = is_value-eq n.id p.node_id h
  is_hit-Disrupts overslept h =
      let (t, at, early) = is_before-lt n.start_time p.at (and_right _ _ h) in
      (is_value-eq n.day p.day (and_left _ _ h), t, at, early)
  is_hit-Disrupts weather h =
      (is_value-eq n.day p.day (and_left _ _ h), is_exposed-eq (w n.candidate_id) (and_right _ _ h))
  is_hit-Disrupts user_request h = is_value-eq n.day p.day h
  is_hit-Disrupts other h = h

  pub Disrupts-is_hit : (t : ReplanTrigger) → Disrupts t p w n → is_hit t p w n ≡ true
  Disrupts-is_hit reservation_cancelled d = rw d (ground arith)
  Disrupts-is_hit transit_delay d = rw d (ground arith)
  Disrupts-is_hit place_closed d = rw d (ground arith)
  Disrupts-is_hit overslept (d, t, at, early) = rw (d, at) (ground (arith, early))
  Disrupts-is_hit weather (d, e) = rw (d, e) (ground arith)
  Disrupts-is_hit user_request d = rw d (ground arith)
  Disrupts-is_hit other d = d

module _ (p : Payload) (n : ItineraryNode) where
  fails_on-Confuses : (t : ReplanTrigger) → fails_on t p n ≡ true → Confuses t p n
  fails_on-Confuses reservation_cancelled h = absurd (ground (arith, h))
  fails_on-Confuses transit_delay h = absurd (ground (arith, h))
  fails_on-Confuses place_closed h = absurd (ground (arith, h))
  fails_on-Confuses weather h = absurd (ground (arith, h))
  fails_on-Confuses user_request h = absurd (ground (arith, h))
  fails_on-Confuses other h = absurd (ground (arith, h))
  fails_on-Confuses overslept h =
      let (t, at, zone) = is_aware-eq p.at (and_right _ _ h) in
      (is_value-eq n.day p.day (and_left _ _ h), t, at, zone)

  Confuses-fails_on : (t : ReplanTrigger) → Confuses t p n → fails_on t p n ≡ true
  Confuses-fails_on reservation_cancelled c = absurd (ground (arith, c))
  Confuses-fails_on transit_delay c = absurd (ground (arith, c))
  Confuses-fails_on place_closed c = absurd (ground (arith, c))
  Confuses-fails_on weather c = absurd (ground (arith, c))
  Confuses-fails_on user_request c = absurd (ground (arith, c))
  Confuses-fails_on other c = absurd (ground (arith, c))
  Confuses-fails_on overslept (d, t, at, zone) = rw (d, at) (ground (arith, zone))

pub clear-All :
    (t : ReplanTrigger) (p : Payload) (ns : List ItineraryNode)
    → any_by (fails_on t p) ns ≡ false
    → All (λ n. ¬ Confuses t p n) ns
clear-All t p [] h = tt
clear-All t p (n ∷ ns) h = (
  λ c. absurd (ground (arith, h, Confuses-fails_on p n t c)),
  clear-All t p ns (ground (arith, h)),
)

pub confused-All :
    (t : ReplanTrigger) (p : Payload) (ns : List ItineraryNode)
    → any_by (fails_on t p) ns ≡ true
    → ¬ All (λ n. ¬ Confuses t p n) ns
confused-All t p [] h clear = absurd (ground (arith, h))
confused-All t p (n ∷ ns) h clear = elim (Bool-cases (fails_on t p n)) [
  | inl e ↦ clear.0 (fails_on-Confuses p n t e)
  | inr e ↦ confused-All t p ns (ground (arith, h, e)) clear.1
]
