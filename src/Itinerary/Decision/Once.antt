-- ===== src/Itinerary/Decision/Once.antt =====
-- What a decision writes, and that there is one decision on a proposal.
use syncinerary.Prelude.{
  ℕ, ◌≡◌, refl, ap, sym, ◌∙◌, Option, none, some, Bool, true, false, Outcome, return, raise,
  find_row, update_row, find_row-written, find_row-key, ◌==◌, if◌then◌else◌, arith, subst, List,
  ◌⊎◌, inl, inr,
}
use syncinerary.Harness.Ledger.Saving.{==_refl}
use syncinerary.Itinerary.Decision.{
  ReplanError, ReplanStatus, pending, approved, ItineraryStatus, active, superseded, ReplanEvent,
  ItineraryVersion, Db, event_key, version_key, present, with_status, set_status, answered, decide,
  find_event, find_version, apply_decision, Checked, check_decision, decide_replan,
}
use syncinerary.Itinerary.Decision.Effects.{
  IsSound, check_decision-IsSound, check_decision-reads, ==-eq, some-eq,
}

-- The versions that a decision leaves: the proposal is active and its parent superseded when it is
-- approved, the proposal is rejected when it is not, and every other version is as it was.
pub version_due : Bool → Checked → Db → ℕ → Option ItineraryVersion
version_due true c db i =
    if c.proposal.id == i
    then some (with_status active c.proposal)
    else (if c.parent.id == i then some (with_status superseded c.parent) else find_version i db)
version_due false c db i =
    if c.proposal.id == i
    then some (with_status ItineraryStatus.rejected c.proposal)
    else find_version i db

pub decision_due : Bool → ReplanStatus
decision_due true = approved
decision_due false = ReplanStatus.rejected

-- The tables after a decision.
pub record IsDecided (event_id traveler_id : ℕ) (approve : Bool) (db db' : Db) (c : Checked)
    : Type 0 where
  pub versions : (i : ℕ) → find_version i db' ≡ version_due approve c db i
  pub events :
      (i : ℕ)
      → find_event i db' ≡ (
          if event_id == i
          then some (answered (decision_due approve) traveler_id c.event)
          else find_event i db)
  pub travelers : db'.travelers ≡ db.travelers

Bool-false : (b : Bool) → ¬ (b ≡ true) → b ≡ false
Bool-false true h = absurd (h refl)
Bool-false false h = refl

-- The proposal and its parent are two versions.
parent-proposal :
    (t e v : ℕ) (db : Db) (c : Checked)
    → IsSound t e v db c
    → (c.proposal.id == c.parent.id) ≡ false
parent-proposal t e v db c s = Bool-false (c.proposal.id == c.parent.id) (λ same.
    let one = ap (λ i. find_version i db) (==-eq c.proposal.id c.parent.id same) in
    let is = some-eq c.proposal c.parent (sym s.proposal_found ∙ one ∙ s.parent_found) in
    let clash = sym s.proposal_proposed ∙ ap (λ x. x.status) is ∙ s.parent_active in
    ground (arith, clash))

-- The tables that a decision leaves, as the two writes and the answer make them.
written : Bool → (traveler_id : ℕ) → Checked → Db → Db
unfolding apply_decision set_status decide
written approve v c db = record (apply_decision approve c.parent.id c.proposal.id db).1 {
  events = update_row event_key c.event.id (answered (decision_due approve) v) db.events;
}

event-written :
    (s : ReplanStatus) (v e : ℕ) (db : Db) (c : Checked)
    → find_event e db ≡ some c.event
    → (i : ℕ)
    → find_row event_key i (update_row event_key c.event.id (answered s v) db.events)
      ≡ (if e == i then some (answered s v c.event) else find_event i db)
event-written s v e db c found i =
    let is = find_row-key event_key e db.events c.event found in
    find_row-written event_key i (answered s v) c.event db.events (λ r. refl)
      (ap (λ k. find_event k db) is ∙ found)
    ∙ ap (λ k. if k == i then some (answered s v c.event) else find_event i db) is

==-sym : (a b : ℕ) → (a == b) ≡ (b == a)
==-sym a b = ground arith

approved-written :
    (i : ℕ) (vs : List ItineraryVersion) (c : Checked)
    → find_row version_key c.parent.id vs ≡ some c.parent
    → find_row version_key c.proposal.id vs ≡ some c.proposal
    → (c.proposal.id == c.parent.id) ≡ false
    → find_row version_key i (
        update_row version_key c.proposal.id
          (with_status active)
          (update_row version_key c.parent.id (with_status superseded) vs))
      ≡ (if c.proposal.id == i
          then some (with_status active c.proposal)
          else (if c.parent.id == i
              then some (with_status superseded c.parent)
              else find_row version_key i vs))
approved-written i vs c parent_found found two =
    find_row-written version_key i (with_status active) c.proposal _ (λ r. refl)
      (find_row-written version_key c.proposal.id (with_status superseded) c.parent vs (λ r. refl)
          parent_found
        ∙ rw (==-sym c.parent.id c.proposal.id ∙ two) found)
    ∙ rw
        (find_row-written version_key i (with_status superseded) c.parent vs (λ r. refl)
          parent_found)
        refl

written-IsDecided :
    (approve : Bool) (t e v : ℕ) (db : Db) (c : Checked)
    → IsSound t e v db c
    → IsDecided e v approve db (written approve v c db) c
unfolding written apply_decision set_status version_due decision_due
written-IsDecided true t e v db c s = record {
  versions = λ i.
      approved-written i db.versions c s.parent_found s.proposal_found
        (parent-proposal t e v db c s);
  events = event-written approved v e db c s.event_found;
  travelers = refl;
}
written-IsDecided false t e v db c s = record {
  versions = λ i.
      find_row-written version_key i (with_status ItineraryStatus.rejected) c.proposal db.versions
        (λ r. refl) s.proposal_found;
  events = event-written ReplanStatus.rejected v e db c s.event_found;
  travelers = refl;
}

event-found :
    (s : ReplanStatus) (v e : ℕ) (db : Db) (c : Checked)
    → find_event e db ≡ some c.event
    → find_row event_key c.event.id (update_row event_key c.event.id (answered s v) db.events)
      ≡ some (answered s v c.event)
event-found s v e db c found =
    event-written s v e db c found c.event.id
    ∙ rw (find_row-key event_key e db.events c.event found, ==_refl e) refl

decide_replan-eq :
    (approve : Bool) (t e v : ℕ) (db : Db) (c : Checked)
    → IsSound t e v db c
    → check_decision t e v db ≡ (return c, db)
    → decide_replan t e v approve db
      ≡ (return (answered (decision_due approve) v c.event), written approve v c db)
unfolding decide_replan written apply_decision set_status decide present decision_due
decide_replan-eq true t e v db c s h = rw h (rw (event-found approved v e db c s.event_found) refl)
decide_replan-eq false t e v db c s h =
    rw h (rw (event-found ReplanStatus.rejected v e db c s.event_found) refl)

decide_replan-raise :
    (approve : Bool) (t e v : ℕ) (db : Db) (error : ReplanError)
    → check_decision t e v db ≡ (raise error, db)
    → decide_replan t e v approve db ≡ (raise error, db)
unfolding decide_replan
decide_replan-raise approve t e v db error h = rw h refl

-- The call raises what the checks raise, and changes nothing.
abbrev pub Refuses : Bool → (t e v : ℕ) → Db → Type 0
Refuses approve t e v db =
    (error : ReplanError) × ((check_decision t e v db).0 ≡ raise error)
    × (decide_replan t e v approve db ≡ (raise error, db))

-- The call returns the answered event, and writes what `IsDecided` says.
abbrev pub Commits : Bool → (t e v : ℕ) → Db → Type 0
Commits approve t e v db =
    (c : Checked) × IsSound t e v db c
    × ((decide_replan t e v approve db).0 ≡ return (answered (decision_due approve) v c.event))
    × IsDecided e v approve db (decide_replan t e v approve db).1 c

-- Every call of `decide_replan` does one of two things. Either a check fails: it raises that error
-- and the tables are as they were. Or the event is pending on this trip, its proposal is proposed on
-- this trip, and the proposal's parent is active: it returns the event with the traveler's answer;
-- the proposal is active and its parent superseded when approved, the proposal is rejected when not;
-- and no other version, event or traveler changes.
pub decide_replan-decides :
    (approve : Bool) (t e v : ℕ) (db : Db) → Refuses approve t e v db ⊎ Commits approve t e v db
decide_replan-decides approve t e v db = by_outcome (check_decision t e v db).0 refl
  where
    reads :
        (o : Outcome ReplanError Checked)
        → (check_decision t e v db).0 ≡ o
        → check_decision t e v db ≡ (o, db)
    reads o h = λ i. (h i, check_decision-reads t e v db i)

    by_outcome :
        (o : Outcome ReplanError Checked)
        → (check_decision t e v db).0 ≡ o
        → Refuses approve t e v db ⊎ Commits approve t e v db
    by_outcome (raise error) h =
        inl (error, h, decide_replan-raise approve t e v db error (reads _ h))
    by_outcome (return c) h =
        let s = (check_decision-IsSound t e v db db c (reads _ h)).1 in
        let done = decide_replan-eq approve t e v db c s (reads _ h) in
        inr (
          c,
          s,
          ap (λ x. x.0) done,
          subst (λ x. IsDecided e v approve db x c) (sym (ap (λ x. x.1) done))
              (written-IsDecided approve t e v db c s),
        )

abbrev status_in : Option ReplanEvent → ReplanStatus
status_in none = pending
status_in (some e) = e.status

not-pending : (approve : Bool) → ¬ (decision_due approve ≡ pending)
unfolding decision_due
not-pending true h = ground (arith, h)
not-pending false h = ground (arith, h)

-- A proposal is decided once: after a `decide_replan` that returned, every further call on the same
-- event, by any traveler and for either answer, raises and leaves the tables as they are.
pub decide_replan_once :
    (approve again : Bool) (t e v t' v' : ℕ) (db db' : Db) (decided : ReplanEvent)
    → decide_replan t e v approve db ≡ (return decided, db')
    → (error : ReplanError) × (decide_replan t' e v' again db' ≡ (raise error, db'))
decide_replan_once approve again t e v t' v' db db' decided h =
    elim (decide_replan-decides again t' e v' db') [
      | inl (error, _, raised) ↦ (error, raised)
      | inr (c, s, _, _) ↦ absurd (answered_before (decide_replan-decides approve t e v db) c s)
    ]
  where
    answered_before :
        Refuses approve t e v db ⊎ Commits approve t e v db
        → (c : Checked) → IsSound t' e v' db' c
        → ⊥
    answered_before (inl (error, _, raised)) c s = ground (arith, sym h ∙ raised)
    answered_before (inr (first, _, _, done)) c s =
        let left : find_event e (decide_replan t e v approve db).1
            ≡ some (answered (decision_due approve) v first.event) =
          done.events e ∙ rw (==_refl e) refl in
        let met = sym s.event_found ∙ ap (λ x. find_event e x) (sym (ap (λ x. x.1) h)) ∙ left in
        not-pending approve (sym (ap (λ o. status_in o) met) ∙ s.event_pending)
