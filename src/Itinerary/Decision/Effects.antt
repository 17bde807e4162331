-- ===== src/Itinerary/Decision/Effects.antt =====
-- What a decision does to the tables.
use syncinerary.Prelude.{
  ℕ, ◌≡◌, refl, ◌∙◌, Option, none, some, Bool, true, false, Outcome, return, raise, and_then,
  find_row-key, pure, ap, sym, subst, ◌==◌, arith,
}
use syncinerary.Itinerary.Decision.{
  ReplanError, ReplanStatus, pending, ItineraryStatus, proposed, active, ReplanEvent,
  ItineraryVersion, Db, Store, version_key, require, present, is_pending, is_proposed, is_active,
  find_event, find_version, Checked, check_decision,
}

-- What holds of a checked decision, in the tables that it was checked in.
pub record IsSound (trip_id event_id traveler_id : ℕ) (db : Db) (c : Checked) : Type 0 where
  pub event_found : find_event event_id db ≡ some c.event
  pub event_trip : c.event.trip_id ≡ trip_id
  pub event_pending : c.event.status ≡ pending
  pub proposal_found : find_version c.proposal.id db ≡ some c.proposal
  pub proposal_trip : c.proposal.trip_id ≡ trip_id
  pub proposal_proposed : c.proposal.status ≡ proposed
  pub parent_of : c.proposal.parent_version_id ≡ some c.parent.id
  pub parent_found : find_version c.parent.id db ≡ some c.parent
  pub parent_active : c.parent.status ≡ active

require-eq :
    (b : Bool) (e : ReplanError) {A : Type 0} (k : Store A) (db : Db) (a : A) (db' : Db)
    → and_then (require b e db).0 (λ _. k) (require b e db).1 ≡ (return a, db')
    → (b ≡ true) × (k db ≡ (return a, db'))
unfolding require
require-eq true e k db a db' h = (refl, h)
require-eq false e k db a db' h = absurd (ground (arith, ap (λ x. x.0) h))

present-eq :
    {X : Type 0} (o : Option X) (e : ReplanError) {A : Type 0} (k : X → Store A) (db : Db) (a : A)
    (db' : Db)
    → and_then (present o e db).0 k (present o e db).1 ≡ (return a, db')
    → (x : X) × (o ≡ some x) × (k x db ≡ (return a, db'))
unfolding present
present-eq none e k db a db' h = absurd (ground (arith, ap (λ x. x.0) h))
present-eq (some x) e k db a db' h = (x, refl, h)

is_pending-eq : (s : ReplanStatus) → is_pending s ≡ true → s ≡ pending
is_pending-eq s h = ground arith

is_proposed-eq : (s : ItineraryStatus) → is_proposed s ≡ true → s ≡ proposed
is_proposed-eq s h = ground arith

is_active-eq : (s : ItineraryStatus) → is_active s ≡ true → s ≡ active
is_active-eq s h = ground arith

pub ==-eq : (a b : ℕ) → (a == b) ≡ true → a ≡ b
==-eq a b h = ground (arith, h)

pub some-eq : {A : Type 0} (a b : A) → Path (Option A) (some a) (some b) → a ≡ b
some-eq a b h = ap (λ o. elim o [ none ↦ a | some x ↦ x ]) h

-- Reading the same row again gives the same row.
locked-same :
    (i : ℕ) (first again : ItineraryVersion) (db : Db)
    → find_version i db ≡ some first
    → find_version first.id db ≡ some again
    → again ≡ first
locked-same i first again db h h' =
    some-eq again first
      (sym h' ∙ ap (λ x. find_version x db) (find_row-key version_key i db.versions first h) ∙ h)

abbrev result_or : Checked → Outcome ReplanError Checked → Checked
result_or c (return a) = a
result_or c (raise e) = c

checks-IsSound :
    (trip_id event_id traveler_id : ℕ) (db db' : Db) (c : Checked) (event : ReplanEvent)
    (proposal parent locked : ItineraryVersion) (version_id parent_id : ℕ)
    → (find_event event_id db ≡ some event)
      × ((event.trip_id == trip_id) ≡ true)
      × (is_pending event.status ≡ true)
    → (find_version version_id db ≡ some proposal)
      × ((proposal.trip_id == trip_id) ≡ true)
      × (proposal.parent_version_id ≡ some parent_id)
    → (find_version parent_id db ≡ some parent) × (find_version proposal.id db ≡ some locked)
    → (is_proposed locked.status ≡ true) × (is_active parent.status ≡ true)
    → pure {E = ReplanError} (record { event = event; proposal = locked; parent = parent }) db
      ≡ (return c, db')
    → (db' ≡ db) × IsSound trip_id event_id traveler_id db c
checks-IsSound trip_id event_id traveler_id db db' c event proposal parent locked version_id
      parent_id (e3, e4, e5) (e7, e8, e9) (e10, e11) (e12, e13) h =
    let parent_is = find_row-key version_key parent_id db.versions parent e10 in
    let same = locked-same version_id proposal locked db e7 e11 in
    (
      sym (ap (λ x. x.1) h),
      subst (λ x. IsSound trip_id event_id traveler_id db x) (ap (λ x. result_or c x.0) h)
          (record {
            event_found = e3;
            event_trip = ==-eq _ _ e4;
            event_pending = is_pending-eq _ e5;
            proposal_found = ap (λ x. find_version x.id db) same ∙ e11;
            proposal_trip = ap (λ x. x.trip_id) same ∙ ==-eq _ _ e8;
            proposal_proposed = is_proposed-eq _ e12;
            parent_of = ap (λ x. x.parent_version_id) same ∙ e9 ∙ ap (λ x. some x) (sym parent_is);
            parent_found = ap (λ x. find_version x db) parent_is ∙ e10;
            parent_active = is_active-eq _ e13;
          }),
    )

pub check_decision-IsSound :
    (trip_id event_id traveler_id : ℕ) (db db' : Db) (c : Checked)
    → check_decision trip_id event_id traveler_id db ≡ (return c, db')
    → (db' ≡ db) × IsSound trip_id event_id traveler_id db c
unfolding check_decision
check_decision-IsSound trip_id event_id traveler_id db db' c h =
    let (traveler, e1, h1) = present-eq _ _ _ db c db' h in
    let (e2, h2) = require-eq _ _ _ db c db' h1 in
    let (event, e3, h3) = present-eq _ _ _ db c db' h2 in
    let (e4, h4) = require-eq _ _ _ db c db' h3 in
    let (e5, h5) = require-eq _ _ _ db c db' h4 in
    let (version_id, e6, h6) = present-eq _ _ _ db c db' h5 in
    let (proposal, e7, h7) = present-eq _ _ _ db c db' h6 in
    let (e8, h8) = require-eq _ _ _ db c db' h7 in
    let (parent_id, e9, h9) = present-eq _ _ _ db c db' h8 in
    let (parent, e10, h10) = present-eq _ _ _ db c db' h9 in
    let (locked, e11, h11) = present-eq _ _ _ db c db' h10 in
    let (e12, h12) = require-eq _ _ _ db c db' h11 in
    let (e13, h13) = require-eq _ _ _ db c db' h12 in
    checks-IsSound trip_id event_id traveler_id db db' c event proposal parent locked version_id
      parent_id (e3, e4, e5) (e7, e8, e9) (e10, e11) (e12, e13) h13

require-reads :
    (b : Bool) (e : ReplanError) {A : Type 0} (k : Store A) (db : Db)
    → (k db).1 ≡ db
    → (and_then (require b e db).0 (λ _. k) (require b e db).1).1 ≡ db
unfolding require
require-reads true e k db h = h
require-reads false e k db h = refl

present-reads :
    {X : Type 0} (o : Option X) (e : ReplanError) {A : Type 0} (k : X → Store A) (db : Db)
    → ((x : X) → (k x db).1 ≡ db)
    → (and_then (present o e db).0 k (present o e db).1).1 ≡ db
unfolding present
present-reads none e k db h = refl
present-reads (some x) e k db h = h x

pub check_decision-reads :
    (trip_id event_id traveler_id : ℕ) (db : Db)
    → (check_decision trip_id event_id traveler_id db).1 ≡ db
unfolding check_decision
check_decision-reads t e v db = present-reads _ _ _ db (λ traveler. require-reads _ _ _ db (
    present-reads _ _ _ db (λ event. require-reads _ _ _ db (
      require-reads _ _ _ db (
        present-reads _ _ _ db (λ version_id. present-reads _ _ _ db (λ proposal.
          require-reads _ _ _ db (
            present-reads _ _ _ db (λ parent_id. present-reads _ _ _ db (λ parent.
              present-reads _ _ _ db
                (λ locked. require-reads _ _ _ db (require-reads _ _ _ db refl))))))))))))
