-- ===== src/Trips/Invites/Uses.antt =====
-- How often a join code is used, over any sequence of claims and revocations.
use syncinerary.Prelude.{
  ℕ, ◌+◌, ◌≤◌, ◌≡◌, refl, ◌∙◌, List, [], ◌∷◌, Option, none, some, true, false, find_row, update_row,
  find_row-update_row, ◌==◌, arith, Bool-cases, inl, inr,
}
use syncinerary.Trips.Invites.{
  TripInvite, invite_key, is_none, is_usable, used_once, claimed_row, claim, revoked_row, revoke,
}

pub data Event : Type 0 where
  claims : (now : ℕ) → Event
  revokes : (now : ℕ) → Event

abbrev accepted_by : Option TripInvite → ℕ
accepted_by none = 0
accepted_by (some r) = 1

-- The claims of one code that succeed, and the table in the end.
pub accepted : (invite_id : ℕ) → List Event → List TripInvite → ℕ × List TripInvite
unfolding claim revoke
accepted i [] rows = (0, rows)
accepted i (claims now ∷ es) rows =
    let (result, rows') = claim i now rows in
    let (n, rows'') = accepted i es rows' in (accepted_by result + n, rows'')
accepted i (revokes now ∷ es) rows = accepted i es (revoke i now rows)

found_after :
    (i : ℕ) (f : TripInvite → TripInvite) (rows : List TripInvite) (r : TripInvite)
    → ((x : TripInvite) → (f x).id ≡ x.id)
    → find_row invite_key i rows ≡ some r
    → find_row invite_key i (update_row invite_key i f rows) ≡ some (f r)
found_after i f rows r keeps found =
    find_row-update_row invite_key i i f rows keeps
    ∙ (let same : (i == i) ≡ true = ground arith in rw (same, found) refl)

claimed_row-id : (now : ℕ) (x : TripInvite) → (claimed_row now x).id ≡ x.id
unfolding is_usable
claimed_row-id now x = ground arith

-- What the uses of a row come to.
pub record IsCounted (i n : ℕ) (r : TripInvite) (rows : List TripInvite) : Type 0 where
  pub last : TripInvite
  pub found : find_row invite_key i rows ≡ some last
  pub counted : last.uses ≡ r.uses + n
  pub capped : last.uses ≤ r.max_uses

not_usable : (now : ℕ) (r : TripInvite) → is_none r.revoked_at ≡ false → is_usable now r ≡ false
unfolding is_usable
not_usable now r h = rw h refl

usable-room : (now : ℕ) (r : TripInvite) → is_usable now r ≡ true → r.uses + 1 ≤ r.max_uses
unfolding is_usable
usable-room now r h = ground (arith, h)

found_claimed :
    (i now : ℕ) (rows : List TripInvite) (r : TripInvite)
    → find_row invite_key i rows ≡ some r
    → find_row invite_key i (update_row invite_key i (claimed_row now) rows)
      ≡ some (claimed_row now r)
found_claimed i now rows r found = found_after i (claimed_row now) rows r (claimed_row-id now) found

-- However claims and revocations of a code follow each other, the code ends with its uses from before
-- and one more for each claim that succeeded, and never with more than its limit.
pub accepted-IsCounted :
    (i : ℕ) (es : List Event) (rows : List TripInvite) (r : TripInvite)
    → find_row invite_key i rows ≡ some r
    → r.uses ≤ r.max_uses
    → IsCounted i (accepted i es rows).0 r (accepted i es rows).1
unfolding accepted
accepted-IsCounted i [] rows r found few = record {
  last = r;
  found = found;
  counted = omega arith;
  capped = few;
}
accepted-IsCounted i (claims now ∷ es) rows r found few = elim (Bool-cases (is_usable now r)) [
  | inl free ↦
      let rest =
        accepted-IsCounted i es (update_row invite_key i (claimed_row now) rows) (used_once r)
          (found_claimed i now rows r found ∙ rw free refl) (usable-room now r free) in
      rw (found, free)
        (record {
          last = rest.last;
          found = rest.found;
          counted = omega (arith, rest.counted);
          capped = rest.capped;
        })
  | inr refused ↦
      let rest =
        accepted-IsCounted i es (update_row invite_key i (claimed_row now) rows) r
          (found_claimed i now rows r found ∙ rw refused refl) few in
      rw (found, refused)
        (record {
          last = rest.last;
          found = rest.found;
          counted = omega (arith, rest.counted);
          capped = rest.capped;
        })
]
accepted-IsCounted i (revokes now ∷ es) rows r found few =
    let rest =
      accepted-IsCounted i es (revoke i now rows) (revoked_row now r)
        (found_after i (revoked_row now) rows r (λ x. refl) found) few in
    record { last = rest.last; found = rest.found; counted = rest.counted; capped = rest.capped }

-- A revoked code lets nobody in: no claim after the revocation succeeds, whatever else follows.
pub accepted_revoked :
    (i : ℕ) (es : List Event) (rows : List TripInvite) (r : TripInvite)
    → find_row invite_key i rows ≡ some r
    → is_none r.revoked_at ≡ false
    → (accepted i es rows).0 ≡ 0
unfolding accepted
accepted_revoked i [] rows r found gone = refl
accepted_revoked i (claims now ∷ es) rows r found gone =
    let refused : is_usable now r ≡ false = not_usable now r gone in
    let rest =
      accepted_revoked i es (update_row invite_key i (claimed_row now) rows) r
        (found_claimed i now rows r found ∙ rw refused refl) gone in
    rw (found, refused) (omega (arith, rest))
accepted_revoked i (revokes now ∷ es) rows r found gone =
    accepted_revoked i es (revoke i now rows) (revoked_row now r)
      (found_after i (revoked_row now) rows r (λ x. refl) found) refl
