-- ===== src/Trips/Invites.antt =====
-- Join codes: TripInvite.is_usable of syncinerary/domain/models.py, and claim and revoke of
-- TripInviteRepository in syncinerary/store/repositories/group.py. The test and the count of a claim
-- are one statement of the database, so a claim is one step on the table. Times are numbers.
pub mod Uses
use syncinerary.Prelude.{
  ℕ, ◌+◌, List, ◌∷◌, Option, none, some, Bool, true, false, ◌&&◌, find_row, update_row, ltb, ◌==◌,
  if◌then◌else◌,
}

pub record TripInvite : Type 0 where
  pub id : ℕ
  pub trip_id : ℕ
  pub expires_at : ℕ
  pub max_uses : ℕ
  pub uses : ℕ
  pub revoked_at : Option ℕ

abbrev pub invite_key : TripInvite → ℕ
invite_key r = r.id

abbrev pub is_none : Option ℕ → Bool
is_none none = true
is_none (some t) = false

unfoldable pub is_usable : (now : ℕ) → TripInvite → Bool
is_usable now r = is_none r.revoked_at && (ltb now r.expires_at && ltb r.uses r.max_uses)

abbrev pub used_once : TripInvite → TripInvite
used_once r = record r { uses = r.uses + 1 }

abbrev pub claimed_row : (now : ℕ) → TripInvite → TripInvite
claimed_row now r = if is_usable now r then used_once r else r

abbrev claim_result : (now : ℕ) → Option TripInvite → Option TripInvite
claim_result now none = none
claim_result now (some r) = if is_usable now r then some (used_once r) else none

-- The row that the statement returns, and the table after it.
unfoldable pub claim : (invite_id now : ℕ) → List TripInvite → Option TripInvite × List TripInvite
unfolding is_usable find_row update_row
claim invite_id now rows = (
  claim_result now (find_row invite_key invite_id rows),
  update_row invite_key invite_id (claimed_row now) rows,
)

abbrev pub revoked_row : (now : ℕ) → TripInvite → TripInvite
revoked_row now r = record r { revoked_at = some now }

unfoldable pub revoke : (invite_id now : ℕ) → List TripInvite → List TripInvite
unfolding update_row
revoke invite_id now rows = update_row invite_key invite_id (revoked_row now) rows

-- `create_for_trip`, with the identifier of the new row; the code itself is random and left out.
unfoldable create_for_trip :
    (fresh trip_id now invite_ttl max_uses : ℕ) → List TripInvite → List TripInvite
create_for_trip fresh trip_id now invite_ttl max_uses rows =
    record {
      id = fresh;
      trip_id = trip_id;
      expires_at = now + invite_ttl;
      max_uses = max_uses;
      uses = 0;
      revoked_at = none;
    }
    ∷ rows
