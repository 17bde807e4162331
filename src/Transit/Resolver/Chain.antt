-- ===== src/Transit/Resolver/Chain.antt =====
-- The fallback chain of syncinerary/tools/transit/resolver.py against a description of what each
-- pair is owed.
use mathlib.Core.List.Perm
use mathlib.Core.List.{Perm, append_assoc, map-append, append-nil}
use syncinerary.Prelude.{
  String, ℕ, suc, ◌≡◌, refl, sym, ap, ◌∙◌, subst, List, [], ◌∷◌, ◌++◌, map, Option, none, some,
  Bool, not, length, if◌then◌else◌,
}
use syncinerary.Prelude.Partial.{
  is_given, collect, missing, or_else, cons_if, either_of, missing-nothing, collect-nothing,
  missing-either, collect-either,
}
use syncinerary.Transit.Request.{
  Maths, TransitLocation, TransitDuration, TransitUnavailable, TransitMatrix, location_at,
}
use syncinerary.Transit.Resolver.{
  Pair, PairKey, Role, role_of, Request, Answer, failed, answered, TransitProvider, Search,
  Resolver, pair_id, leg_for, status_for, settle_all, settle_pair, take_answer, apply_answer, ask,
  provider_step, run_chain, estimated_leg, unavailable_arc, status_of, finish_pair, finish_pairs,
  required_pairs_of, start_search, leg_of, prefetch_pairwise,
}

cons_if-append {ℓ} : {B : Type ℓ} (o : Option B) (bs : List B) → cons_if o [] ++ bs ≡ cons_if o bs
cons_if-append none bs = refl
cons_if-append (some b) bs = refl

module _ (m : Maths) (request : Request m) where
  abbrev legs_of : Search m → List (TransitDuration m)
  legs_of s = map leg_of s.legs

  -- The leg that an answer has for a pair.
  abbrev leg_in : TransitMatrix m → Pair → Option (TransitDuration m)
  leg_in matrix pair = leg_for m (pair_id m request pair) matrix.legs

  -- The leg of the first answer that has one.
  abbrev pub first_leg : List (TransitMatrix m) → Pair → Option (TransitDuration m)
  first_leg [] pair = none
  first_leg (matrix ∷ matrices) pair = or_else (leg_in matrix pair) (first_leg matrices pair)

  abbrev none_left {ℓ} : {A : Type ℓ} → Option A → Pair → List Pair
  none_left none pair = pair ∷ []
  none_left (some _) pair = []

  none_left-append {ℓ} :
      {A : Type ℓ} (o : Option A) (pair : Pair) (rest : List Pair)
      → none_left o pair ++ rest ≡ (if not (is_given o) then pair ∷ rest else rest)
  none_left-append none pair rest = refl
  none_left-append (some a) pair rest = refl

  settle_pair-legs :
      (name : String) (role : Role) (key : PairKey) (pair : Pair)
      (found : Option (TransitDuration m)) (status : Option String) (s : Search m)
      → let after = settle_pair m name role key pair found status s in
        (legs_of after ≡ legs_of s ++ cons_if found [])
        × (after.outstanding ≡ s.outstanding ++ none_left found pair)
  settle_pair-legs name role key pair (some leg) status s =
      (map-append leg_of s.legs ((pair, leg) ∷ []), sym (append-nil s.outstanding))
  settle_pair-legs name role key pair none none s = (sym (append-nil (legs_of s)), refl)
  settle_pair-legs name role key pair none (some status) s = (sym (append-nil (legs_of s)), refl)

  settle_all-legs :
      (name : String) (role : Role) (matrix : TransitMatrix m) (pairs : List Pair) (s : Search m)
      → let after = settle_all m request name role matrix pairs s in
        (legs_of after ≡ legs_of s ++ collect (leg_in matrix) pairs)
        × (after.outstanding ≡ s.outstanding ++ missing (leg_in matrix) pairs)
  unfolding settle_all
  settle_all-legs name role matrix [] s =
      (sym (append-nil (legs_of s)), sym (append-nil s.outstanding))
  settle_all-legs name role matrix (pair ∷ pairs) s =
      let key = pair_id m request pair in
      let found = leg_in matrix pair in
      let status = status_for m key matrix.unavailable in
      let s1 = settle_pair m name role key pair found status s in
      let (legs1, left1) = settle_pair-legs name role key pair found status s in
      let (legs, left) = settle_all-legs name role matrix pairs s1 in
      (
        legs
            ∙ ap (λ l. l ++ collect (leg_in matrix) pairs) legs1
            ∙ append_assoc (legs_of s) (cons_if found []) (collect (leg_in matrix) pairs)
            ∙ ap (λ l. legs_of s ++ l) (cons_if-append found (collect (leg_in matrix) pairs)),
        left
            ∙ ap (λ l. l ++ missing (leg_in matrix) pairs) left1
            ∙ append_assoc s.outstanding (none_left found pair) (missing (leg_in matrix) pairs)
            ∙ ap (λ l. s.outstanding ++ l)
                (none_left-append found pair (missing (leg_in matrix) pairs)),
      )

  -- The matrices that the providers of the chain send back, in order, as the loop asks them.
  abbrev matrix_of : Option (Answer m) → List (TransitMatrix m) → List (TransitMatrix m)
  matrix_of none rest = rest
  matrix_of (some (failed kind)) rest = rest
  matrix_of (some (answered matrix)) rest = matrix ∷ rest

  unfoldable pub heard :
      (required index : ℕ) → List (TransitProvider m) → Search m → List (TransitMatrix m)
  heard required index [] s = []
  heard required index (provider ∷ providers) s =
      matrix_of (ask m request required provider s)
        (heard required (suc index) providers (provider_step m request required index provider s))

  -- The pairs are served by these answers, and by these alone.
  abbrev Served : List (TransitMatrix m) → Search m → Search m → Type 0
  Served matrices s after =
      (after.outstanding ≡ missing (first_leg matrices) s.outstanding)
      × Perm (legs_of after) (legs_of s ++ collect (first_leg matrices) s.outstanding)

  apply_answer-Served :
      (name : String) (role : Role) (answer : Option (Answer m)) (matrices : List (TransitMatrix m))
      (s after : Search m)
      → Served matrices (apply_answer m request name role answer s) after
      → Served (matrix_of answer matrices) s after
  unfolding apply_answer take_answer
  apply_answer-Served name role none matrices s after h = h
  apply_answer-Served name role (some (failed kind)) matrices s after h = h
  apply_answer-Served name role (some (answered matrix)) matrices s after (left, legs) =
      let (legs1, left1) =
        settle_all-legs name role matrix s.outstanding (record s { outstanding = [] }) in
      let f = leg_in matrix in
      let g = first_leg matrices in
      (
        left ∙ ap (missing g) left1 ∙ missing-either f g s.outstanding,
        Perm.trans legs (
            rw (legs1, left1)
              (subst (λ l. Perm l (legs_of s ++ collect (either_of f g) s.outstanding))
                (sym (
                  append_assoc (legs_of s) (collect f s.outstanding)
                    (collect g (missing f s.outstanding))))
                (Perm.append_left (legs_of s) (collect-either f g s.outstanding)))),
      )

  run_chain-Served :
      (required index : ℕ) (providers : List (TransitProvider m)) (s : Search m)
      → Served (heard required index providers s) s (run_chain m request required index providers s)
  unfolding heard run_chain provider_step
  run_chain-Served required index [] s = (
    sym (missing-nothing (first_leg []) s.outstanding (λ _. refl)),
    rw (collect-nothing (first_leg []) s.outstanding (λ _. refl), append-nil (legs_of s)) Perm.rfl,
  )
  run_chain-Served required index (provider ∷ providers) s =
      apply_answer-Served provider.name (role_of index) (ask m request required provider s)
        (heard required (suc index) providers (provider_step m request required index provider s)) s
        (run_chain m request required (suc index) providers
          (provider_step m request required index provider s))
        (run_chain-Served required (suc index) providers
          (provider_step m request required index provider s))

  abbrev pub arc_of : TransitUnavailable m → TransitLocation m × TransitLocation m
  arc_of u = (u.origin, u.destination)

  abbrev pub arc_at : Pair → TransitLocation m × TransitLocation m
  arc_at (i, j) = (location_at m i request.locations, location_at m j request.locations)

  -- The state and the admitted arcs after one pair of the end.
  abbrev after_finish : Option (TransitDuration m) → Pair → Search m → Search m
  after_finish found pair s = (finish_pair m request pair found (s, [])).0

  finish_pair-Served :
      (found : Option (TransitDuration m)) (pair : Pair) (s : Search m)
      (unavailable : List (TransitUnavailable m))
      → let (after, admitted) = finish_pair m request pair found (s, unavailable) in
        (legs_of after ≡ legs_of s ++ cons_if found [])
        × (map arc_of admitted ≡ map arc_of unavailable ++ map arc_at (none_left found pair))
  unfolding unavailable_arc
  finish_pair-Served none pair s unavailable = (
    sym (append-nil (legs_of s)),
    map-append arc_of unavailable
        (unavailable_arc m request pair (status_of m pair s.last_status) ∷ []),
  )
  finish_pair-Served (some leg) pair s unavailable =
      (map-append leg_of s.legs ((pair, leg) ∷ []), sym (append-nil (map arc_of unavailable)))

  finish_pairs-Served :
      (estimate_missing : Bool) (pairs : List Pair) (s : Search m)
      (unavailable : List (TransitUnavailable m))
      → let estimate = estimated_leg m estimate_missing request in
        let (after, admitted) = finish_pairs m estimate_missing request pairs (s, unavailable) in
        (legs_of after ≡ legs_of s ++ collect estimate pairs)
        × (map arc_of admitted ≡ map arc_of unavailable ++ map arc_at (missing estimate pairs))
  unfolding finish_pairs
  finish_pairs-Served estimate_missing [] s unavailable =
      (sym (append-nil (legs_of s)), sym (append-nil (map arc_of unavailable)))
  finish_pairs-Served estimate_missing (pair ∷ pairs) s unavailable =
      let estimate = estimated_leg m estimate_missing request in
      let found = estimate pair in
      let (s1, unavailable1) = finish_pair m request pair found (s, unavailable) in
      let (legs1, arcs1) = finish_pair-Served found pair s unavailable in
      let (legs, arcs) = finish_pairs-Served estimate_missing pairs s1 unavailable1 in
      (
        legs
            ∙ ap (λ l. l ++ collect estimate pairs) legs1
            ∙ append_assoc (legs_of s) (cons_if found []) (collect estimate pairs)
            ∙ ap (λ l. legs_of s ++ l) (cons_if-append found (collect estimate pairs)),
        arcs
            ∙ ap (λ l. l ++ map arc_at (missing estimate pairs)) arcs1
            ∙ append_assoc (map arc_of unavailable) (map arc_at (none_left found pair))
                (map arc_at (missing estimate pairs))
            ∙ ap (λ l. map arc_of unavailable ++ l)
                (sym (map-append arc_at (none_left found pair) (missing estimate pairs))
                  ∙ ap (map arc_at) (none_left-append found pair (missing estimate pairs))),
      )

  -- What a pair is owed: the leg of the first answer that has one, else the estimate.
  abbrev pub owed :
      (estimate_missing : Bool) → List (TransitMatrix m) → Pair → Option (TransitDuration m)
  owed estimate_missing matrices =
      either_of (first_leg matrices) (estimated_leg m estimate_missing request)

  -- The matrices that the chain of a resolver hears for this request.
  abbrev pub answers_to : Resolver m → List (TransitMatrix m)
  answers_to r =
      heard (length (required_pairs_of m request)) 0 r.providers (start_search m request r)

module _ (m : Maths) where
  -- The resolver does what it promises. With the matrices that the providers of the chain answered,
  -- in the order of the chain: the legs of the result are, up to their order, one for each required
  -- pair that is owed a leg, namely that of the first answer with a leg for the pair and else the
  -- estimate; and the arcs called unavailable are the required pairs that are owed none, in order.
  pub prefetch_pairwise-refines :
      (request : Request m) (r : Resolver m)
      → let (matrix, _) = prefetch_pairwise m request r in
        let required = required_pairs_of m request in
        let owed_leg = owed m request r.estimate_missing (answers_to m request r) in
        Perm matrix.legs (collect owed_leg required)
        × (map (arc_of m request) matrix.unavailable
            ≡ map (arc_at m request) (missing owed_leg required))
  unfolding prefetch_pairwise
  prefetch_pairwise-refines request r =
      let required = required_pairs_of m request in
      let s0 = start_search m request r in
      let s = run_chain m request (length required) 0 r.providers s0 in
      let f = first_leg m request (answers_to m request r) in
      let g = estimated_leg m r.estimate_missing request in
      let (left, legs) = run_chain-Served m request (length required) 0 r.providers s0 in
      let (legs2, arcs) = finish_pairs-Served m request r.estimate_missing s.outstanding s [] in
      (
        rw legs2 (
            Perm.trans (Perm.append_right (collect g s.outstanding) legs)
              (rw left (collect-either f g required))),
        arcs
            ∙ ap (λ l. map (arc_at m request) (missing g l)) left
            ∙ ap (map (arc_at m request)) (missing-either f g required),
      )
