-- ===== src/Gather/Dedup/Survivors.antt =====
-- What survives the merge of syncinerary/agents/gather/dedup.py.
use mathlib.Core.List.{append_assoc, append-nil}
use syncinerary.Prelude.{
  ℕ, ◌≡◌, refl, sym, ap, ◌∙◌, subst, String, List, [], ◌∷◌, ◌++◌, Option, none, some, Bool, true,
  false, ◌||◌, any_by, any_by-append, any_by-cong, not, arith, Bool-cases, inl, inr, if◌then◌else◌,
}
use syncinerary.Transit.Request.{Maths}
use syncinerary.Gather.Candidates.{
  Source, discovery, buzz, personal, SourceType, same_source_type, same_score, same_source,
  CandidatePlace,
}
use syncinerary.Gather.Dedup.{
  same_place, add_sources, merge_candidate_evidence, absorb, resolve_all, dedup_candidates,
}

same_source_type-eq : (a b : SourceType) → same_source_type a b ≡ true → a ≡ b
same_source_type-eq discovery discovery h = refl
same_source_type-eq buzz buzz h = refl
same_source_type-eq personal personal h = refl
same_source_type-eq discovery buzz h = absurd (ground (arith, h))
same_source_type-eq discovery personal h = absurd (ground (arith, h))
same_source_type-eq buzz discovery h = absurd (ground (arith, h))
same_source_type-eq buzz personal h = absurd (ground (arith, h))
same_source_type-eq personal discovery h = absurd (ground (arith, h))
same_source_type-eq personal buzz h = absurd (ground (arith, h))

same_score-eq : (a b : Option ℕ) → same_score a b ≡ true → a ≡ b
same_score-eq none none h = refl
same_score-eq (some a) (some b) h = ap some (ground (arith, h))
same_score-eq none (some b) h = absurd (ground (arith, h))
same_score-eq (some a) none h = absurd (ground (arith, h))

same_source-eq : (a b : Source) → same_source a b ≡ true → a ≡ b
same_source-eq a b h =
    let ts = same_source_type-eq a.type b.type (ground (arith, h)) in
    let ss = same_score-eq a.score b.score (ground (arith, h)) in
    let ds : a.detail ≡ b.detail = ground (arith, h) in
    λ i. record { type = ts i; score = ss i; detail = ds i }

add_sources-same :
    (s : Source) (sources more : List Source)
    → any_by (same_source s) (add_sources sources more)
      ≡ (any_by (same_source s) sources || any_by (same_source s) more)
unfolding add_sources
add_sources-same s sources [] = ground arith
add_sources-same s sources (x ∷ more) =
    add_sources-same s (if any_by (same_source x) sources then sources else sources ++ x ∷ []) more
    ∙ elim (Bool-cases (any_by (same_source x) sources)) [
      | inr new ↦ rw new (ground (arith, any_by-append (same_source s) sources (x ∷ [])))
      | inl old ↦ rw old (elim (Bool-cases (same_source s x)) [
        | inl e ↦
            (let found : any_by (same_source s) sources ≡ true = rw (same_source-eq s x e) old in
              rw found refl)
        | inr e ↦ rw e refl
      ])
    ]

-- A merge keeps what the test reads.
record Keeps {ℓ} {A : Type ℓ} (same : A → A → Bool) (merge : A → A → A) : Type ℓ where
  left : (k d x : A) → same (merge k d) x ≡ same k x
  right : (x k d : A) → same x (merge k d) ≡ same x k

module _ {ℓ} {A : Type ℓ} (same : A → A → Bool) where
  -- No later element is the same as an earlier one.
  abbrev pub Separate : List A → Type 0
  Separate [] = Unit
  Separate (k ∷ ks) = (any_by (same k) ks ≡ false) × Separate ks

  -- Nothing kept is the same as the new element.
  abbrev is_new : A → List A → Bool
  is_new c ks = not (any_by (λ j. same j c) ks)

module _ {ℓ} {A : Type ℓ} {same : A → A → Bool} {merge : A → A → A} (keeps : Keeps same merge) where
  any_same-absorb :
      (k c : A) (ks : List A)
      → any_by (same k) ks ≡ false
      → same k c ≡ false
      → any_by (same k) (absorb same merge c ks) ≡ false
  unfolding absorb
  any_same-absorb k c [] h other = rw other refl
  any_same-absorb k c (j ∷ ks) h other = elim (Bool-cases (same j c)) [
    | inl e ↦ rw e (rw (keeps.right k j c) h)
    | inr e ↦ rw e (
        let first : same k j ≡ false = ground (arith, h) in
        rw first (any_same-absorb k c ks (ground (arith, h)) other))
  ]

  any_same-merge : (k c : A) (ks : List A) → any_by (same (merge k c)) ks ≡ any_by (same k) ks
  any_same-merge k c ks = any_by-cong (same (merge k c)) (same k) ks (keeps.left k c)

  absorb-Separate :
      (c : A) (ks : List A) → Separate same ks → Separate same (absorb same merge c ks)
  unfolding absorb
  absorb-Separate c [] h = (refl, tt)
  absorb-Separate c (k ∷ ks) h = elim (Bool-cases (same k c)) [
    | inl e ↦ rw e (any_same-merge k c ks ∙ h.0, h.1)
    | inr e ↦ rw e (any_same-absorb k c ks h.0 e, absorb-Separate c ks h.1)
  ]

  resolve_all-Separate :
      (cs ks : List A) → Separate same ks → Separate same (resolve_all same merge ks cs)
  unfolding resolve_all
  resolve_all-Separate [] ks h = h
  resolve_all-Separate (c ∷ cs) ks h =
      resolve_all-Separate cs (absorb same merge c ks) (absorb-Separate c ks h)

  absorb-new :
      (c : A) (ks : List A)
      → any_by (λ j. same j c) ks ≡ false
      → absorb same merge c ks ≡ ks ++ c ∷ []
  unfolding absorb
  absorb-new c [] h = refl
  absorb-new c (k ∷ ks) h =
      let other : same k c ≡ false = ground (arith, h) in
      rw other (ap (λ l. k ∷ l) (absorb-new c ks (ground (arith, h))))

  Separate-new :
      (ks cs : List A) (c : A) → Separate same (ks ++ c ∷ cs) → any_by (λ j. same j c) ks ≡ false
  Separate-new [] cs c h = refl
  Separate-new (k ∷ ks) cs c h =
      ground (arith, h.0, any_by-append (same k) ks (c ∷ cs), Separate-new ks cs c h.1)

  -- What is separate already stays as it is.
  resolve_all-still :
      (ks cs : List A) → Separate same (ks ++ cs) → resolve_all same merge ks cs ≡ ks ++ cs
  unfolding resolve_all
  resolve_all-still ks [] h = sym (append-nil ks)
  resolve_all-still ks (c ∷ cs) h = rw (absorb-new c ks (Separate-new ks cs c h)) (
      resolve_all-still (ks ++ c ∷ []) cs
        (subst (Separate same) (sym (append_assoc ks (c ∷ []) cs)) h)
      ∙ append_assoc ks (c ∷ []) cs)

module _ {ℓ} {A : Type ℓ} (same : A → A → Bool) (merge : A → A → A) (p : A → Bool)
    (unites : (k d : A) → p (merge k d) ≡ (p k || p d)) where
  any_by-absorb : (c : A) (ks : List A) → any_by p (absorb same merge c ks) ≡ (any_by p ks || p c)
  unfolding absorb
  any_by-absorb c [] = ground arith
  any_by-absorb c (k ∷ ks) = elim (Bool-cases (same k c)) [
    | inl e ↦ rw e (rw (unites k c) (ground arith))
    | inr e ↦ rw e (rw (any_by-absorb c ks) (ground arith))
  ]

  any_by-resolve_all :
      (cs ks : List A) → any_by p (resolve_all same merge ks cs) ≡ (any_by p ks || any_by p cs)
  unfolding resolve_all
  any_by-resolve_all [] ks = ground arith
  any_by-resolve_all (c ∷ cs) ks =
      any_by-resolve_all cs (absorb same merge c ks)
      ∙ ap (λ b. b || any_by p cs) (any_by-absorb c ks)
      ∙ ground arith

module _ (m : Maths) (words : String → List String) where
  places-Keeps : Keeps (same_place m words) merge_candidate_evidence
  unfolding same_place merge_candidate_evidence
  places-Keeps = record { left = λ k d x. refl; right = λ x k d. refl }

  -- After the merge no two cards are the same place: no later one is found the same as an earlier one.
  -- And the merge is done: a second one changes nothing.
  pub dedup_candidates-Separate :
      (candidates : List (CandidatePlace m))
      → let resolved = dedup_candidates m words candidates in
        Separate (same_place m words) resolved × (dedup_candidates m words resolved ≡ resolved)
  unfolding dedup_candidates
  dedup_candidates-Separate candidates =
      let apart = resolve_all-Separate places-Keeps candidates [] tt in
      (apart, resolve_all-still places-Keeps [] (dedup_candidates m words candidates) apart)

  -- The card has this source.
  abbrev pub is_from : Source → CandidatePlace m → Bool
  is_from s c = any_by (same_source s) c.sources

  merge-is_from :
      (s : Source) (k d : CandidatePlace m)
      → is_from s (merge_candidate_evidence k d) ≡ (is_from s k || is_from s d)
  unfolding merge_candidate_evidence
  merge-is_from s k d = add_sources-same s k.sources d.sources

  -- No evidence is lost and none is made up: a source stands on some card after the merge exactly when
  -- it stood on some card before.
  pub dedup_candidates-sources :
      (s : Source) (candidates : List (CandidatePlace m))
      → any_by (is_from s) (dedup_candidates m words candidates) ≡ any_by (is_from s) candidates
  unfolding dedup_candidates
  dedup_candidates-sources s candidates =
      any_by-resolve_all (same_place m words) merge_candidate_evidence (is_from s) (merge-is_from s)
        candidates []
