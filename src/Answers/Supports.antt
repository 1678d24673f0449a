-- ===== src/Answers/Supports.antt =====
-- Which units of a result support an answer of src/lib/analysis/closed-world.ts.
use monidhackson.Base.{
  ◌≡◌, refl, ◌⊎◌, inl, inr, sym, ap, subst, Bool, true, false, not, ◌&&◌, ◌||◌, List, [], ◌∷◌, ◌++◌,
  is_some, map, filter, any, arith,
}
use monidhackson.Base.Members.{IsIn, IsIn-append, filter-IsIn, IsIn-filter}
use monidhackson.PageIndex.{Text}
use monidhackson.Citations.Pages.{Citation}
use monidhackson.Costs.{Float}
use monidhackson.Answers.{
  AnalysisResult, AnswerUnit, Ranked, EvidenceClaim, Requirement, Risk, Conflict, is_active,
  is_submission, of_claim, of_requirement, of_risk, of_conflict, answer_units, tokens,
  overlap_score, scored, is_candidate, candidates,
}

both : (a b : Bool) → a && b ≡ true → (a ≡ true) × (b ≡ true)
both a b h = ground arith

gate : (a r s : Bool) → a && (r || not s) ≡ true → (r ≡ true) ⊎ ((a ≡ true) × (s ≡ false))
gate true true s h = inl refl
gate true false true h = absurd cc
gate true false false h = inr (refl, refl)
gate false r s h = absurd cc

map-IsIn :
    {A B : Type 0} (f : A → B) (y : B) (xs : List A)
    → IsIn y (map f xs)
    → (x : A) × IsIn x xs × (f x ≡ y)
map-IsIn f y [] m = absurd m
map-IsIn f y (x ∷ xs) (inl same) = (x, inl refl, same)
map-IsIn f y (x ∷ xs) (inr m) = let (x', m', same) = map-IsIn f y xs m in (x', inr m', same)

IsIn-map : {A B : Type 0} (f : A → B) (x : A) (xs : List A) → IsIn x xs → IsIn (f x) (map f xs)
IsIn-map f x [] m = absurd m
IsIn-map f x (y ∷ ys) (inl same) = inl (ap f same)
IsIn-map f x (y ∷ ys) (inr m) = inr (IsIn-map f x ys m)

module _ (float : Float) (normalize : Text → Text) where
  -- A unit of the result that shares words with the question and has a verified citation.
  unfoldable pub Supports : Text → AnalysisResult → AnswerUnit float → Type 0
  Supports question result unit =
      IsIn unit (answer_units float result)
      × (float.is_positive (overlap_score float normalize (tokens float normalize question) unit)
          ≡ true)
      × (any (λ (c : Citation). c.verified) unit.citations ≡ true)

  -- Without a resolved submission authority only an active requirement of another category counts.
  pub IsAllowed : AnalysisResult → AnswerUnit float → Type 0
  IsAllowed result unit =
      (is_some result.submission_method ≡ true)
      ⊎ ((r : Requirement) × IsIn r result.requirements
          × (is_active r.status ≡ true)
          × (is_submission r.category ≡ false)
          × (unit.text ≡ r.text)
          × (unit.citations ≡ r.citations))

  pub answer_units-IsAllowed :
      (result : AnalysisResult) (unit : AnswerUnit float)
      → IsIn unit (answer_units float result)
      → IsAllowed result unit
  unfolding answer_units IsAllowed
  answer_units-IsAllowed result unit m =
      let resolved = is_some result.submission_method in
      let claims = filter (λ (c : EvidenceClaim). resolved && is_active c.status) result.claims in
      let requirements =
        filter
          (λ (r : Requirement). is_active r.status && (resolved || not (is_submission r.category)))
          result.requirements in
      let risks = filter (λ (r : Risk). resolved) result.risks in
      let conflicts = filter (λ (c : Conflict). resolved) result.conflicts in
      let other_units = map (of_risk float) risks ++ map (of_conflict float) conflicts in
      let units = map (of_requirement float) requirements ++ other_units in
      elim (IsIn-append unit (map (of_claim float) claims) units m) [
        | inl in_claims ↦
            let (c, kept, same) = map-IsIn (of_claim float) unit claims in_claims in
            let (_, passes) =
              filter-IsIn (λ (c : EvidenceClaim). resolved && is_active c.status) c result.claims
                kept in
            inl (both resolved (is_active c.status) passes).0
        | inr rest ↦
            elim (IsIn-append unit (map (of_requirement float) requirements) other_units rest) [
              | inl in_requirements ↦
                  let (r, kept, same) =
                    map-IsIn (of_requirement float) unit requirements in_requirements in
                  let (stands, passes) =
                    filter-IsIn
                      (λ (r : Requirement).
                        is_active r.status && (resolved || not (is_submission r.category)))
                      r result.requirements kept in
                  elim (gate (is_active r.status) resolved (is_submission r.category) passes) [
                    | inl e ↦ inl e
                    | inr (is_current, other) ↦ inr (
                      r,
                      stands,
                      is_current,
                      other,
                      ap (λ (u : AnswerUnit float). u.text) (sym same),
                      ap (λ (u : AnswerUnit float). u.citations) (sym same),
                    )
                  ]
              | inr rest' ↦
                  elim (IsIn-append unit (map (of_risk float) risks)
                    (map (of_conflict float) conflicts) rest') [
                      | inl in_risks ↦
                          let (r, kept, same) = map-IsIn (of_risk float) unit risks in_risks in
                          let (_, passes) =
                            filter-IsIn (λ (r : Risk). resolved) r result.risks kept in
                          inl passes
                      | inr in_conflicts ↦
                          let (c, kept, same) =
                            map-IsIn (of_conflict float) unit conflicts in_conflicts in
                          let (_, passes) =
                            filter-IsIn (λ (c : Conflict). resolved) c result.conflicts kept in
                          inl passes
                    ]
            ]
      ]

  pub candidates-Supports :
      (question : Text) (result : AnalysisResult) (r : Ranked float)
      → IsIn r (candidates float normalize question result)
      → Supports question result r.unit
        × (r.score ≡ overlap_score float normalize (tokens float normalize question) r.unit)
  unfolding candidates Supports
  candidates-Supports question result r m =
      let (stands, passes) =
        filter-IsIn (is_candidate float normalize) r
          (map (scored float normalize (tokens float normalize question))
            (answer_units float result))
          m in
      let (unit, m', same) = map-IsIn _ r _ stands in
      let score = overlap_score float normalize (tokens float normalize question) in
      let passes' =
        subst (λ (q : Ranked float). is_candidate float normalize q ≡ true) (sym same) passes in
      subst (λ (q : Ranked float). Supports question result q.unit × (q.score ≡ score q.unit)) same
        (let (positive, cited) = both _ _ passes' in (m', positive, cited), refl)

  pub Supports-candidates :
      (question : Text) (result : AnalysisResult) (unit : AnswerUnit float)
      → Supports question result unit
      → IsIn
          (scored float normalize (tokens float normalize question) unit)
          (candidates float normalize question result)
  unfolding candidates Supports
  Supports-candidates question result unit (m, positive, cited) =
      IsIn-filter (is_candidate float normalize)
        (scored float normalize (tokens float normalize question) unit) _ (IsIn-map _ unit _ m)
        (ground arith)
