-- ===== src/Answers/Grounded.antt =====
-- Where an answer of src/lib/analysis/closed-world.ts comes from.
use monidhackson.Base.{◌≤◌, ◌≡◌, ◌⊎◌, Bool, true, false, not, [], All, length, if◌then◌else◌}
use monidhackson.Base.Members.{IsIn}
use monidhackson.PageIndex.{Text}
use monidhackson.Citations.Pages.{Citation}
use monidhackson.Costs.{Float}
use monidhackson.Answers.{
  AnalysisResult, AnswerUnit, answered, partial, not_found, quoted, QuestionResponse, tokens,
  overlap_score,
}
use monidhackson.Answers.Supports.{Supports, IsAllowed}

module _ (float : Float) (normalize : Text → Text) (less : float.Number → float.Number → Bool) where
  -- What an answer is: a refusal of a question that leaves the package; nothing, where no unit
  -- supports an answer; or the text of a unit that does.
  pub IsGrounded : Bool → Text → AnalysisResult → QuestionResponse → Type 0
  IsGrounded is_violation question result response =
      ((response.answerability ≡ not_found)
        × (response.citations ≡ [])
        × ((is_violation ≡ true)
            ⊎ ((unit : AnswerUnit float) → ¬ Supports float normalize question result unit)))
      ⊎ ((is_violation ≡ false)
          × ((unit : AnswerUnit float) × Supports float normalize question result unit
              × IsAllowed float normalize result unit
              × ((other : AnswerUnit float)
                  → Supports float normalize question result other
                  → less (overlap_score float normalize (tokens float normalize question) unit)
                      (overlap_score float normalize (tokens float normalize question) other)
                    ≡ false)
              × (response.answer ≡ quoted unit.text)
              × (response.answerability ≡ (
                  if not (
                    less (overlap_score float normalize (tokens float normalize question) unit)
                      (float.decimal 24 1))
                  then answered
                  else partial))
              × All (λ (c : Citation). (c.verified ≡ true) × IsIn c unit.citations)
                  response.citations
              × (1 ≤ length response.citations)
              × (length response.citations ≤ 3)))
