-- ===== src/Tests/Answers.antt =====
-- A question of src/lib/analysis/closed-world.ts about two requirements, in whole numbers.
use monidhackson.Base.{ℕ, ◌+◌, ◌*◌, ◌/◌, ◌≡◌, refl, true, false, [], ◌∷◌, none, some, ltb, leb}
use monidhackson.PageIndex.{Text}
use monidhackson.Citations.Pages.{Citation, exact}
use monidhackson.Costs.{Float}
use monidhackson.Answers.{
  AnalysisResult, Requirement, mandatory, submission, active, answered, quoted,
  verified_evidence_only, answer_from_persisted_evidence, best_answer, candidates, answer_units,
  overlap_score, tokens,
}
use monidhackson.Citations.Repair.{same_text}
use monidhackson.Answers.Ranking.{sort}

-- Decimals count in tenths.
abbrev tenths : Float
tenths = record {
  Number = ℕ;
  decimal = λ m k. m;
  of_nat = λ n. n;
  add = λ m n. m + n;
  mul = λ m n. m * n;
  div = λ m n. m / n;
  ceil = λ n. n;
  is_finite = λ n. true;
  is_positive = λ n. ltb 0 n;
  is_at_most = λ m n. leb m n;
}

-- "bid bond", and what is stored about it.
abbrev question : Text
question = 98 ∷ 105 ∷ 100 ∷ 32 ∷ 98 ∷ 111 ∷ 110 ∷ 100 ∷ []

abbrev citation : Citation
citation = record {
  document_sha256 = "a";
  document_name = "tender.pdf";
  source_url = none;
  pdf_page_1based = some 1;
  printed_page_label = none;
  section = none;
  evidence_quote = question;
  verified = true;
  verification_method = exact;
}

abbrev requirement : Requirement
requirement = record {
  category = mandatory;
  status = active;
  text = question;
  citations = citation ∷ [];
}

-- The second one waits for the submission authority.
abbrev result : AnalysisResult
result = record {
  submission_method = none;
  claims = [];
  requirements = requirement ∷ record requirement { category = submission } ∷ [];
  risks = [];
  conflicts = [];
}

answer_is_quoted :
    answer_from_persisted_evidence tenths (λ t. t) ltb (λ t. false) (λ t. false) question result
    ≡ record {
      answerability = answered;
      answer = quoted question;
      citations = citation ∷ [];
      warning = verified_evidence_only;
    }
unfolding answer_from_persisted_evidence best_answer candidates answer_units overlap_score tokens
    same_text sort
answer_is_quoted = refl
