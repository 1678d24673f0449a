-- ===== src/Answers.antt =====
-- src/lib/analysis/closed-world.ts: the answer to a question from the stored result of a run. A text
-- is the list of its code units. The two regular expressions over the question, the normalisation of
-- a text and the floating-point numbers with their order are arguments.
pub mod Ranking
pub mod Supports
pub mod Grounded
use monidhackson.Base.{
  ℕ, suc, ◌+◌, Bool, true, false, not, ◌&&◌, ◌||◌, List, [], ◌∷◌, ◌++◌, Option, none, some, is_some,
  map, filter, any, take, length, leb, if◌then◌else◌,
}
use monidhackson.PageIndex.{Text}
use monidhackson.Citations.Repair.{same_text}
use monidhackson.Citations.Pages.{Citation}
use monidhackson.Sessions.Splitting.{onto_first}
use monidhackson.Costs.{Float}
use monidhackson.Answers.Ranking.{sort}

pub data EvidenceStatus : Type 0 where
  active superseded conflicted needs_review : EvidenceStatus

abbrev pub is_active : EvidenceStatus → Bool
is_active active = true
is_active _ = false

pub data RequirementCategory : Type 0 where
  mandatory rated submission security financial contractual delivery : RequirementCategory

abbrev pub is_submission : RequirementCategory → Bool
is_submission submission = true
is_submission _ = false

pub record EvidenceClaim : Type 0 where
  pub claim_text : Text
  pub status : EvidenceStatus
  pub citations : List Citation

pub record Requirement : Type 0 where
  pub category : RequirementCategory
  pub status : EvidenceStatus
  pub text : Text
  pub citations : List Citation

pub record Risk : Type 0 where
  pub finding : Text
  pub impact : Text
  pub recommended_action : Text
  pub citations : List Citation

pub record Conflict : Type 0 where
  pub topic : Text
  pub candidate_values : List Text
  pub safe_answer : Text
  pub citations : List Citation

-- What an answer reads of the result.
pub record AnalysisResult : Type 0 where
  pub submission_method : Option Text
  pub claims : List EvidenceClaim
  pub requirements : List Requirement
  pub risks : List Risk
  pub conflicts : List Conflict

pub data Answerability : Type 0 where
  answered partial not_found : Answerability

-- The fixed texts of an answer, by what they say.
pub data Message : Type 0 where
  outside_package document_only_mode not_enough_evidence : Message
  no_external_sources verified_evidence_only may_not_answer_fully : Message

pub data Answer : Type 0 where
  fixed : Message → Answer
  quoted : Text → Answer

pub record QuestionResponse : Type 0 where
  pub answerability : Answerability
  pub answer : Answer
  pub citations : List Citation
  pub warning : Message

-- `split(/[^a-z0-9]+/)`, whose empty parts the next filter drops.
abbrev pub is_token_unit : ℕ → Bool
is_token_unit c = (leb 97 c && leb c 122) || (leb 48 c && leb c 57)

abbrev pub token_parts : Text → List Text
token_parts [] = [] ∷ []
token_parts (c ∷ cs) =
    let rest = token_parts cs in if is_token_unit c then onto_first c rest else [] ∷ rest

abbrev pub has_token : List Text → Text → Bool
has_token ts token = any (same_text token) ts

abbrev pub distinct : List Text → List Text
distinct [] = []
distinct (t ∷ ts) = let rest = distinct ts in if has_token rest t then rest else t ∷ rest

-- The texts between the values of a conflict: ` versus `, `: `, `. `.
abbrev pub versus : Text
versus = 32 ∷ 118 ∷ 101 ∷ 114 ∷ 115 ∷ 117 ∷ 115 ∷ 32 ∷ []

abbrev pub join_versus : List Text → Text
join_versus [] = []
join_versus (t ∷ []) = t
join_versus (t ∷ u ∷ us) = t ++ versus ++ join_versus (u ∷ us)

abbrev pub risk_text : Risk → Text
risk_text r = r.finding ++ 32 ∷ r.impact ++ 32 ∷ r.recommended_action

abbrev pub conflict_text : Conflict → Text
conflict_text c = c.topic ++ 58 ∷ 32 ∷ join_versus c.candidate_values ++ 46 ∷ 32 ∷ c.safe_answer

module _ (float : Float) where
  open float use {Number, decimal, of_nat, mul, is_positive}

  pub record AnswerUnit : Type 0 where
    pub text : Text
    pub citations : List Citation
    pub weight : Number

  pub record Ranked : Type 0 where
    pub unit : AnswerUnit
    pub score : Number

  abbrev pub of_claim : EvidenceClaim → AnswerUnit
  of_claim c = record { text = c.claim_text; citations = c.citations; weight = decimal 12 1 }

  abbrev pub of_requirement : Requirement → AnswerUnit
  of_requirement r = record { text = r.text; citations = r.citations; weight = decimal 14 1 }

  abbrev pub of_risk : Risk → AnswerUnit
  of_risk r = record { text = risk_text r; citations = r.citations; weight = decimal 11 1 }

  abbrev pub of_conflict : Conflict → AnswerUnit
  of_conflict c = record { text = conflict_text c; citations = c.citations; weight = decimal 15 1 }

  unfoldable pub answer_units : AnalysisResult → List AnswerUnit
  answer_units result =
      let resolved = is_some result.submission_method in
      map of_claim (filter (λ (c : EvidenceClaim). resolved && is_active c.status) result.claims)
      ++ (map of_requirement (
            filter
              (λ (r : Requirement).
                is_active r.status && (resolved || not (is_submission r.category)))
              result.requirements)
          ++ (map of_risk (filter (λ (r : Risk). resolved) result.risks)
              ++ map of_conflict (filter (λ (c : Conflict). resolved) result.conflicts)))

  module _ (normalize : Text → Text) where
    unfoldable pub tokens : Text → List Text
    tokens value = distinct (filter (λ t. leb 3 (length t)) (token_parts (normalize value)))

    unfoldable pub overlap_score : List Text → AnswerUnit → Number
    overlap_score question unit =
        mul (of_nat (length (filter (has_token (tokens unit.text)) question))) unit.weight

    abbrev pub scored : List Text → AnswerUnit → Ranked
    scored question unit = record { unit = unit; score = overlap_score question unit }

    abbrev pub is_candidate : Ranked → Bool
    is_candidate r = is_positive r.score && any (λ (c : Citation). c.verified) r.unit.citations

    unfoldable pub candidates : Text → AnalysisResult → List Ranked
    candidates question result =
        filter is_candidate (map (scored (tokens question)) (answer_units result))

    module _ (less : Number → Number → Bool) where
      unfoldable pub best_answer : List Ranked → QuestionResponse
      best_answer [] = record {
        answerability = not_found;
        answer = fixed not_enough_evidence;
        citations = [];
        warning = no_external_sources;
      }
      best_answer (best ∷ rest) = record {
        answerability = if not (less best.score (decimal 24 1)) then answered else partial;
        answer = quoted best.unit.text;
        citations = take 3 (filter (λ (c : Citation). c.verified) best.unit.citations);
        warning =
            if not (less best.score (decimal 24 1))
            then verified_evidence_only
            else may_not_answer_fully;
      }

      unfoldable pub answer_from_persisted_evidence :
          (Text → Bool) → (Text → Bool) → Text → AnalysisResult → QuestionResponse
      answer_from_persisted_evidence external override question result =
          if external question || override question
          then record {
            answerability = not_found;
            answer = fixed outside_package;
            citations = [];
            warning = document_only_mode;
          }
          else best_answer
              (sort (λ (l r : Ranked). less l.score r.score) (candidates question result))
