-- ===== src/Delivery.antt =====
-- backend/app/services/analytics_delivery.py: the numbered publications of analytical runs. The
-- publications are kept with the newest first; the head row is locked, so calls do not interleave.
use sales_journal.Prelude.{
  Bool, List, Option, Result, String, [], err, false, holds, if◌then◌else◌, none, not, ok, or_else,
  some, str_eq, ℕ, ◌&&◌, ◌+◌, ◌==◌, ◌∷◌,
}
pub mod Laws
mod Tests

-- What `algorithm(scope)` names for the run's scope, with the version of the normalisation.
pub record Algorithm : Type 0 where
  pub generator_version : String
  pub parameters_version : String
  pub parameters : String
  pub normalization_version : String

-- AnalyticsSignalRun: its status, its contract and the metadata that are compared.
pub record Run : Type 0 where
  pub id : String
  pub is_succeeded : Bool
  pub is_contract_valid : Bool
  pub generator_version : Option String
  pub parameters_version : Option String
  pub parameters : Option String
  pub normalization_version : Option String
  pub is_shadow_allowed : Bool
  pub effective_as_of : Option ℕ
  pub as_of : ℕ

-- AnalyticsDeliveryPublication
pub record Publication : Type 0 where
  pub sequence : ℕ
  pub run_id : String

-- AnalyticsDeliveryHead, if there is a row, and the publications.
pub record Delivery : Type 0 where
  pub head : Option ℕ
  pub publications : List Publication

pub data Error : Type 0 where
  not_publishable : Error

pub same_version : String → Option String → Bool
same_version v none = false
same_version v (some w) = str_eq w v

-- The guard of the function.
pub is_publishable : Algorithm → Run → Bool
unfolding same_version
is_publishable a run =
    run.is_succeeded
    && run.is_contract_valid
    && same_version a.generator_version run.generator_version
    && same_version a.parameters_version run.parameters_version
    && same_version a.parameters run.parameters
    && same_version a.normalization_version run.normalization_version
    && run.is_shadow_allowed
    && holds (λ d. d == run.as_of) run.effective_as_of

pub find_publication : String → List Publication → Option Publication
find_publication id [] = none
find_publication id (p ∷ ps) =
    let rest = find_publication id ps in if str_eq id p.run_id then some p else rest

-- `publish_delivery(db, run)`: the sequence that it returns, and the tables.
pub publish_delivery : Algorithm → Run → Delivery → Result Error (ℕ × Delivery)
unfolding is_publishable find_publication
publish_delivery a run d =
    let head = or_else 0 d.head in
    if not (is_publishable a run)
    then err not_publishable
    else elim (find_publication run.id d.publications) [
      | some p ↦ ok (p.sequence, record d { head = some head })
      | none ↦ ok (
        head + 1,
        record {
          head = some (head + 1);
          publications = record { sequence = head + 1; run_id = run.id } ∷ d.publications;
        },
      )
    ]
