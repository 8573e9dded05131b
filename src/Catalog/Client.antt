-- ===== src/Catalog/Client.antt =====
-- backend/app/services/catalog_lookup_client.py: the validation of a lookup, the checks on the
-- service's reply and the repeated attempts. `strip` is Python's; what `_request` receives over the
-- network in each attempt is an argument.
use sales_journal.Prelude.{
  Bool, List, Option, Result, String, [], codes, err, false, if◌then◌else◌, is_some, leb, length,
  none, not, ok, some, str_eq, suc, true, zero, ℕ, ◌&&◌, ◌+◌, ◌-◌, ◌==◌, ◌||◌, ◌∷◌,
}
pub mod Laws

abbrev pub batch_size_limit : ℕ
batch_size_limit = 250

-- LookupInput; the synchronisation never sends a product's number.
pub record Request : Type 0 where
  pub code : Option String
  pub article : Option String

-- The ten columns that a product takes from the catalogue.
pub record Attributes : Type 0 where
  pub code : String
  pub article : Option String
  pub manufacturer : Option String
  pub brand : Option String
  pub category : Option String
  pub subcategory : Option String
  pub category_id : Option ℕ
  pub legacy_category : Option String
  pub material : Option String
  pub horeca : Bool

-- LookupProduct
pub record Incoming : Type 0 where
  pub product_id : ℕ
  pub attributes : Attributes
  pub image_url : Option String
  pub updated_at : ℕ

pub data MatchedBy : Type 0 where
  by_product_id by_code by_article : MatchedBy

-- LookupResult without its index: the validator `consistent` leaves these three forms.
pub data Answer : Type 0 where
  matched : MatchedBy → Incoming → Answer
  not_found ambiguous : Answer

pub record ReplyItem : Type 0 where
  pub request_index : ℕ
  pub answer : Answer

-- LookupResponse
pub record Reply : Type 0 where
  pub schema_version : ℕ
  pub items : List ReplyItem

-- LookupError
pub record LookupError : Type 0 where
  pub error_code : String
  pub retryable : Bool

pub failed_with : String → LookupError
failed_with code = record { error_code = code; retryable = false }

-- `value.strip() or None`
pub trimmed : (String → String) → Option String → Option String
trimmed strip none = none
trimmed strip (some s) = if str_eq (strip s) "" then none else some (strip s)

pub fits : ℕ → Option String → Bool
fits limit none = true
fits limit (some s) = leb (length (codes s)) limit

-- `LookupInput.model_validate(raw)`, with `trimmed` before and `has_identifier` after the fields.
unfoldable pub validate_input : (String → String) → Option String → Option String → Option Request
unfolding trimmed fits
validate_input strip code article =
    let c = trimmed strip code in
    let a = trimmed strip article in
    if fits 128 c && fits 255 a && (is_some c || is_some a)
    then some (record { code = c; article = a })
    else none

-- `any(item.request_index != index for index, item in enumerate(items))`
unfoldable pub is_misnumbered : ℕ → List ReplyItem → Bool
is_misnumbered index [] = false
is_misnumbered index (item ∷ items) =
    not (item.request_index == index) || is_misnumbered (index + 1) items

-- A match must be by a field that the request holds.
unfoldable pub is_foreign : Request → Answer → Bool
is_foreign request (matched by_product_id _) = true
is_foreign request (matched by_code _) = not (is_some request.code)
is_foreign request (matched by_article _) = not (is_some request.article)
is_foreign request _ = false

unfoldable pub any_foreign : List Request → List ReplyItem → Bool
any_foreign (r ∷ rs) (i ∷ is) = is_foreign r i.answer || any_foreign rs is
any_foreign _ _ = false

unfoldable pub answers_of : List ReplyItem → List Answer
answers_of [] = []
answers_of (i ∷ is) = i.answer ∷ answers_of is

-- The checks on one reply.
unfoldable pub check_reply : List Request → Reply → Result LookupError (List Answer)
check_reply requests reply =
    if not (reply.schema_version == 1)
      || not (length reply.items == length requests)
      || is_misnumbered 0 reply.items
      || any_foreign requests reply.items
    then err (failed_with "invalid_response")
    else ok (answers_of reply.items)

-- One attempt: the exchange and the checks.
unfoldable pub attempt_reply :
    List Request → Result LookupError Reply → Result LookupError (List Answer)
attempt_reply requests (err e) = err e
attempt_reply requests (ok reply) = check_reply requests reply

-- `for attempt in range(MAX_ATTEMPTS)`; `left` attempts follow this one.
unfoldable pub attempt_from :
    (ℕ → Result LookupError Reply) → List Request → ℕ → ℕ → Result LookupError (List Answer)
attempt_from network requests attempt zero = attempt_reply requests (network attempt)
attempt_from network requests attempt (suc left) = elim (attempt_reply requests (network attempt)) [
  | ok answers ↦ ok answers
  | err e ↦ elim e.retryable [
    | true ↦ attempt_from network requests (attempt + 1) left
    | false ↦ err e
  ]
]

-- `lookup_products(items)` with MAX_ATTEMPTS, which is at least one; the requests of the
-- synchronisation are validated before it is called.
unfoldable pub lookup_products :
    (ℕ → Result LookupError Reply) → ℕ → List Request → Result LookupError (List Answer)
lookup_products network attempts requests =
    if leb 1 (length requests) && leb (length requests) batch_size_limit
    then attempt_from network requests 0 (attempts - 1)
    else err (failed_with "invalid_batch_size")
