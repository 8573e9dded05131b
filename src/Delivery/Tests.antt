-- ===== src/Delivery/Tests.antt =====
-- Publications of two runs, and instances of the theorems.
use sales_journal.Prelude.{String, [], arith, none, ok, refl, some, true, ◌∷◌, ◌≡◌}
use sales_journal.Delivery.{
  Algorithm, Delivery, Run, find_publication, is_publishable, publish_delivery, same_version,
}
use sales_journal.Delivery.Laws.{IsNumbered, publish_delivery-IsNumbered, publish_delivery_again}

abbrev algorithm : Algorithm
algorithm = record {
  generator_version = "g";
  parameters_version = "p";
  parameters = "{}";
  normalization_version = "n";
}

abbrev run_of : String → Run
run_of id = record {
  id = id;
  is_succeeded = true;
  is_contract_valid = true;
  generator_version = some "g";
  parameters_version = some "p";
  parameters = some "{}";
  normalization_version = some "n";
  is_shadow_allowed = true;
  effective_as_of = some 9;
  as_of = 9;
}

abbrev nothing : Delivery
nothing = record { head = none; publications = [] }

abbrev one : Delivery
one = record { head = some 1; publications = record { sequence = 1; run_id = "a" } ∷ [] }

abbrev two : Delivery
two = record {
  head = some 2;
  publications = record { sequence = 2; run_id = "b" } ∷ record { sequence = 1; run_id = "a" } ∷ [];
}

publish_delivery-IsNumbered_example : IsNumbered 2 two.publications
unfolding publish_delivery is_publishable same_version find_publication
publish_delivery-IsNumbered_example =
    publish_delivery-IsNumbered algorithm (run_of "b") one two 2 (refl, omega arith, refl, refl)
      refl

publish_delivery_again_example :
    publish_delivery algorithm (run_of "a") two ≡ ok (1, record two { head = some 2 })
unfolding publish_delivery is_publishable same_version find_publication
publish_delivery_again_example =
    publish_delivery_again algorithm algorithm (run_of "a") (run_of "b") nothing one two 1 2 refl
      refl
