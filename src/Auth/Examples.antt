-- ===== src/Auth/Examples.antt =====
-- A fresh second factor for a commitment, and the theorem about it.
use baobab_trade.Prelude.{◌≡◌, refl, Option, none, some, [], ◌∷◌, ◌↔◌}
use baobab_trade.Auth.Assurance.{
  buyer_commitment, buyer_session, buyer_administration, AssuranceProfile, Requirement, rfq_submit,
  ApprovedPolicy, Policy, approved, Token, ok, refused, assurance_insufficient, evaluate_assurance,
}
use baobab_trade.Auth.Assured.{IsAssured, evaluate_assurance-IsAssured}

abbrev second_factor : Requirement
second_factor = record {
  accepted_acr_values = "acr:2" ∷ [];
  required_methods = some ("otp" ∷ []);
  max_authentication_age_seconds = some 300;
}

abbrev requirement_of : AssuranceProfile → Option Requirement
requirement_of buyer_session = some (record second_factor { required_methods = none })
requirement_of buyer_commitment = some second_factor
requirement_of buyer_administration = none

abbrev policy : Policy
policy = approved (record {
  issuer = "https://iam";
  policy_revision = "r1";
  effective_from = 1000;
  effective_until = some 2000000;
  profiles = requirement_of;
})

abbrev token : Token
token = record {
  issuer = "https://iam";
  acr = some "acr:2";
  amr = some ("pwd" ∷ "otp" ∷ []);
  auth_time = some 10000;
}

evaluate_assurance-IsAssured_example :
    (evaluate_assurance policy rfq_submit token 20000 ≡ ok "r1" (some 310000))
    ↔ IsAssured rfq_submit token 20000 policy "r1" (some 310000)
evaluate_assurance-IsAssured_example =
    evaluate_assurance-IsAssured policy rfq_submit token 20000 "r1" (some 310000)

fresh_run : evaluate_assurance policy rfq_submit token 20000 ≡ ok "r1" (some 310000)
unfolding evaluate_assurance baobab_trade.Auth.Assurance.canonical_profile
    baobab_trade.Auth.Assurance.check_profile baobab_trade.Auth.Assurance.check_age
    baobab_trade.Auth.Assurance.refuse_if
fresh_run = refl

stale_run : evaluate_assurance policy rfq_submit token 310001 ≡ refused assurance_insufficient
unfolding evaluate_assurance baobab_trade.Auth.Assurance.canonical_profile
    baobab_trade.Auth.Assurance.check_profile baobab_trade.Auth.Assurance.check_age
    baobab_trade.Auth.Assurance.refuse_if
stale_run = refl
