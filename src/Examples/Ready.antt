-- ===== src/Examples/Ready.antt =====
-- The stand-in platform does what the standard library documents, and the inputs of Setup are ready to
-- be issued, presented and delivered.
use execution_finality_for_a.Prelude.{str_eq, pos, [], refl, arith}
use execution_finality_for_a.Canonical.Encodable.{Encodable}
use execution_finality_for_a.Crypto.{is_ascii}
use execution_finality_for_a.Crypto.Documented.{is_ascii-digits, IsDocumented, hmac-Signs}
use execution_finality_for_a.Authority.Encodable.{IsEncodable}
use execution_finality_for_a.Authority.Succeeds.{Grants, IsReady}
use execution_finality_for_a.Protocol.Delivery.{IsWay}
use execution_finality_for_a.Examples.Evaluation.{evaluation}
use execution_finality_for_a.Examples.Setup.{
  toy, toy_platform, toy-ascii, checksum, authority, authn-Verifies, secret, sink, vault, noon,
}
use execution_finality_for_a.Examples.Runs.{act_0, token_shared, act_local}

pub toy-IsDocumented : IsDocumented toy
unfolding is_ascii
toy-IsDocumented = record {
  fixes = λ s h. refl;
  keeps = λ s h. h;
  digest = λ bs. is_ascii-digits 8 (checksum 7 bs) [] refl;
  mac = toy-ascii;
}

pub act-IsEncodable : IsEncodable act_0
unfolding evaluation Encodable
act-IsEncodable = record {
  act_id = refl;
  act_class = refl;
  effect_class = refl;
  source = refl;
  destination = refl;
  purpose = refl;
  jurisdiction = refl;
  nonce = refl;
  sink_id = refl;
  boundary_id = refl;
  scope = (refl, tt);
  payload = (refl, refl, tt, (refl, refl, refl, tt));
  runtime_evidence_digest = refl;
  authority_context = (refl, refl, refl, tt);
}

pub act-Grants : Grants authority act_0 noon (pos 1) vault
unfolding evaluation
act-Grants = record {
  allowed = refl;
  positive = omega arith;
  fresh = refl;
  has_quota = omega arith;
  has_budget = omega arith;
  open_store = refl;
  new_id = λ h d cd t i eh ed ec et ei. refl;
}

pub authority-IsReady : IsReady authority
unfolding evaluation
authority-IsReady = record {
  authority_id = refl;
  key_id = refl;
  signs = hmac-Signs toy-IsDocumented secret;
  verifies = authn-Verifies;
  store = refl;
}

pub sink-IsWay : IsWay sink authority act_0
unfolding evaluation
sink-IsWay = record {
  shares = token_shared;
  place = act_local;
  signs = hmac-Signs toy-IsDocumented secret;
  key_id = refl;
}
