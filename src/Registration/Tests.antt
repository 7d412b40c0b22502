-- ===== src/Registration/Tests.antt =====
-- An instance of the theorem on the registration of an agent: a challenge is issued, and the proof for it
-- is accepted.
use agent_authorization_gate.Canonical.{
  Fields, end, field, Value, canonicalize, compare_keys_jcs, compare_units, encode_char,
  encode_utf8, insert_pair, serialize, serialize_char, serialize_string, to_utf16_units,
}
use agent_authorization_gate.Base.{
  Bool, true, Option, none, some, [], Str, Bytes, codes, refl, ◌≡◌, false, str_eq, hex, hex_digit,
}
use agent_authorization_gate.Liveness.{
  ChallengeResult, LivenessState, truthy, get_or_create, set_url,
}
use agent_authorization_gate.Registration.{
  pos, verify_registration_proof, parse_jwk, proof_fields, check_proof_fields, out_of_time,
  check_possession, parsed_key, padded, standard_char, equals_signs, field_is, x_text,
  registration_fields, build_registration_message,
}
use agent_authorization_gate.Registration.Routes.{
  RegistrationService, AgentRegisterRequest, Registered, register_challenge, register_agent,
  check_capacity, enroll, seed_record,
}
use agent_authorization_gate.Registration.Holders.{
  KeyProved, holders_proved, registration, challenge, opened,
}
use agent_authorization_gate.Base.Dict.{lookup, keep, insert, erase}
use agent_authorization_gate.Identity.{
  consume, consume_entry, gc, check_rate_limit, issue, challenge_key, register, forget_kid,
  RegisteredAgent,
}
use agent_authorization_gate.Base.Int.{show_digits, show_int, show_nat}
use agent_authorization_gate.Verify.{get}

-- All texts decode to one key, whose digest is itself.
abbrev zeros : Bytes
zeros = codes "00000000000000000000000000000000"

abbrev b64decode : Str → Option Bytes
b64decode _ = some zeros

abbrev sha256 : Bytes → Bytes
sha256 _ = zeros

abbrev ed_check : Bytes → Bytes → Bytes → Bool
ed_check _ _ _ = true

abbrev service : RegistrationService
service = record {
  tenant = codes "t";
  registry = record { agents = []; by_kid = [] };
  challenge_cache = record { ttl = 60; challenges = []; ip_requests = [] };
  liveness = record { records = []; attestation_interval = 300 };
}

abbrev challenged : RegistrationService
challenged = (register_challenge none (codes "a") (codes "n") (codes "i") 100 service).1

abbrev jwk : Fields
jwk = field (codes "kty") (Value.str (codes "OKP")) (
    field (codes "crv") (Value.str (codes "Ed25519"))
      (field (codes "x") (Value.str (codes "AAAA")) end))

abbrev request : AgentRegisterRequest
request = record {
  agent_id = codes "a";
  public_key = jwk;
  proof = some (record {
    nonce = some (codes "n");
    challenge_id = some (codes "i");
    signature = some (codes "AAAA");
    iat = some (pos 110);
  });
  live_challenge_url = none;
}

abbrev answer : Registered
answer = record {
  agent_id = codes "a";
  kid = codes "agent-3030303030303030";
  live_verified = false;
  liveness_state = LivenessState.unknown;
}

abbrev holder : RegisteredAgent Bytes
holder = record {
  agent_id = codes "a";
  public_key = zeros;
  kid = answer.kid;
  live_challenge_url = none;
}

held :
    lookup
      (codes "a")
      (register_agent ChallengeResult.verified 120 b64decode sha256 ed_check request
        challenged).1.registry.agents
    ≡ some holder
unfolding register_agent verify_registration_proof proof_fields truthy check_proof_fields
    out_of_time consume consume_entry lookup gc keep register_challenge check_rate_limit
    check_capacity issue insert str_eq challenge_key erase hex hex_digit show_digits show_int
    show_nat canonicalize compare_keys_jcs compare_units encode_char encode_utf8 insert_pair
    serialize serialize_char serialize_string to_utf16_units check_possession parse_jwk parsed_key
    padded standard_char equals_signs field_is x_text get registration_fields
    build_registration_message enroll register forget_kid get_or_create set_url seed_record
held = refl

holders_proved_example : KeyProved b64decode sha256 ed_check (codes "t") (codes "a") holder
holders_proved_example =
    holders_proved b64decode sha256 ed_check (codes "a") holder
      (registration ChallengeResult.verified 120 request
        (challenge none (codes "a") (codes "n") (codes "i") 100 (opened refl refl)))
      held
