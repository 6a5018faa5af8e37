-- ===== src/Audit.antt =====
-- The audit log of inference_exchange/coordinator/audit_log.py. The file is the list of its lines;
-- `json.dumps` and the hash are parameters.
pub mod Chain
use inference_exchange.Prelude.{Host, ℕ, suc, String, Bool, List, [], ◌∷◌, ◌++◌}

pub data Payload : Type 0 where
  billing :
      (request_id consumer_id provider_id model : String)
      → (input_tokens output_tokens cached_tokens : ℕ)
      → (cost_micro provider_earning_micro platform_fee_micro : ℕ) → Payload
  attestation :
      (provider_id provider_name status : String)
      → (sip_enabled hardened_runtime pt_deny_attach : Bool)
      → (agent_hash server_hash platform : String) → Payload
  provider_connect : (provider_id name trust_level : String) → Payload
  provider_disconnect : (provider_id name : String) → Payload

-- `entry`; the type is the payload's constructor. Times are in milliseconds.
pub record Entry : Type 0 where
  pub seq : ℕ
  pub ts : ℕ
  pub prev_hash : String
  pub payload : Payload

pub record AuditLog : Type 0 where
  pub file : List String
  pub seq : ℕ
  pub last_hash : String

abbrev pub genesis : String
genesis = "0000000000000000000000000000000000000000000000000000000000000000"

-- `__init__`, with the lines that the file has already.
unfoldable pub open_log : List String → AuditLog
open_log lines = record { file = lines; seq = 0; last_hash = genesis }

module _ (host : Host) (dumps : Entry → String) where
  open host use {slice_to, sha256}

  -- `log`
  unfoldable pub log : Payload → ℕ → AuditLog → AuditLog
  log payload now a =
      let entry : Entry = record {
        seq = suc a.seq;
        ts = now;
        prev_hash = a.last_hash;
        payload = payload;
      } in
      record {
        file = a.file ++ (dumps entry ∷ []);
        seq = suc a.seq;
        last_hash = sha256 (dumps entry);
      }

  abbrev pub log_billing :
      (request_id consumer_id provider_id model : String)
      (input_tokens output_tokens cached_tokens : ℕ)
      (cost_micro provider_earning_micro platform_fee_micro : ℕ)
      → ℕ
      → AuditLog
      → AuditLog
  log_billing r c p m ins outs cached cost earning fee =
      log (billing r c p m ins outs cached cost earning fee)

  abbrev pub log_attestation :
      (provider_id provider_name status : String)
      (sip_enabled hardened_runtime pt_deny_attach : Bool)
      (agent_hash server_hash platform : String)
      → ℕ
      → AuditLog
      → AuditLog
  log_attestation id name status sip hardened deny agent server platform = log (
      attestation id name status sip hardened deny (slice_to 16 agent) (slice_to 16 server)
        platform)

  abbrev pub log_provider_connect : String → String → String → ℕ → AuditLog → AuditLog
  log_provider_connect id name trust_level = log (provider_connect id name trust_level)

  abbrev pub log_provider_disconnect : String → String → ℕ → AuditLog → AuditLog
  log_provider_disconnect id name = log (provider_disconnect id name)
