-- ===== src/Controller/Audit.antt =====
-- src/controller.rs: the readings of the clock, new IDs, the history and the channels.
use secretd.Prelude.{ℕ, suc, ◌-◌, Option, List, [], ◌∷◌, ◌++◌, length, drop, ltb, if◌then◌else◌}
use secretd.Prelude.Text.{Text, codes}
use secretd.Prelude.Map.{remove, member}
use secretd.Process.{ProcessIdentity}
use secretd.Controller.State.{
  AuditAction, AuditEntry, RequestResolution, AwsRequestResolution, Controller,
}

abbrev pub max_audit_entries : ℕ
max_audit_entries = 500

-- `now_millis()`
abbrev pub now_millis : Controller → ℕ
now_millis c = c.world.clock c.world.reads

-- the state after a reading of the clock
abbrev pub after_reading : Controller → Controller
after_reading c = record c { world = record c.world { reads = suc c.world.reads } }

-- `Uuid::new_v4().to_string()`
abbrev pub new_uuid : Controller → Text
new_uuid c = c.world.uuid c.world.draws

abbrev pub after_draw : Controller → Controller
after_draw c = record c { world = record c.world { draws = suc c.world.draws } }

-- `drain(..len - 500)` after a push
abbrev pub latest : List AuditEntry → List AuditEntry
latest entries = drop (length entries - max_audit_entries) entries

unfoldable pub record_audit :
    AuditAction → Text → Option ℕ → ProcessIdentity → Controller → Controller
record_audit action secret ttl_seconds process c =
    let entry : AuditEntry = record {
      id = new_uuid c;
      occurred_at = now_millis c;
      action = action;
      secret = secret;
      ttl_seconds = ttl_seconds;
      process = process;
    } in
    let audit = c.audit ++ entry ∷ [] in
    record (after_reading (after_draw c)) {
      audit = if ltb max_audit_entries (length audit) then latest audit else audit;
    }

abbrev pub aws_audit_resource : Text → Text
aws_audit_resource profile = codes "aws/" ++ profile

-- Takes the sender out of the map and sends through it, if it is there.
unfoldable pub send : Text → RequestResolution → Controller → Controller
send id resolution c =
    if member id c.pending_resolutions
    then record c {
      pending_resolutions = remove id c.pending_resolutions;
      sent = c.sent ++ (id, resolution) ∷ [];
    }
    else c

unfoldable pub send_aws : Text → AwsRequestResolution → Controller → Controller
send_aws id resolution c =
    if member id c.pending_aws_resolutions
    then record c {
      pending_aws_resolutions = remove id c.pending_aws_resolutions;
      sent_aws = c.sent_aws ++ (id, resolution) ∷ [];
    }
    else c
