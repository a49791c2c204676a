-- ===== src/Migrate/Plan.antt =====
-- internal/nsmigrate/report.go and migrate.go: the report, the rows of one authority, and the checks
-- and counts before anything is written.
use Prim.Native.String.{◌++◌}
use pinakes.Base.{
  ℕ, String, Bool, true, false, not, List, [], ◌∷◌, map, ◌+◌, ◌&&◌, ◌||◌, ◌==◌, contains, Option,
  none, some, if◌then◌else◌,
}
use mathlib.Core.List
use pinakes.Base.Dict.{Dict, lookup, lookup_or, insert}
use pinakes.Config.{Checked, valid, invalid, ConfigError, normalize_control_plane_agents}
use pinakes.Config
use pinakes.Text.Quote.{quote}
use pinakes.Types
use pinakes.Migrate.{
  Authority, jk, ucla, disposition_text, ManifestRow, Refusal, Outcome, accepted, refused, refuse,
  ◌>>=◌,
}
use pinakes.Migrate.Rows.{manifest_line, explicit_scope}
use pinakes.Migrate.Inspect.{Inspection, ConversationPlan, occurrences_of, participants_surface}

pub record Collision : Type 0 where
  pub code : String
  pub source_id : String
  pub target_id : String
  pub manifest_line : ℕ

pub data Status : Type 0 where
  was_refused no_op ready applied : Status

pub record Report : Type 0 where
  pub version : ℕ
  pub apply_mode : Bool
  pub authority : Authority
  pub status : Status
  pub manifest_rows : ℕ
  pub manifest_by_disposition : Dict ℕ
  pub planned_by_disposition : Dict ℕ
  pub rewrites_by_surface : Dict ℕ
  pub total_rewrites : ℕ
  pub already_applied_mappings : ℕ
  pub collisions : List Collision
  pub refusals : List Refusal

abbrev pub surfaces : List String
surfaces =
    "agents.agent_id" ∷ "messages.from_agent" ∷ "messages.to_agent" ∷ "conversations.participants"
    ∷ "deliveries.target_agent_id" ∷ "delivery_cursors.target_agent_id" ∷ "idempotency.from_agent"
    ∷ "idempotency.to_agent" ∷ []

abbrev zeros : List String → Dict ℕ
zeros [] = []
zeros (k ∷ ks) = (k, 0) ∷ zeros ks

unfoldable pub new_report : Authority → Bool → Report
new_report authority apply = record {
  version = 1;
  apply_mode = apply;
  authority = authority;
  status = was_refused;
  manifest_rows = 0;
  manifest_by_disposition = zeros ("migrate" ∷ "retire" ∷ "split" ∷ "unchanged" ∷ []);
  planned_by_disposition = zeros ("migrate" ∷ "retire" ∷ "split" ∷ "unchanged" ∷ []);
  rewrites_by_surface = zeros surfaces;
  total_rewrites = 0;
  already_applied_mappings = 0;
  collisions = [];
  refusals = [];
}

-- `counts[key] += n`
abbrev pub bump : String → ℕ → Dict ℕ → Dict ℕ
bump key n counts = insert key (lookup_or 0 key counts + n) counts

pub record Mapping : Type 0 where
  pub row : ManifestRow
  pub active : Bool
  pub already_applied : Bool

abbrev pub same_authority : Authority → Authority → Bool
same_authority jk jk = true
same_authority ucla ucla = true
same_authority a b = false

abbrev pub new_mapping : ManifestRow → Mapping
new_mapping r = record { row = r; active = false; already_applied = false }

unfoldable pub select_mappings : List ManifestRow → Authority → Report → List Mapping × Report
select_mappings [] authority report = ([], report)
select_mappings (r ∷ rows) authority report =
    let counted = record report {
      manifest_rows = report.manifest_rows + 1;
      manifest_by_disposition =
          bump (disposition_text r.disposition) 1 report.manifest_by_disposition;
    } in
    let chosen = same_authority r.source_authority authority in
    let (more, after) = select_mappings rows authority (if chosen then counted else report) in
    (if chosen then new_mapping r ∷ more else more, after)

-- The text of the error of NormalizeControlPlaneAgents, which has one kind.
abbrev config_text : ConfigError → String
config_text (Config.prefixed_identity id) =
    "control-plane identity " ++ (quote id ++ " must be unprefixed")
config_text other = ""

-- Every control-plane id of the rows is configured; Go visits the ids in any order.
unfoldable pub check_control_plane : List Mapping → List String → Outcome (Unit {0})
unfolding quote
check_control_plane [] configured = accepted tt
check_control_plane (item ∷ rest) configured =
    let more = check_control_plane rest configured in
    if not item.row.control_plane || contains configured item.row.source_id
    then more
    else refuse "control_plane_mismatch" "manifest" (
        "control-plane identity "
        ++ (quote item.row.source_id ++ " is absent from CONTROL_PLANE_AGENTS"))

unfoldable pub validate_control_plane_agreement : List Mapping → List String → Outcome (Unit {0})
unfolding check_control_plane normalize_control_plane_agents
validate_control_plane_agreement mappings configured =
    elim (normalize_control_plane_agents configured) [
      | valid normalized ↦ check_control_plane mappings normalized
      | invalid e ↦ refuse "control_plane_config" "CONTROL_PLANE_AGENTS" (config_text e)
    ]

-- sources[identity] != nil || targets[identity] != nil
abbrev pub is_named : List Mapping → String → Bool
is_named [] identity = false
is_named (item ∷ rest) identity =
    item.row.source_id == identity || item.row.target_id == identity || is_named rest identity

unfoldable pub check_known : List Mapping → Dict Bool → Outcome (Unit {0})
check_known mappings [] = accepted tt
check_known mappings ((identity, found) ∷ rest) =
    let more = check_known mappings rest in
    if is_named mappings identity
    then more
    else refuse "unknown_identity" "database"
        "identity is not named by the manifest under the declared authority"

-- The loop over the surfaces for one active mapping.
unfoldable pub plan_rewrites : List String → Inspection → String → Report → Report
plan_rewrites [] inspected source report = report
plan_rewrites (surface ∷ rest) inspected source report =
    let count = occurrences_of inspected surface source in
    plan_rewrites rest inspected source (record report {
      rewrites_by_surface = bump surface count report.rewrites_by_surface;
      total_rewrites = report.total_rewrites + count;
    })

-- The end of the loop's body: the flags of the mapping, and what the report counts for it.
abbrev pub mark_mapping : Inspection → Mapping → Bool → Bool → Report → Report × Mapping
mark_mapping inspected item source_present target_present report =
    let planned = plan_rewrites surfaces inspected item.row.source_id (record report {
      planned_by_disposition =
          bump (disposition_text item.row.disposition) 1 report.planned_by_disposition;
    }) in
    let applied_before = not source_present && target_present in
    let counted = record report {
      already_applied_mappings = report.already_applied_mappings + 1;
    } in
    (
      if source_present then planned else if applied_before then counted else report,
      record item { active = source_present; already_applied = applied_before },
    )

abbrev collide : Mapping → Report → Report
collide item report = record report {
  collisions = List.◌++◌ report.collisions (
      record {
        code = "target_occupied";
        source_id = item.row.source_id;
        target_id = item.row.target_id;
        manifest_line = item.row.line;
      }
      ∷ []);
}

abbrev occupied : Mapping → Outcome Mapping
occupied item =
    refuse "target_occupied" (manifest_line item.row.line)
      "target_id is already occupied while its source identity is still present"

-- The body of preflight's loop over the mappings.
unfoldable pub preflight_mapping : Inspection → Mapping → Report → Report × Outcome Mapping
unfolding plan_rewrites
preflight_mapping inspected item report =
    let source_present = lookup_or false item.row.source_id inspected.present in
    let target_present = lookup_or false item.row.target_id inspected.present in
    let marked = mark_mapping inspected item source_present target_present report in
    if item.row.source_id == item.row.target_id
    then (report, accepted item)
    else if source_present && target_present
    then (collide item report, occupied item)
    else (marked.0, accepted marked.1)

unfoldable pub preflight_loop : Inspection → List Mapping → Report → Report × Outcome (List Mapping)
unfolding preflight_mapping
preflight_loop inspected [] report = (report, accepted [])
preflight_loop inspected (item ∷ rest) report =
    let (after, marked) = preflight_mapping inspected item report in
    elim marked [
      | refused e ↦ (after, refused e)
      | accepted item' ↦
          let (last, more) = preflight_loop inspected rest after in
          (last, more >>= λ items. accepted (item' ∷ items))
    ]

unfoldable pub replacements : List Mapping → Dict String → Dict String
replacements [] known = known
replacements (item ∷ rest) known =
    replacements rest
      (if item.active then insert item.row.source_id item.row.target_id known else known)

abbrev pub renamed_by : Dict String → String → String
renamed_by known identity = lookup_or identity identity known

abbrev has_scope : Option Types.Scope → Types.Scope → Bool
has_scope (some Types.personal) Types.personal = true
has_scope (some Types.ucla) Types.ucla = true
has_scope other scope = false

abbrev pub in_scope : List String → Types.Scope → Bool
in_scope [] scope = false
in_scope (id ∷ ids) scope = has_scope (explicit_scope id) scope || in_scope ids scope

abbrev pub is_found : Option String → Bool
is_found none = false
is_found (some target) = true

abbrev pub any_renamed : Dict String → List String → Bool
any_renamed known [] = false
any_renamed known (id ∷ ids) = is_found (lookup id known) || any_renamed known ids

abbrev pub plan_one : Dict String → ConversationPlan → ConversationPlan
plan_one known c = record c {
  participants = map (renamed_by known) c.participants;
  changed = c.changed || any_renamed known c.participants;
}

unfoldable pub plan_conversations :
    Dict String → List ConversationPlan → Outcome (List ConversationPlan)
unfolding explicit_scope
plan_conversations known [] = accepted []
plan_conversations known (c ∷ rest) =
    let planned = plan_one known c in
    let mixed =
      in_scope planned.participants Types.personal && in_scope planned.participants Types.ucla in
    if mixed
    then refuse "mixed_scope_participants" participants_surface
        "conversation would contain both personal.* and ucla.* participants"
    else (plan_conversations known rest >>= λ more. accepted (planned ∷ more))

pub record Plan : Type 0 where
  pub mappings : List Mapping
  pub conversations : List ConversationPlan

abbrev pub plan_of : List ConversationPlan → List Mapping → Outcome Plan
plan_of conversations mappings = do
  planned ← plan_conversations (replacements mappings []) conversations
  accepted (record { mappings = mappings; conversations = planned })

unfoldable pub preflight : List Mapping → Inspection → Report → Report × Outcome Plan
unfolding check_known preflight_loop replacements plan_conversations
preflight mappings inspected report =
    let (after, marked) = preflight_loop inspected mappings report in
    elim (check_known mappings inspected.present) [
      | refused e ↦ (report, refused e)
      | accepted known ↦ (after, marked >>= plan_of inspected.conversations)
    ]
