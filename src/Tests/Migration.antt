-- ===== src/Tests/Migration.antt =====
-- A manifest with both halves of a split identity, and the database of one authority.
use pinakes.Base.{List, [], ◌∷◌, map, ◌≡◌, refl, some, true, false, String, All}
use pinakes.Base.Dict.{lookup, insert, lookup_or}
use pinakes.Text.{trim_space, has_dot, before_dot}
use pinakes.Scope.{valid_scope}
use pinakes.Migrate.{ManifestRow, jk, ucla, split, unchanged, accepted}
use pinakes.Migrate.Rows.{swap_row}
use pinakes.Migrate.Manifest.{identity_key, parse_manifest, write_manifest, invert_manifest}
use pinakes.Migrate.Manifest.Inverse.{parse-write, invert-invert}
use pinakes.Migrate.Manifest.Apart.{AllDiffer}
use pinakes.Migrate.Manifest.Accept.{Sound, has_half, parse_manifest-Sound}
use pinakes.Migrate.Inspect.{Database, Inspection, inspect}
use pinakes.Migrate.Plan.{
  Plan, select_mappings, new_report, validate_control_plane_agreement, preflight, applied,
}
use pinakes.Migrate.Apply.{Options, run, finish}
use pinakes.Migrate.Apply.Quiet.{Quiet, run-Quiet}
use pinakes.Migrate.Apply.Total.{rename_db}
use pinakes.Migrate.Apply.Names.{no_faults, start_of, Passes, Names, new_name, run_applied}

abbrev manifest_text : String
manifest_text =
    "source_authority,source_id,target_id,disposition,owner_repo,evidence,control_plane\njk,mail,personal.mail,split,joel/mail,\"a, \"\"b\"\"\",false\nucla,mail,ucla.mail,split,x,y,false\njk,hub,hub,unchanged,o,e,true\n"

abbrev jk_row : ManifestRow
jk_row = record {
  source_authority = jk;
  source_id = "mail";
  target_id = "personal.mail";
  disposition = split;
  owner_repo = "joel/mail";
  evidence = "a, \"b\"";
  control_plane = false;
  line = 2;
}

abbrev ucla_row : ManifestRow
ucla_row = record {
  source_authority = ucla;
  source_id = "mail";
  target_id = "ucla.mail";
  disposition = split;
  owner_repo = "x";
  evidence = "y";
  control_plane = false;
  line = 3;
}

abbrev hub_row : ManifestRow
hub_row = record {
  source_authority = jk;
  source_id = "hub";
  target_id = "hub";
  disposition = unchanged;
  owner_repo = "o";
  evidence = "e";
  control_plane = true;
  line = 4;
}

abbrev manifest : List ManifestRow
manifest = jk_row ∷ ucla_row ∷ hub_row ∷ []

manifest_read : parse_manifest manifest_text ≡ accepted manifest
unfolding parse_manifest trim_space has_dot valid_scope before_dot lookup insert identity_key
    lookup_or
manifest_read = refl

parse-write_example : parse_manifest (write_manifest manifest) ≡ accepted manifest
parse-write_example =
    parse-write manifest_text manifest manifest_read
      ((refl, refl), ((refl, refl), ((refl, refl), tt)))

invert-invert_example :
    (invert_manifest manifest ≡ accepted (map swap_row manifest))
    × (invert_manifest (map swap_row manifest) ≡ accepted manifest)
invert-invert_example =
    invert-invert manifest_text manifest manifest_read
      ((refl, refl), ((refl, refl), ((refl, refl), tt)))

parse_manifest-Sound_example :
    All Sound manifest
    × AllDiffer manifest
    × ((id : String) → has_half jk id manifest ≡ has_half ucla id manifest)
parse_manifest-Sound_example = parse_manifest-Sound manifest_text manifest manifest_read

abbrev database : Database
database = record {
  agents = "mail" ∷ "hub" ∷ [];
  messages = record { from_agent = "hub"; to_agent = "mail" } ∷ [];
  conversations =
      record { conversation_id = "c-1"; participants = some ("hub" ∷ "mail" ∷ []) } ∷ [];
  deliveries = record { target_agent_id = "mail"; delivery_seq = 0 } ∷ [];
  delivery_cursors = "mail" ∷ [];
  idempotency = record { from_agent = "hub"; to_agent = "mail"; request_id = "r" } ∷ [];
}

abbrev options : Options
options = record {
  authority = jk;
  apply = true;
  acknowledge_copy = true;
  control_plane_agents = "hub" ∷ [];
}

abbrev inspected : Inspection
inspected = record {
  present = ("mail", true) ∷ ("hub", true) ∷ [];
  occurrences =
      ("agents.agent_id", ("mail", 1) ∷ ("hub", 1) ∷ [])
      ∷ ("messages.from_agent", ("hub", 1) ∷ [])
      ∷ ("messages.to_agent", ("mail", 1) ∷ [])
      ∷ ("deliveries.target_agent_id", ("mail", 1) ∷ [])
      ∷ ("delivery_cursors.target_agent_id", ("mail", 1) ∷ [])
      ∷ ("idempotency.from_agent", ("hub", 1) ∷ [])
      ∷ ("idempotency.to_agent", ("mail", 1) ∷ [])
      ∷ ("conversations.participants", ("hub", 1) ∷ ("mail", 1) ∷ [])
      ∷ [];
  conversations = record { id = "c-1"; participants = "hub" ∷ "mail" ∷ []; changed = false } ∷ [];
}

abbrev plan : Plan
plan = record {
  mappings =
      record { row = jk_row; active = true; already_applied = false }
      ∷ record { row = hub_row; active = false; already_applied = false }
      ∷ [];
  conversations =
      record { id = "c-1"; participants = "hub" ∷ "personal.mail" ∷ []; changed = true } ∷ [];
}

passes : Passes manifest options database inspected plan
unfolding inspect preflight select_mappings new_report validate_control_plane_agreement has_dot
    valid_scope before_dot trim_space lookup insert lookup_or
passes = record {
  applies = refl;
  copied = refl;
  chosen_some = refl;
  agreed = refl;
  seen = refl;
  checked = refl;
  busy = refl;
}

run_applied_example :
    (run no_faults manifest options database
      ≡ finish
          (preflight (start_of manifest options).0 inspected (start_of manifest options).1).0
          applied
          (rename_db (new_name plan) database))
    × Names manifest jk database (new_name plan)
run_applied_example =
    run_applied manifest_text manifest options database inspected plan manifest_read (refl, tt)
      passes

run-Quiet_example : Quiet options database (run no_faults manifest options database)
run-Quiet_example = run-Quiet no_faults options database manifest
