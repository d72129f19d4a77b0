-- ===== src/Tests/Persist.antt =====
-- Tests of the state file: types.go.
use scale_cluster_agent.Persist.{
  Payload, Files, run_ops, Outcomes, save_state, restored, load_state, no_payload, decode_text,
}
use scale_cluster_agent.Persist.Load.{load_state-save_state, load_state-crash}
use scale_cluster_agent.Prelude.{
  ◌≡◌, ◌⊎◌, refl, Bool, true, false, [], none, some, Text, take, codes,
}

-- A decoder of texts that hold just the version.
abbrev decode : Text → Payload → Payload × Bool
decode s p = (record p { version = s }, true)

abbrev all_well : Outcomes
all_well = record {
  path_ok = true;
  marshal_ok = true;
  temp_ok = true;
  write_ok = true;
  partial = [];
  sync_ok = true;
  close_ok = true;
  read_ok = true;
  bak_ok = true;
  torn = [];
  rename_ok = true;
}

abbrev old_files : Files
old_files = record { main = some (codes "1"); bak = none; temp = none }

load_state-save_state_example :
    load_state decode true false (run_ops (save_state all_well (codes "2") old_files).0 old_files)
    ≡ restored (record no_payload { version = codes "2" })
unfolding save_state decode_text
load_state-save_state_example =
    load_state-save_state decode all_well false (codes "2")
      (record no_payload { version = codes "2" }) old_files refl refl

load_state-crash_example :
    (load_state decode true false
        (run_ops (take 3 (save_state all_well (codes "2") old_files).0) old_files)
      ≡ restored (record no_payload { version = codes "1" }))
    ⊎ (load_state decode true false
          (run_ops (take 3 (save_state all_well (codes "2") old_files).0) old_files)
        ≡ restored (record no_payload { version = codes "2" }))
unfolding save_state decode_text
load_state-crash_example =
    load_state-crash decode all_well false (codes "1") (codes "2")
      (record no_payload { version = codes "1" }) (record no_payload { version = codes "2" })
      old_files 3 refl refl refl
