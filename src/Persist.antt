-- ===== src/Persist.antt =====
-- SaveState and LoadState of types.go: the state file, its backup, and the order of the operations on
-- files, so that a crash between any two of them can be spoken of. JSON is an argument: the text that
-- MarshalIndent makes of the payload, and `decode`, which is Unmarshal of a text into a payload. A nil
-- map is the empty one, which LoadState makes of it.
pub mod Crash
pub mod Load
use scale_cluster_agent.Types.{ClusterInfo}
use scale_cluster_agent.Prelude.Dict.{Dict}
use scale_cluster_agent.Prelude.{
  ℕ, Bool, true, false, not, ◌&&◌, List, [], ◌∷◌, ◌++◌, Option, none, some, Text, if◌then◌else◌,
}

-- The anonymous struct that both functions write and read; a nil pointer to a cluster is null.
pub record Payload : Type 0 where
  pub clusters : Dict Text (Option ClusterInfo)
  pub proxy_ports : Dict Text ℕ
  pub version : Text

-- state.json, state.json.bak and the temporary file.
pub record Files : Type 0 where
  pub main : Option Text
  pub bak : Option Text
  pub temp : Option Text

pub data Op : Type 0 where
  create_temp : Op
  write_temp write_bak : Text → Op
  rename remove_temp : Op

-- os.Rename replaces the file in one step; of a temporary file that is not there, it does nothing.
abbrev pub run_op : Op → Files → Files
run_op create_temp f = record f { temp = some [] }
run_op (write_temp t) f = record f { temp = some t }
run_op (write_bak t) f = record f { bak = some t }
run_op rename f = elim f.temp [ none ↦ f | some t ↦ record f { main = some t; temp = none } ]
run_op remove_temp f = record f { temp = none }

abbrev pub run_ops : List Op → Files → Files
run_ops [] f = f
run_ops (o ∷ os) f = run_ops os (run_op o f)

-- Which of the calls succeed. A write that fails may leave part of its text: `torn` is what the backup
-- holds then, and `partial` what the temporary file holds.
pub record Outcomes : Type 0 where
  pub path_ok : Bool
  pub marshal_ok : Bool
  pub temp_ok : Bool
  pub write_ok : Bool
  pub partial : Text
  pub sync_ok : Bool
  pub close_ok : Bool
  pub read_ok : Bool
  pub bak_ok : Bool
  pub torn : Text
  pub rename_ok : Bool

-- The backup of a file that is there, can be read and is not empty.
pub backup_ops : Outcomes → Option Text → List Op
backup_ops w none = []
backup_ops w (some []) = []
backup_ops w (some (c ∷ s)) =
    if w.read_ok then (if w.bak_ok then write_bak (c ∷ s) else write_bak w.torn) ∷ [] else []

-- SaveState: the operations, in order, and whether it returns no error. The deferred removal runs on
-- every path once the temporary file is there.
unfoldable pub save_state : Outcomes → Text → Files → List Op × Bool
unfolding backup_ops
save_state w text f =
    let begun = create_temp ∷ [] in
    let written = begun ++ (write_temp text ∷ []) in
    let backed = written ++ backup_ops w f.main in
    let undo = remove_temp ∷ [] in
    if not w.path_ok
    then ([], false)
    else if not w.marshal_ok
    then ([], false)
    else if not w.temp_ok
    then ([], false)
    else if not w.write_ok
    then (begun ++ (write_temp w.partial ∷ undo), false)
    else if not w.sync_ok
    then (written ++ undo, false)
    else if not w.close_ok
    then (written ++ undo, false)
    else if not w.rename_ok
    then (backed ++ undo, false)
    else (backed ++ (rename ∷ undo), true)

-- What LoadState makes of the maps of clusters and of proxy ports: they stay as they are on the first
-- run, are those of a payload, or stay with an error.
pub data Loaded : Type 0 where
  first_run load_error : Loaded
  restored : Payload → Loaded

-- var payload
abbrev pub no_payload : Payload
no_payload = record { clusters = []; proxy_ports = []; version = [] }

-- len(b) > 0 && json.Unmarshal(b, &payload) == nil, with the payload afterwards. An Unmarshal that
-- fails may have filled a part of the payload; of an empty text it is not called.
unfoldable pub decode_text : (Text → Payload → Payload × Bool) → Text → Payload → Payload × Bool
decode_text decode [] p = (p, false)
decode_text decode (c ∷ s) p = decode (c ∷ s) p

-- The backup, where there is one that can be read, decoded into the same payload.
load_bak : (Text → Payload → Payload × Bool) → Bool → Option Text → Payload → Loaded
unfolding decode_text
load_bak decode readable none p = load_error
load_bak decode readable (some t) p =
    let (q, good) = decode_text decode t p in if readable && good then restored q else load_error

-- LoadState; `main_readable` and `bak_readable` say whether os.ReadFile of a file that is there
-- succeeds.
pub load_state : (Text → Payload → Payload × Bool) → Bool → Bool → Files → Loaded
unfolding load_bak
load_state decode main_readable bak_readable f = elim f.main [
  | none ↦ first_run
  | some t ↦
      let (q, good) = decode_text decode t no_payload in
      let backup = load_bak decode bak_readable f.bak q in
      if main_readable then (if good then restored q else backup) else load_error
]
