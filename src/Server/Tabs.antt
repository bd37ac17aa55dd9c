-- ===== src/Server/Tabs.antt =====
-- src/lib.rs: the inspector's tabs and the registration of the actor.
mod Extracted
use Prim.Native.String.{◌++◌ as str_append}
use rivet_durable_streams.Prelude.{
  ℕ, Bool, true, ◌*◌, String, Text, List, [], ◌∷◌, ◌++◌, Option, none, some, map, Result, ok, err,
}
use rivet_durable_streams.Actor.Types.{actor_name}

-- `rivetkit::InspectorTabEntry`; a path is a text.
pub data InspectorTabEntry : Type 0 where
  custom : String → String → Option String → Text → InspectorTabEntry
  hide_builtin : String → InspectorTabEntry

abbrev pub tab : Text → String × (String × String) → InspectorTabEntry
tab root (id, (label, icon)) = custom id label (some icon) root

unfoldable pub inspector_tabs : Text → List InspectorTabEntry
inspector_tabs root =
    map (tab root) (
      ("stream-overview", ("Overview", "tag"))
      ∷ ("stream-messages", ("Messages", "logs"))
      ∷ ("stream-producers", ("Producers", "microchip"))
      ∷ ("stream-forks", ("Forks", "workflow"))
      ∷ ("stream-maintenance", ("Maintenance", "wrench"))
      ∷ [])
    ++ map hide_builtin
        ("workflow" ∷ "database" ∷ "state" ∷ "queue" ∷ "schedules" ∷ "connections" ∷ "console" ∷ [])

-- The disk, `TempDir::with_prefix` and the extraction of the compiled bundle into a directory.
pub record TempDirs : Type 1 where
  pub Disk : Type 0
  pub with_dir_prefix : String → Disk → Result Text × Disk
  pub extract : Text → Disk → Option String × Disk

-- `rivetkit::ActorConfig`, as far as it differs from its default.
pub record ActorConfig : Type 0 where
  pub name : String
  pub has_database : Bool
  pub has_state : Bool
  pub max_outgoing_message_size : ℕ
  pub tabs : List InspectorTabEntry

-- `OnceLock<Result<TempDir, String>>`: what the first call left.
abbrev pub Extracted : Type 0
Extracted = Option (Result Text)

module _ (dirs : TempDirs) where
  unfoldable pub extract_bundle : dirs.Disk → Result Text × dirs.Disk
  extract_bundle disk =
      let (created, disk) = dirs.with_dir_prefix "rivet-durable-streams-inspector-" disk in
      elim created [
        | err error ↦ (err (str_append "create inspector temp directory: " error), disk)
        | ok dir ↦
            let (failure, disk) = dirs.extract dir disk in
            elim failure [
              | some error ↦ (err (str_append "extract embedded inspector bundle: " error), disk)
              | none ↦ (ok dir, disk)
            ]
      ]

  -- `EXTRACTED_INSPECTOR_BUNDLE.get_or_init(…)`
  unfoldable pub embedded_inspector_root :
      Extracted × dirs.Disk → Result Text × (Extracted × dirs.Disk)
  unfolding extract_bundle
  embedded_inspector_root (some extracted, disk) = (extracted, (some extracted, disk))
  embedded_inspector_root (none, disk) =
      let (extracted, disk) = extract_bundle disk in (extracted, (some extracted, disk))

  -- `inspector_root.or_else(…)`
  unfoldable pub root_of :
      Option Text → Extracted × dirs.Disk → Option Text × (Extracted × dirs.Disk)
  unfolding embedded_inspector_root
  root_of (some root) state = (some root, state)
  root_of none state =
      let (extracted, state) = embedded_inspector_root state in
      elim extracted [ ok root ↦ (some root, state) | err error ↦ (none, state) ]

  -- The configuration under which the actor is registered.
  unfoldable pub register_with_inspector :
      Option Text → Extracted × dirs.Disk → ActorConfig × (Extracted × dirs.Disk)
  unfolding root_of inspector_tabs
  register_with_inspector inspector_root state =
      let (root, state) = root_of inspector_root state in
      (
        record {
          name = actor_name;
          has_database = true;
          has_state = true;
          max_outgoing_message_size = 6 * 1024 * 1024;
          tabs = elim root [ none ↦ [] | some path ↦ inspector_tabs path ];
        },
        state,
      )

  unfoldable pub register : Extracted × dirs.Disk → ActorConfig × (Extracted × dirs.Disk)
  unfolding register_with_inspector
  register = register_with_inspector none
