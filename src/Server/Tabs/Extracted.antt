-- ===== src/Server/Tabs/Extracted.antt =====
-- src/lib.rs: how often the compiled bundle is extracted.
use rivet_durable_streams.Prelude.{◌≡◌, refl, none, some}
use rivet_durable_streams.Server.Tabs.{Extracted, TempDirs, embedded_inspector_root}

-- Whatever the first call of a process found, later calls find the same and leave the disk as it is.
embedded_inspector_root_once :
    (dirs : TempDirs) (state : Extracted × dirs.Disk)
    → let (found, later) = embedded_inspector_root dirs state in
      embedded_inspector_root dirs later ≡ (found, later)
unfolding embedded_inspector_root
embedded_inspector_root_once dirs (none, disk) = refl
embedded_inspector_root_once dirs (some extracted, disk) = refl
