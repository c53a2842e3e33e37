-- ===== src/Fs/VirtualFileSystem/Runs.antt =====
-- A device file system on `/dev` of a temporary one, and the theorem at it.
use pimento.Base.{refl, inl, arith, [], ◌∷◌, if◌then◌else◌, ◌==◌}
use pimento.Base.Map.{empty, insert}
use pimento.Fs.Name.{Name}
use pimento.Fs.Node.{Node, directory}
use pimento.Fs.FileSystem as F
use pimento.Fs.Tmpfs as T
use pimento.Fs.Devfs as D
use pimento.Fs.Mounts.{Handle}
use pimento.Fs.Mounts.Ranked.{Ranked}
use pimento.Fs.VirtualFileSystem.{VirtualFileSystem, mkdir, rmdir, mknod, unlink}
use pimento.Fs.VirtualFileSystem.Changes.{Answers, changes_lem}

abbrev dev : Node
dev = record { file_system = 1; node_id = 1; node_type = directory }

abbrev devfs : Handle
devfs = record { id = 2; root = record { file_system = 2; node_id = 0; node_type = directory } }

abbrev machine : VirtualFileSystem
machine = record {
  root_file_system = 1;
  mounts = record { mount_point = dev; subtree = devfs } ∷ [];
  file_systems = insert 1 (F.tmpfs (T.new 1)) (insert 2 (F.devfs (D.new 2)) empty);
}

abbrev ranks : Ranked 1 machine.mounts
ranks = record {
  rank = λ id. if id == 2 then 1 else 0;
  bottom = refl;
  climbs = (
    record {
      attached = inl refl;
      up = omega arith;
      bounded = omega arith;
      mounted = (_, refl);
      own_root = refl;
    },
    tt,
  );
}

abbrev serial : Name
serial = b's' ∷ []

changes_lem_example :
    Answers mkdir F.mkdir dev serial machine 1
    × Answers rmdir F.rmdir dev serial machine 1
    × Answers mknod F.mknod dev serial machine 1
    × Answers unlink F.rmdir dev serial machine 1
changes_lem_example = changes_lem dev serial machine 1 ranks
