-- ===== src/Fs/Open/Files.antt =====
-- Writing to an open file, and reading back through it.
use native.Mathlib.Nat.{mod-eq_of_lt}
use pimento.Base.{ℕ, ◌+◌, ◌<◌, ◌≡◌, refl, sym, ap, ◌∙◌, some, List, ok, length, word}
use pimento.Base.Map.{insert, insert_self}
use pimento.Memory.Reserve.{HeapRoom}
use pimento.Fs.Tmpfs.{Tmpfs}
use pimento.Fs.Tmpfs as T
use pimento.Fs.Tmpfs.Files.{Room, write-stored, write-read}
use pimento.Fs.Devfs.{CharacterDevices}
use pimento.Fs.FileSystem as F
use pimento.Fs.Open.{FileSystems, File, seek, read, write, put_back, advanced}

module _ {W : Type 0} (devices : CharacterDevices W) (heap : HeapRoom) (f : File) (buf v : List ℕ)
    (fs : Tmpfs) (live : FileSystems) (w : W) (found : live f.node.file_system ≡ some (F.tmpfs fs))
    (holds : fs.files f.node.node_id ≡ some v) (room : f.position + length buf < word)
    (free : Room heap (f.position + length buf) v) where
  abbrev fs' : Tmpfs
  fs' = (T.write heap f.node f.position buf fs).1

  abbrev live' : FileSystems
  live' = insert f.node.file_system (F.tmpfs fs') live

  abbrev end_of_write : File
  end_of_write = record f { position = f.position + length buf }

  tmpfs_write : T.write heap f.node f.position buf fs ≡ (ok (length buf), fs')
  tmpfs_write =
      let e = write-stored heap f.node f.position buf v fs holds room free in
      e ∙ ap (λ s. (ok (length buf), s)) (sym (ap (λ r. r.1) e))

  here : live' f.node.file_system ≡ some (F.tmpfs fs')
  here = insert_self f.node.file_system (F.tmpfs fs') live

  write-tmpfs : write devices heap f buf live w ≡ (ok (length buf), end_of_write, live', w)
  unfolding write F.write
  write-tmpfs =
      rw (found, write, F.write)
        (ap (λ r. put_back devices f live (F.stored devices w r)) tmpfs_write
          ∙ rw (mod-eq_of_lt room) refl)

  seek-tmpfs : seek end_of_write f.position live' ≡ (ok tt, f)
  unfolding seek
  seek-tmpfs = rw (here, seek) refl

  read-tmpfs : (read devices f (length buf) live' w).0 ≡ ok buf
  unfolding read F.read
  read-tmpfs =
      rw (here, read, F.read)
        (ap (λ r. (advanced devices f (r, w)).0)
          (write-read heap f.node f.position buf fs v holds room free))

  -- Through an open file of a temporary file system, a write that ends below the machine word, of a
  -- file that is long enough or that the heap has room to make longer, returns the length of the
  -- buffer and moves the position behind what was written; after a `seek` back to where the write
  -- began, a `read` of as many bytes returns the buffer.
  pub write-seek-read :
      (f1 : File) × (live1 : FileSystems) × (write devices heap f buf live w
        ≡ (ok (length buf), f1, live1, w))
      × (f1.position ≡ f.position + length buf)
      × ((f2 : File) × (seek f1 f.position live1 ≡ (ok tt, f2))
          × ((read devices f2 (length buf) live1 w).0 ≡ ok buf))
  write-seek-read = (end_of_write, live', write-tmpfs, refl, (f, seek-tmpfs, read-tmpfs))
