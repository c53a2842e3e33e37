-- ===== src/Fs/Tmpfs/Files.antt =====
-- What `write` leaves in a file and what `read` returns of it, byte by byte.
use Prim.Native.Nat.{max}
use native.Mathlib.Nat.{mod-eq_of_lt, add-sub_cancel_left}
use pimento.Base.{
  ℕ, ◌+◌, ◌-◌, ◌≤◌, ◌<◌, ◌≡◌, ◌≢◌, refl, ap, ◌∙◌, ◌⊎◌, inl, inr, arith, true, false, ltb, not, ◌&&◌,
  none, some, List, ◌++◌, ok, err, panic, length, get_elem?, take, drop, leb, min, length-take,
  length-drop, word, Bool-cases, Option-cases, lt→ltb, leb→le, not_leb,
}
use pimento.Base.Map.{insert, insert_self}
use pimento.Memory.Reserve.{HeapRoom, reserves}
use pimento.Fs.Node.{Node}
use pimento.Fs.Tmpfs.{Tmpfs, slice, read, grow, write}
use pimento.Fs.Tmpfs.Slices.{get_elem?-take, get_elem?-drop, take_append, drop_append_at}
use pimento.Fs.Tmpfs.Bytes.{
  stored, written, length-grow, overwrite-stored, length-stored, stored-byte,
}

-- The file is long enough for bytes up to `end`, or the heap has the room.
abbrev pub Room : HeapRoom → ℕ → List ℕ → Type 0
Room heap end v = (end ≤ length v) ⊎ (reserves heap end ≡ true)

module _ (heap : HeapRoom) (node : Node) (position : ℕ) (buf v : List ℕ) (fs : Tmpfs) where
  pub write-stored :
      fs.files node.node_id ≡ some v
      → position + length buf < word
      → Room heap (position + length buf) v
      → write heap node position buf fs ≡ (
        ok (length buf),
        record fs { files = insert node.node_id (stored position buf v) fs.files },
      )
  unfolding write
  write-stored found small room =
      rw (found, write)
        (rw
          (
            mod-eq_of_lt small,
            enough,
            overwrite-stored position buf v,
            add-sub_cancel_left position (length buf),
          )
          refl)
    where
      enough :
          (ltb (length v) (position + length buf) && not (reserves heap (position + length buf)))
          ≡ false
      enough = elim room [ inl long ↦ ground (arith, long) | inr free ↦ ground (arith, free) ]

  write-full :
      fs.files node.node_id ≡ some v
      → position + length buf < word
      → length v < position + length buf
      → reserves heap (position + length buf) ≡ false
      → write heap node position buf fs ≡ (panic, fs)
  unfolding write
  write-full found small short full =
      rw (found, write) (rw (mod-eq_of_lt small, lt→ltb _ _ short, full) refl)

-- What a write changes: the one file, to the bytes of `written` and the length that they take.
pub record Writes (node : Node) (position : ℕ) (buf : List ℕ) (v : List ℕ) (fs fs' : Tmpfs)
    : Type 0 where
  pub bytes : List ℕ
  pub here : fs'.files node.node_id ≡ some bytes
  pub size : length bytes ≡ max (length v) (position + length buf)
  pub each : (i : ℕ) → get_elem? bytes i ≡ written position buf v i
  pub other_files : (id : ℕ) → id ≢ node.node_id → fs'.files id ≡ fs.files id
  pub directories : fs'.directories ≡ fs.directories
  pub node_counter : fs'.node_counter ≡ fs.node_counter

pub read-take :
    (node : Node) (position count : ℕ) (v : List ℕ) (fs : Tmpfs)
    → fs.files node.node_id ≡ some v
    → position + count < word
    → position ≤ length v
    → read node position count fs ≡ ok (take (min count (length v - position)) (drop position v))
unfolding read slice
read-take node position count v fs found room within = rw (found, mod-eq_of_lt room) (ground arith)

-- A read whose end fits a machine word. From a position up to the end of a file it returns what
-- there is, at most `count` bytes, each the byte of the file; from a position past the end it
-- panics, whatever the count; and from a node that is no file it is an error.
pub read_lem :
    (node : Node) (position count : ℕ) (fs : Tmpfs)
    → position + count < word
    → ((v : List ℕ) × (fs.files node.node_id ≡ some v)
        × (position ≤ length v)
        × ((bytes : List ℕ) × (read node position count fs ≡ ok bytes)
            × (length bytes ≡ min count (length v - position))
            × ((i : ℕ) → i < length bytes → get_elem? bytes i ≡ get_elem? v (position + i))))
      ⊎ (((v : List ℕ) × (fs.files node.node_id ≡ some v)
            × (length v < position)
            × (read node position count fs ≡ panic))
          ⊎ ((fs.files node.node_id ≡ none) × (read node position count fs ≡ err)))
read_lem node position count fs room = elim (Option-cases (fs.files node.node_id)) [
  | inl missing ↦ inr (inr (missing, unfold read in rw missing))
  | inr (v, found) ↦ elim (Bool-cases (leb position (length v))) [
    | inl within ↦ inl (
      v,
      found,
      leb→le _ _ within,
      (
        take (min count (length v - position)) (drop position v),
        read-take node position count v fs found room (leb→le _ _ within),
        omega (
          arith,
          length-take (min count (length v - position)) (drop position v),
          length-drop position v,
        ),
        λ i h.
            rw
              (
                get_elem?-take (min count (length v - position)) (drop position v) i,
                lt→ltb i (min count (length v - position)) (
                    omega (arith, length-take (min count (length v - position)) (drop position v))),
              )
              (get_elem?-drop position v i),
      ),
    )
    | inr beyond ↦ inr (
        inl (
          v,
          found,
          not_leb _ _ beyond,
          unfold read slice in rw (found, mod-eq_of_lt room) (ground arith),
        ))
  ]
]

module _ (heap : HeapRoom) (node : Node) (position : ℕ) (buf : List ℕ) (fs : Tmpfs) where
  -- A write whose end fits a machine word. To a file that is long enough, or that the heap has room
  -- to make longer, it stores the whole buffer at the position, with zeros up to there if the file
  -- was shorter, returns the length of the buffer and touches nothing else. It panics exactly when
  -- the file is too short and there is no room, and then nothing has changed. To a node that is no
  -- file it is an error and changes nothing.
  pub write_lem :
      position + length buf < word
      → ((v : List ℕ) × (fs.files node.node_id ≡ some v)
          × Room heap (position + length buf) v
          × ((fs' : Tmpfs) × (write heap node position buf fs ≡ (ok (length buf), fs'))
              × Writes node position buf v fs fs'))
        ⊎ (((v : List ℕ) × (fs.files node.node_id ≡ some v)
              × (length v < position + length buf)
              × (reserves heap (position + length buf) ≡ false)
              × (write heap node position buf fs ≡ (panic, fs)))
            ⊎ ((fs.files node.node_id ≡ none) × (write heap node position buf fs ≡ (err, fs))))
  write_lem small = elim (Option-cases (fs.files node.node_id)) [
    | inl missing ↦ inr (inr (missing, unfold write in rw (missing, write)))
    | inr (v, found) ↦ elim (room-cases v) [
      | inr (short, full) ↦ inr (
          inl
            (v, found, short, full, write-full heap node position buf v fs found small short full))
      | inl room ↦ inl (v, found, room, write-writes v found small room)
    ]
  ]
    where
      room-cases :
          (v : List ℕ)
          → Room heap (position + length buf) v
            ⊎ ((length v < position + length buf) × (reserves heap (position + length buf) ≡ false))
      room-cases v = elim (Bool-cases (leb (position + length buf) (length v))) [
        | inl long ↦ inl (inl (leb→le _ _ long))
        | inr short ↦ elim (Bool-cases (reserves heap (position + length buf))) [
          | inl free ↦ inl (inr free)
          | inr full ↦ inr (not_leb _ _ short, full)
        ]
      ]

      write-writes :
          (v : List ℕ)
          → fs.files node.node_id ≡ some v
          → position + length buf < word
          → Room heap (position + length buf) v
          → (fs' : Tmpfs) × (write heap node position buf fs ≡ (ok (length buf), fs'))
            × Writes node position buf v fs fs'
      write-writes v found small room = (
        record fs { files = insert node.node_id (stored position buf v) fs.files },
        write-stored heap node position buf v fs found small room,
        record {
          bytes = stored position buf v;
          here = insert_self node.node_id (stored position buf v) fs.files;
          size = length-stored position buf v;
          each = stored-byte position buf v;
          other_files = λ id other. ground arith;
          directories = refl;
          node_counter = refl;
        },
      )

  -- After a write to a file that ends below the machine word, where the file is long enough or the
  -- heap has room to make it longer, reading as many bytes as it wrote, from where it wrote them,
  -- returns the buffer.
  pub write-read :
      (v : List ℕ)
      → fs.files node.node_id ≡ some v
      → position + length buf < word
      → Room heap (position + length buf) v
      → read node position (length buf) (write heap node position buf fs).1 ≡ ok buf
  write-read v found room free = rw (write-stored heap node position buf v fs found room free) (
      read-take node position (length buf) (stored position buf v) _
        (insert_self node.node_id (stored position buf v) fs.files) room
        (omega (arith, length-stored position buf v))
      ∙ ap ok (rw (enough, middle) (take_append buf (drop end grown))))
    where
      end : ℕ
      end = position + length buf

      grown : List ℕ
      grown = grow end v

      enough : min (length buf) (length (stored position buf v) - position) ≡ length buf
      enough = omega (arith, length-stored position buf v)

      middle : drop position (stored position buf v) ≡ buf ++ drop end grown
      middle =
          drop_append_at position (take position grown) (buf ++ drop end grown)
            (omega (arith, length-take position grown, length-grow end v))
