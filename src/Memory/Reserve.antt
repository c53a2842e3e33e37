-- ===== src/Memory/Reserve.antt =====
-- Whether a vector can be given room for as many bytes as its caller asks for. A request for no
-- bytes allocates nothing; from 2^63 bytes on the standard library panics; below that the kernel's
-- heap, kernel/src/memory/heap.rs, decides, by what was asked of it before. When it has no room,
-- that is a panic too.
use pimento.Base.{ℕ, ◌^◌, Bool, ltb, leb, ◌*◌, ◌==◌, ◌&&◌, ◌||◌}

-- Whether the heap lets a vector come to hold so many bytes. A vector that grows may ask for more
-- than that at once.
abbrev pub HeapRoom : Type 0
HeapRoom = ℕ → Bool

unfoldable pub reserves : HeapRoom → ℕ → Bool
reserves heap count = (count == 0) || (ltb count (2 ^ 63) && heap count)

-- The 4 MB of the kernel, when nothing was asked of them before.
abbrev pub unused : HeapRoom
unused count = leb count (4 * 2 ^ 20)
