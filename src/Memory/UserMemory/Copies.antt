-- ===== src/Memory/UserMemory/Copies.antt =====
-- A copy to user memory, byte after byte.
use pimento.Base.{
  false, ℕ, zero, suc, ◌+◌, ◌/◌, ◌%◌, ◌^◌, ◌≤◌, ◌<◌, ◌≡◌, refl, ap, ◌∙◌, ◌⊎◌, inl, inr, arith,
  Option, some, none, List, [], ◌∷◌, length, get_elem?, Option-cases, ok, panic, ◌==◌,
  if◌then◌else◌,
}
use pimento.Memory.Ram.{Ram}
use pimento.Memory.PageAllocator
use pimento.Memory.PageTable.Rows.{span}
use pimento.Memory.MemoryContext.{MemoryContext, State}
use pimento.Memory.MemoryContext.Regions.{Owned, Tree, level-cases, translate, walk, row_at, target}
use pimento.Memory.MemoryContext.Mapping.{root_of}
use pimento.Memory.UserMemory.{
  user_byte, copy_to_user, copy_from_user, KernelBytes, byte_at, in_window,
}
use pimento.Memory.UserMemory.Bytes.{
  put, put-Tree, put-translate, put_byte-put, put-user_byte, put-others,
}

same_row :
    (level a b : ℕ) → level < 4 → a / 4096 ≡ b / 4096 → a / span level % 512 ≡ b / span level % 512
same_row level a b deep same = ground (arith, level-cases level deep)

abbrev found : Ram → ℕ → ℕ → Option ℕ
found ram p index = let row = row_at ram p index in if row % 4 == 3 then some (target row) else none

onward :
    (o : Option ℕ) (f g : ℕ → Option ℕ)
    → ((q : ℕ) → f q ≡ g q)
    → elim o [ none ↦ none | some q ↦ f q ] ≡ elim o [ none ↦ none | some q ↦ g q ]
onward none f g same = refl
onward (some q) f g same = same q

-- A walk reads no more of an address than its page.
pub walk-same_page :
    (n level a b p : ℕ) (ram : Ram)
    → n + level ≤ 4
    → a / 4096 ≡ b / 4096
    → walk n ram level a p ≡ walk n ram level b p
unfolding walk
walk-same_page zero level a b p ram room same = refl
walk-same_page (suc n) level a b p ram room same =
    ap (λ (i : ℕ). elim (found ram p i) [ none ↦ none | some q ↦ walk n ram (suc level) a q ])
      (same_row level a b (omega arith) same)
    ∙ onward (found ram p (b / span level % 512)) (walk n ram (suc level) a)
        (walk n ram (suc level) b) (λ q. walk-same_page n (suc level) a b q ram (omega arith) same)

-- What a copy of `src` to `dst` makes of the state.
pub record Copied (root : ℕ) (owned : Owned) (s s' : State) (src : List ℕ) (dst : ℕ) : Type 0 where
  pub tree : Tree root owned s'.pages
  pub translated :
      (b : ℕ) → b < 2 ^ 48 → translate s'.pages.ram root b ≡ translate s.pages.ram root b
  pub copied :
      (i byte : ℕ) → get_elem? src i ≡ some byte → user_byte s'.pages.ram root (dst + i) ≡ some byte
  pub others :
      (b : ℕ)
      → b < 2 ^ 48
      → (b < dst) ⊎ (dst + length src ≤ b)
      → user_byte s'.pages.ram root b ≡ user_byte s.pages.ram root b
  pub allocated : s'.pages.allocated ≡ s.pages.allocated
  pub on_record : s'.page_allocations ≡ s.page_allocations

-- Each address of the copy is translated.
abbrev pub Mapped : Ram → ℕ → ℕ → ℕ → Type 0
Mapped ram root dst count =
    (i : ℕ) → i < count → (dst + i < 2 ^ 48) × ((p : ℕ) × (translate ram root (dst + i) ≡ some p))

-- After its first byte the rest of a copy is still translated.
module _ (root : ℕ) (owned : Owned) (pages : PageAllocator.State) (tree : Tree root owned pages)
    (a byte p : ℕ) (low : a < 2 ^ 48) (e : translate pages.ram root a ≡ some p) where
  put-Mapped :
      (count : ℕ)
      → Mapped pages.ram root a (suc count)
      → Mapped (put root owned pages tree a byte p low e).ram root (a + 1) count
  put-Mapped count mapped i below =
      let (small, (q, f)) = mapped (suc i) (omega (arith, below)) in
      let next : a + 1 + i < 2 ^ 48 = omega (arith, small) in
      let same : a + 1 + i ≡ a + suc i = omega arith in
      (
        next,
        (
          q,
          put-translate root owned pages tree a byte p low e (a + 1 + i) next
              ∙ ap (λ (b : ℕ). translate pages.ram root b) same
              ∙ f,
        ),
      )

  -- The bytes of a copy, when its tail has been copied onto its first byte.
  put-copied :
      (ram : Ram) (src : List ℕ)
      → ((i b : ℕ) → get_elem? src i ≡ some b → user_byte ram root (a + 1 + i) ≡ some b)
      → user_byte ram root a ≡ user_byte (put root owned pages tree a byte p low e).ram root a
      → (i b : ℕ) → get_elem? (byte ∷ src) i ≡ some b
      → user_byte ram root (a + i) ≡ some b
  put-copied ram src rest first zero b f =
      ap (user_byte ram root) {x = a + 0} {y = a} (omega arith)
      ∙ first
      ∙ put-user_byte root owned pages tree a byte p low e
      ∙ f
  put-copied ram src rest first (suc i) b f =
      ap (user_byte ram root) {x = a + suc i} {y = a + 1 + i} (omega arith) ∙ rest i b f

module _ (context : MemoryContext) (owned : Owned) where
  pub copy_to_user-Copied :
      (src : List ℕ) (dst : ℕ) (s : State)
      → Tree (root_of context) owned s.pages
      → Mapped s.pages.ram (root_of context) dst (length src)
      → (s' : State) × (copy_to_user context src dst s ≡ some (ok tt, s'))
        × Copied (root_of context) owned s s' src dst
  unfolding copy_to_user
  copy_to_user-Copied [] dst s tree mapped = (
    s,
    refl,
    record {
      tree = tree;
      translated = λ b low. refl;
      copied = λ i byte e. cc e;
      others = λ b low apart. refl;
      allocated = refl;
      on_record = refl;
    },
  )
  copy_to_user-Copied (byte ∷ src) dst s tree mapped =
      let (low, (p, e)) = mapped 0 (omega arith) in
      let small : dst < 2 ^ 48 = omega (arith, low) in
      let here : translate s.pages.ram (root_of context) dst ≡ some p =
        ap (λ (a : ℕ). translate s.pages.ram (root_of context) a) (omega arith) ∙ e in
      let s1 : State = record s {
        pages = put (root_of context) owned s.pages tree dst byte p small here;
      } in
      let (s', e', rest) =
        copy_to_user-Copied src (dst + 1) s1
          (put-Tree (root_of context) owned s.pages tree dst byte p small here)
          (put-Mapped (root_of context) owned s.pages tree dst byte p small here (length src)
            mapped) in
      (
        s',
        rw (put_byte-put (root_of context) owned s.pages tree dst byte p small here) e',
        record {
          tree = rest.tree;
          translated = λ b low.
              rest.translated b low
              ∙ put-translate (root_of context) owned s.pages tree dst byte p small here b low;
          copied =
              put-copied (root_of context) owned s.pages tree dst byte p small here s'.pages.ram src
                rest.copied (rest.others dst small (inl (omega arith)));
          others = λ b low apart.
              rest.others b low (ground (arith, apart))
              ∙ put-others (root_of context) owned s.pages tree dst byte p small here b low
                  (λ same. omega (arith, same, apart));
          allocated = rest.allocated;
          on_record = rest.on_record;
        },
      )

-- Below the window the kernel reads what the task has.
byte_at-user :
    (kernel : KernelBytes) (ram : Ram) (root a : ℕ)
    → a < 2 ^ 48
    → byte_at kernel ram root a ≡ user_byte ram root a
byte_at-user kernel ram root a low = rw (byte_at, outside) refl
  where
    outside : in_window a ≡ false
    outside = ground (arith, low)

-- A copy back finds the bytes that stand there, and changes nothing.
pub copy_from_user-bytes :
    (kernel : KernelBytes) (context : MemoryContext) (src : List ℕ) (dst : ℕ) (s : State)
    → dst + length src ≤ 2 ^ 48
    → ((i byte : ℕ)
        → get_elem? src i ≡ some byte
        → user_byte s.pages.ram (root_of context) (dst + i) ≡ some byte)
    → copy_from_user kernel context dst (length src) s ≡ some (ok src, s)
unfolding copy_from_user
copy_from_user-bytes kernel context [] dst s low there = refl
copy_from_user-bytes kernel context (byte ∷ src) dst s low there =
    rw
      (
        copy_from_user,
        byte_at-user kernel s.pages.ram (root_of context) dst (omega (arith, low))
            ∙ ap (user_byte s.pages.ram (root_of context)) {x = dst} {y = dst + 0} (omega arith)
            ∙ there 0 byte refl,
        copy_from_user-bytes kernel context src (dst + 1) s (omega (arith, low)) (λ i b f.
            ap (user_byte s.pages.ram (root_of context)) {x = dst + 1 + i} {y = dst + suc i}
              (omega arith)
            ∙ there (suc i) b f),
      )
      refl

-- What a copy from user memory gives: all the bytes, or a fault at one that is not there.
pub copy_from_user-cases :
    (kernel : KernelBytes) (context : MemoryContext) (count src : ℕ) (s : State)
    → ((bytes : List ℕ) × (copy_from_user kernel context src count s ≡ some (ok bytes, s))
        × (length bytes ≡ count)
        × ((i : ℕ)
            → i < count
            → byte_at kernel s.pages.ram (root_of context) (src + i) ≡ get_elem? bytes i))
      ⊎ ((copy_from_user kernel context src count s ≡ some (panic, s))
          × ((i : ℕ) × (i < count)
              × (byte_at kernel s.pages.ram (root_of context) (src + i) ≡ none)))
unfolding copy_from_user
copy_from_user-cases kernel context zero src s =
    inl ([], refl, refl, λ i below. absurd (omega (arith, below)))
copy_from_user-cases kernel context (suc count) src s =
    elim (Option-cases (byte_at kernel s.pages.ram (root_of context) src)) [
      | inl fault ↦ inr (
        rw (copy_from_user, fault) refl,
        (
          0,
          omega arith,
          ap (byte_at kernel s.pages.ram (root_of context)) {x = src + 0} {y = src} (omega arith)
              ∙ fault,
        ),
      )
      | inr (byte, here) ↦ elim (copy_from_user-cases kernel context count (src + 1) s) [
        | inr (e, (i, below, fault)) ↦ inr (
          rw (copy_from_user, here, e) refl,
          (
            suc i,
            omega (arith, below),
            ap (byte_at kernel s.pages.ram (root_of context)) {x = src + suc i} {y = src + 1 + i}
                  (omega arith)
                ∙ fault,
          ),
        )
        | inl (bytes, e, size, there) ↦ inl (
          byte ∷ bytes,
          rw (copy_from_user, here, e) refl,
          omega (arith, size),
          bytes_at (byte_at kernel s.pages.ram (root_of context)) src byte bytes count here there,
        )
      ]
    ]
  where
    bytes_at :
        (f : ℕ → Option ℕ) (src byte : ℕ) (bytes : List ℕ) (count : ℕ)
        → f src ≡ some byte
        → ((i : ℕ) → i < count → f (src + 1 + i) ≡ get_elem? bytes i)
        → (i : ℕ) → i < suc count
        → f (src + i) ≡ get_elem? (byte ∷ bytes) i
    bytes_at f src byte bytes count here there zero below = ap f (omega arith) ∙ here
    bytes_at f src byte bytes count here there (suc i) below =
        ap f (omega arith) ∙ there i (omega (arith, below))
